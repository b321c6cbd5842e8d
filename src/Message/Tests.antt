-- ===== src/Message/Tests.antt =====
-- Messages of the program's own shape: a LED pulse request, its confirmation and its response.
use clibdpa.Base.{
  ℕ, ◌≡◌, refl, false, List, [], ◌∷◌, replicate, ok, err, length_error, overwrite, arith,
}
use clibdpa.Base.Int.{pos}
use clibdpa.Message.{
  DpaMessage, request, confirmation, response, empty, empty_packet, from_string, message_direction,
  peripheral_command, is_confirmation_message,
}
use clibdpa.Message.Validity.{
  IsValid, assigns, assigns_string, sets_length, run, run-IsValid, empty-IsValid,
}

-- Node 1, LEDR (6), pulse (3), any HWPID.
abbrev pulse_bytes : List ℕ
pulse_bytes = 1 ∷ 0 ∷ 6 ∷ 3 ∷ 255 ∷ 255 ∷ []

abbrev response_bytes : List ℕ
response_bytes = 1 ∷ 0 ∷ 6 ∷ 0x83 ∷ 0 ∷ 0 ∷ 0 ∷ 53 ∷ []

abbrev confirmation_bytes : List ℕ
confirmation_bytes = 1 ∷ 0 ∷ 6 ∷ 3 ∷ 255 ∷ 255 ∷ 0xff ∷ 53 ∷ 1 ∷ 6 ∷ 1 ∷ []

abbrev of_bytes : List ℕ → ℕ → DpaMessage
of_bytes xs n = record { buffer = overwrite xs empty_packet; m_length = n }

pulse_is_request : message_direction (of_bytes pulse_bytes 6) ≡ request
unfolding message_direction peripheral_command
pulse_is_request = refl

response_is_response : message_direction (of_bytes response_bytes 8) ≡ response
unfolding message_direction peripheral_command
response_is_response = refl

confirmation_is_confirmation : message_direction (of_bytes confirmation_bytes 11) ≡ confirmation
unfolding message_direction peripheral_command is_confirmation_message
confirmation_is_confirmation = refl

-- A string of 256 bytes leaves the length as it was.
wrapped_length :
    from_string 7 (replicate 256 1) ≡ ok (record { buffer = empty_packet; m_length = 7 })
unfolding from_string
wrapped_length = refl

too_long_throws : from_string 0 (replicate 65 1) ≡ err length_error
unfolding from_string
too_long_throws = refl

run-IsValid_example :
    IsValid
      (run empty (assigns_string pulse_bytes ∷ sets_length (pos 65) ∷ assigns false empty ∷ []))
run-IsValid_example =
    run-IsValid empty (assigns_string pulse_bytes ∷ sets_length (pos 65) ∷ assigns false empty ∷ [])
      empty-IsValid (omega arith, (tt, (empty-IsValid, tt)))

pulse-IsValid : IsValid (of_bytes pulse_bytes 6)
pulse-IsValid = record { sized = refl; bytes = omega arith; fits = omega arith }
