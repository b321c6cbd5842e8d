-- ===== src/Handler/Routing.antt =====
-- Where a string of bytes from the channel goes.
use clibdpa.Base.{
  ◌||◌, ℕ, ◌≤◌, ◌<◌, ◌≡◌, refl, ◌∙◌, Bool, true, false, List, [], ◌++◌, none, some, if◌then◌else◌,
  ltb, ◌==◌, length, take, overwrite, arith, Bool-cases, inl, inr, ◌⊎◌, ok, err, invalid_argument,
  length_error,
}
use clibdpa.Message.{
  DpaMessage, empty, empty_packet, max_dpa_message_size, fill_from_response, from_string, length_u8,
}
use clibdpa.Handler.Types.{Handler}
use clibdpa.Handler.Registry.{process_any_message, process_asynchronous_message}
use clibdpa.Handler.Dispatch.{
  Handled, handled, null_dereference, is_asynchronous, to_pending, response_message_handler,
}

-- The message that the bytes become: their first `length % 256` bytes.
abbrev pub received_as : List ℕ → DpaMessage
received_as bytes = record {
  buffer = overwrite (take (length_u8 bytes) bytes) empty_packet;
  m_length = length_u8 bytes;
}

module _ {H : Type 0} (h : Handler H) (bytes : List ℕ) (stale now : ℕ) where
  filled :
      0 < length_u8 bytes
      → length_u8 bytes ≤ max_dpa_message_size
      → (fill_from_response empty (some bytes) (length_u8 bytes) ≡ ok (received_as bytes))
        × (from_string stale bytes ≡ ok (received_as bytes))
        × ((length bytes == 0) ≡ false)
  unfolding fill_from_response from_string empty
  filled p f = (ground arith, ground arith, ground arith)

  unfilled :
      (length_u8 bytes ≡ 0) ⊎ (max_dpa_message_size < length_u8 bytes)
      → fill_from_response empty (some bytes) (length_u8 bytes)
        ≡ err (if length_u8 bytes == 0 then invalid_argument else length_error)
  unfolding fill_from_response
  unfilled d = ground arith

  dropped_at :
      (b : Bool)
      → (length_u8 bytes ≡ 0) ⊎ (max_dpa_message_size < length_u8 bytes)
      → (length bytes == 0) ≡ b
      → response_message_handler h bytes stale now ≡ handled h []
  unfolding response_message_handler
  dropped_at true d e = rw (e, response_message_handler)
  dropped_at false d e =
      rw (e, response_message_handler) (rw (unfilled d, response_message_handler))

  dropped :
      (length_u8 bytes ≡ 0) ⊎ (max_dpa_message_size < length_u8 bytes)
      → response_message_handler h bytes stale now ≡ handled h []
  dropped d = dropped_at (length bytes == 0) d refl

  -- Where a string of 1 to 64 bytes, modulo 256, goes.
  abbrev routed : Bool → Handled H
  routed asynchronous =
      if asynchronous
      then handled h (
          process_any_message h (received_as bytes)
          ++ process_asynchronous_message h (received_as bytes))
      else to_pending h (received_as bytes) now (process_any_message h (received_as bytes))

  accepted :
      0 < length_u8 bytes
      → length_u8 bytes ≤ max_dpa_message_size
      → response_message_handler h bytes stale now ≡ routed (is_asynchronous (received_as bytes))
  unfolding response_message_handler
  accepted p f =
      let (x, y, z) = filled p f in
      rw (z, response_message_handler)
        (rw (x, response_message_handler) (rw (y, response_message_handler) refl))

  pub response_message_handler-eq-if : response_message_handler h bytes stale now ≡ (
      if length_u8 bytes == 0 || ltb max_dpa_message_size (length_u8 bytes)
      then handled h []
      else if is_asynchronous (received_as bytes)
      then handled h (
          process_any_message h (received_as bytes)
          ++ process_asynchronous_message h (received_as bytes))
      else to_pending h (received_as bytes) now (process_any_message h (received_as bytes)))
  response_message_handler-eq-if =
      elim (Bool-cases (length_u8 bytes == 0 || ltb max_dpa_message_size (length_u8 bytes))) [
        | inl e ↦ dropped (ground arith) ∙ rw e refl
        | inr e ↦ accepted (ground arith) (ground arith) ∙ rw e refl
      ]

  pub accepted_pending :
      0 < length_u8 bytes
      → length_u8 bytes ≤ max_dpa_message_size
      → is_asynchronous (received_as bytes) ≡ false
      → response_message_handler h bytes stale now
        ≡ to_pending h (received_as bytes) now (process_any_message h (received_as bytes))
  accepted_pending p f e = accepted p f ∙ rw e refl

  -- While no transaction is pending, as before the worker takes up the first: every string whose
  -- length is from 1 to 64 modulo 256 and that becomes a message that is not asynchronous makes
  -- the handler call a member function of a null pointer.
  response_without_pending :
      h.m_pending_transaction ≡ none
      → 0 < length_u8 bytes
      → length_u8 bytes ≤ max_dpa_message_size
      → is_asynchronous (received_as bytes) ≡ false
      → response_message_handler h bytes stale now ≡ null_dereference
  unfolding to_pending
  response_without_pending n p f e = accepted p f ∙ rw e (rw (n, to_pending))
