-- ===== src/Example/Tests.antt =====
-- Rounds of the example program with a channel that counts what it was given.
use clibdpa.Base.{
  ℕ, suc, ◌+◌, ◌≡◌, refl, Bool, true, false, List, [], ◌∷◌, some, get_elem?, if◌then◌else◌, ◌==◌,
  arith,
}
use clibdpa.Message.{
  copy, message_direction, is_confirmation_message, node_address, peripheral_type,
  peripheral_command, response_code_field,
}
use clibdpa.TaskQueue
use clibdpa.Transaction.Types.{Transaction}
use clibdpa.Transaction.Matches.{IsResponseTo, IsConfirmationOf}
use clibdpa.Transaction.Exchange.{Delivers}
use clibdpa.Handler.Types.{Handler, init}
use clibdpa.Handler.Defaults.{HasTimeout}
use clibdpa.Handler.Submit.{process_transaction, resume_transaction}
use clibdpa.Handler.Dispatch.{handled, is_asynchronous, response_message_handler}
use clibdpa.Handler.Registry.{process_any_message}
use clibdpa.Handler.Routing.{received_as}
use clibdpa.Example.{set_up, begin_round, end_round}
use clibdpa.Example.Round.{pulse, pulse_bytes, answered_round}

abbrev send_to : List ℕ → ℕ → ℕ × Bool
send_to bytes w = (suc w, false)

abbrev client : Handler ℕ
client = set_up init 1 0

client-HasTimeout : HasTimeout client
unfolding set_up init
client-HasTimeout = record { ms = 500; value = refl; enough = omega arith; fits = omega arith }

abbrev confirming : List ℕ
confirming = 1 ∷ 0 ∷ 6 ∷ 3 ∷ 255 ∷ 255 ∷ 255 ∷ 53 ∷ 1 ∷ 6 ∷ 1 ∷ []

abbrev answering : List ℕ
answering = 1 ∷ 0 ∷ 6 ∷ 0x83 ∷ 0 ∷ 0 ∷ 0 ∷ 53 ∷ []

confirming_plain : is_asynchronous (received_as confirming) ≡ false
unfolding is_asynchronous message_direction peripheral_command response_code_field
    is_confirmation_message
confirming_plain = refl

answering_plain : is_asynchronous (received_as answering) ≡ false
unfolding is_asynchronous message_direction peripheral_command response_code_field
answering_plain = refl

confirms : IsConfirmationOf pulse (received_as confirming)
unfolding node_address peripheral_type peripheral_command response_code_field
confirms = record {
  long_enough = omega arith;
  address = refl;
  peripheral = refl;
  plain = refl;
  command = refl;
  status = refl;
}

answers_it : IsResponseTo pulse (received_as answering)
unfolding node_address peripheral_type peripheral_command
answers_it = record {
  long_enough = omega arith;
  address = refl;
  peripheral = refl;
  flagged = refl;
  command = refl;
}

answered_round_example :
    (h1 h2 h3 h4 h5 : Handler ℕ) × (ptr : ℕ) × (t : Transaction) × (begin_round client 7
      ≡ some (h1, ptr))
    × (process_transaction send_to 1 (record h1 { m_dpa_transaction_queue = TaskQueue.new }) ptr 5
        ≡ some (h2, (send_to pulse_bytes 5).0))
    × (response_message_handler h2 confirming 9 8
        ≡ handled h3 (process_any_message h2 (received_as confirming)))
    × (response_message_handler h3 answering 9 10
        ≡ handled h4 (process_any_message h3 (received_as answering)))
    × (resume_transaction 1 h4 ptr true ≡ some h5)
    × (get_elem? h5.store ptr ≡ some t)
    × Delivers t (received_as answering)
    × ((c : ℕ)
        → end_round c t.m_dpa_transaction_result
          ≡ (if response_code_field (copy (received_as answering)) == 0 then c else c + 1))
unfolding TaskQueue.new TaskQueue.size
answered_round_example =
    answered_round send_to client 7 TaskQueue.new 5 confirming answering 9 8 9 10 client-HasTimeout
      (omega arith) (omega arith, omega arith) confirming_plain confirms (omega arith, omega arith)
      answering_plain answers_it
