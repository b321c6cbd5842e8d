-- ===== src/Transaction/ExchangeTests.antt =====
-- Exchanges with the coordinator, a node and all nodes, and aborts.
use clibdpa.Base.{◌≡◌, refl, true, false, [], ◌∷◌, some, ok, arith}
use clibdpa.Base.Int.{pos}
use clibdpa.Message.{
  DpaMessage, peripheral_command, peripheral_type, node_address, response_code_field,
}
use clibdpa.TransactionResult.{set_error_code, set_response, set_confirmation, get_error_code}
use clibdpa.TransactionResult
use clibdpa.Transaction.Types.{Transaction, request_of, to_coordinator, received_response}
use clibdpa.Transaction.Create.{create}
use clibdpa.Transaction.Execute.{abort, begin, cycle, cycles}
use clibdpa.Transaction.Receive.{process_received_message}
use clibdpa.Transaction.Matches.{IsResponseTo, IsConfirmationOf}
use clibdpa.Transaction.Steps.{new, sender}
use clibdpa.Transaction.Progress.{sections_end}
use clibdpa.Base.Bytes.{low_byte}
use clibdpa.Transaction.Broadcast.{Confirms, broadcast_exchange}
use clibdpa.Transaction.Abort.{receive-abort_lost}
use clibdpa.Transaction.Samples.{
  of_bytes, os_read, os_answer, pulse, pulse_confirmation, pulse_answer, fresh, fresh-IsNew,
}

pulse_finite : (fresh pulse).m_infinit_timeout ≡ false
unfolding create to_coordinator node_address TransactionResult.new peripheral_type
pulse_finite = refl

os_answer-IsResponseTo : IsResponseTo (request_of (fresh os_read)) os_answer
unfolding create node_address peripheral_type peripheral_command TransactionResult.new
os_answer-IsResponseTo = record {
  long_enough = omega arith;
  address = refl;
  peripheral = refl;
  flagged = refl;
  command = refl;
}

pulse_confirmed : IsConfirmationOf (request_of (fresh pulse)) pulse_confirmation
unfolding create node_address peripheral_type peripheral_command response_code_field
    TransactionResult.new
pulse_confirmed = record {
  long_enough = omega arith;
  address = refl;
  peripheral = refl;
  plain = refl;
  command = refl;
  status = refl;
}

pulse_answered : IsResponseTo (request_of (fresh pulse)) pulse_answer
unfolding create node_address peripheral_type peripheral_command TransactionResult.new
pulse_answered = record {
  long_enough = omega arith;
  address = refl;
  peripheral = refl;
  flagged = refl;
  command = refl;
}

receive-abort_lost_example :
    (t : Transaction) × (process_received_message (abort (fresh pulse)) pulse_answer 9 ≡ ok t)
    × (t.m_state ≡ received_response)
receive-abort_lost_example =
    receive-abort_lost (fresh pulse) pulse_answer 9 (fresh-IsNew pulse).unfinished pulse_finite
      pulse_answered

-- The same command for all nodes.
abbrev all_pulse : DpaMessage
all_pulse = of_bytes (255 ∷ 0 ∷ 6 ∷ 3 ∷ 255 ∷ 255 ∷ []) 6

abbrev all_confirmation : DpaMessage
all_confirmation = of_bytes (255 ∷ 0 ∷ 6 ∷ 3 ∷ 255 ∷ 255 ∷ 255 ∷ 53 ∷ 1 ∷ 6 ∷ 0 ∷ []) 11

all_confirmed : IsConfirmationOf (request_of (fresh all_pulse)) all_confirmation
unfolding create node_address peripheral_type peripheral_command response_code_field
    TransactionResult.new
all_confirmed = record {
  long_enough = omega arith;
  address = refl;
  peripheral = refl;
  plain = refl;
  command = refl;
  status = refl;
}

all_pulse-address : low_byte (node_address (request_of (fresh all_pulse))) ≡ 255
unfolding create node_address TransactionResult.new
all_pulse-address = refl

broadcast_exchange_example :
    (t1 t2 : Transaction) × (begin (sender false) 1 (fresh all_pulse) (pos 0) tt ≡ some (t1, tt))
    × (process_received_message t1 all_confirmation 8 ≡ ok t2)
    × ((cycle t2 false).m_finish ≡ false)
    × (cycles 1 t2 true ≡ some (cycle t2 true))
    × Confirms (cycle t2 true) all_confirmation
broadcast_exchange_example =
    broadcast_exchange (fresh all_pulse) all_confirmation 8 (fresh-IsNew all_pulse).unfinished
      (fresh-IsNew all_pulse).paced (fresh-IsNew all_pulse).no_response all_pulse-address
      all_confirmed

sections_end_example :
    ((t : Transaction) × (begin (sender true) 1 (fresh os_read) (pos 0) tt ≡ some (t, tt)))
    × (cycles 1 (fresh os_read) false ≡ some (cycle (fresh os_read) false))
sections_end_example =
    sections_end {t = fresh os_read} true false (pos 0) (fresh-IsNew os_read) new (λ e. cc e)
