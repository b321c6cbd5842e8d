-- ===== src/Handler/NodeTests.antt =====
-- The exchange with a node through the handler: pulsing its LED.
use clibdpa.Base.{
  ℕ, suc, ◌≡◌, refl, Bool, true, false, List, [], ◌∷◌, some, get_elem?, overwrite, arith,
}
use clibdpa.Base.Int.{pos, negsuc}
use clibdpa.Message.{
  DpaMessage, empty_packet, message_direction, is_confirmation_message, node_address,
  peripheral_type, peripheral_command, response_code_field,
}
use clibdpa.Message.Contents.{contents}
use clibdpa.Timing.{std}
use clibdpa.TaskQueue.{size}
use clibdpa.TransactionResult
use clibdpa.Transaction.Types.{Transaction, request_of, to_coordinator}
use clibdpa.Transaction.Create.{create}
use clibdpa.Transaction.Execute.{cycle}
use clibdpa.Transaction.Invariant.{IsNew}
use clibdpa.Transaction.Outcome.{create-IsNew}
use clibdpa.Transaction.Matches.{IsResponseTo, IsConfirmationOf}
use clibdpa.Transaction.Exchange.{Delivers}
use clibdpa.Handler.Types.{Handler, init, initial_timing_params}
use clibdpa.Handler.Registry.{process_any_message}
use clibdpa.Handler.Submit.{process_transaction, resume_transaction}
use clibdpa.Handler.Dispatch.{handled, is_asynchronous, response_message_handler}
use clibdpa.Handler.Routing.{received_as}
use clibdpa.Handler.EndToEnd.{node_request-Delivers}

abbrev pulse : DpaMessage
pulse = record { buffer = overwrite (1 ∷ 0 ∷ 6 ∷ 3 ∷ 255 ∷ 255 ∷ []) empty_packet; m_length = 6 }

abbrev pub confirming : List ℕ
confirming = 1 ∷ 0 ∷ 6 ∷ 3 ∷ 255 ∷ 255 ∷ 255 ∷ 53 ∷ 1 ∷ 6 ∷ 1 ∷ []

abbrev pub answering : List ℕ
answering = 1 ∷ 0 ∷ 6 ∷ 0x83 ∷ 0 ∷ 0 ∷ 0 ∷ 53 ∷ []

abbrev pub send_to : List ℕ → ℕ → ℕ × Bool
send_to bytes w = (suc w, false)

abbrev pub made : Transaction
made = create pulse std initial_timing_params (pos 500) (negsuc 0) (pos 0) 0 7

pub made-IsNew : IsNew made
made-IsNew =
    create-IsNew pulse std initial_timing_params 500 (negsuc 0) (pos 0) 0 7 (omega arith)
      (omega arith) (omega arith)

pub made_plain : (made.m_default_error ≡ pos 0) × (made.m_infinit_timeout ≡ false)
unfolding create to_coordinator node_address TransactionResult.new peripheral_type
made_plain = (refl, refl)

abbrev at_rest : Handler ℕ
at_rest = init

abbrev pub asking : Handler ℕ
asking = record at_rest { store = made ∷ [] }

pub asking_size : size asking.m_dpa_transaction_queue ≡ 0
unfolding init size
asking_size = refl

pub confirming_plain : is_asynchronous (received_as confirming) ≡ false
unfolding is_asynchronous message_direction peripheral_command response_code_field
    is_confirmation_message
confirming_plain = refl

pub answering_plain : is_asynchronous (received_as answering) ≡ false
unfolding is_asynchronous message_direction peripheral_command response_code_field
answering_plain = refl

pub confirms : IsConfirmationOf (request_of made) (received_as confirming)
unfolding create node_address peripheral_type peripheral_command response_code_field
    TransactionResult.new
confirms = record {
  long_enough = omega arith;
  address = refl;
  peripheral = refl;
  plain = refl;
  command = refl;
  status = refl;
}

pub answers_it : IsResponseTo (request_of made) (received_as answering)
unfolding create node_address peripheral_type peripheral_command TransactionResult.new
answers_it = record {
  long_enough = omega arith;
  address = refl;
  peripheral = refl;
  flagged = refl;
  command = refl;
}

node_request-Delivers_example :
    (h1 h2 h3 h4 : Handler ℕ) × (t3 t4 : Transaction) × (process_transaction send_to 1 asking 0 5
      ≡ some (h1, (send_to (contents (request_of made)) 5).0))
    × (response_message_handler h1 confirming 9 8
        ≡ handled h2 (process_any_message h1 (received_as confirming)))
    × (response_message_handler h2 answering 9 10
        ≡ handled h3 (process_any_message h2 (received_as answering)))
    × (get_elem? h3.store 0 ≡ some t3)
    × ((cycle t3 false).m_finish ≡ false)
    × (resume_transaction 1 h3 0 true ≡ some h4)
    × (get_elem? h4.store 0 ≡ some t4)
    × Delivers t4 (received_as answering)
node_request-Delivers_example =
    node_request-Delivers send_to asking 0 made 5 confirming answering 9 8 9 10 refl
      (omega (arith, asking_size)) made_plain.0 made-IsNew.unfinished made_plain.1 made-IsNew.paced
      (omega arith, omega arith) confirming_plain confirms (omega arith, omega arith)
      answering_plain answers_it
