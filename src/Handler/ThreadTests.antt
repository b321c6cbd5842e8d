-- ===== src/Handler/ThreadTests.antt =====
-- Runs of the handler's threads: a request is executed and taken up by the worker, and another is
-- answered.
use clibdpa.Base.{
  ℕ, suc, ◌≡◌, refl, Bool, true, false, List, [], ◌∷◌, ◌++◌, some, get_elem?, overwrite, arith,
}
use clibdpa.Base.Int.{pos, negsuc}
use clibdpa.Message.{
  node_address, peripheral_type, DpaMessage, empty_packet, message_direction, peripheral_command,
  response_code_field,
}
use clibdpa.Timing.{std}
use clibdpa.TaskQueue.{size, checking, waiting, processing, push_to_queue, worker_step}
use clibdpa.Message.Contents.{contents}
use clibdpa.Transaction.Types.{request_of, to_coordinator, Transaction}
use clibdpa.Transaction.Create.{create}
use clibdpa.Transaction.Outcome.{create-IsNew}
use clibdpa.Transaction.Invariant.{IsNew}
use clibdpa.Handler.Types.{Handler, init, initial_timing_params}
use clibdpa.Handler.Registry.{process_any_message}
use clibdpa.Handler.Submit.{
  resume_transaction, make_transaction, execute_dpa_transaction, process_transaction,
}
use clibdpa.Handler.Dispatch.{handled, is_asynchronous, response_message_handler}
use clibdpa.Transaction.Matches.{IsResponseTo}
use clibdpa.Transaction.Exchange.{Delivers}
use clibdpa.Handler.EndToEnd.{request-Delivers}
use clibdpa.Handler.Routing.{received_as}
use clibdpa.Handler.Pending.{OnlyPending, response_message_handler-OnlyPending}
use clibdpa.Handler.Steps.{System, Reach, at_start, moved, makes, pushes, moves, here, next}
use clibdpa.Handler.Refinement.{Reach-in_submission_order}
use clibdpa.TaskQueue
use clibdpa.TransactionResult

abbrev pub request : DpaMessage
request = record { buffer = overwrite (1 ∷ 0 ∷ 6 ∷ 3 ∷ 255 ∷ 255 ∷ []) empty_packet; m_length = 6 }

abbrev pub send_to : List ℕ → ℕ → ℕ × Bool
send_to bytes w = (suc w, false)

abbrev pub executed : Handler ℕ
executed = (execute_dpa_transaction init request (negsuc 0) (pos 0) 7).0

-- The request is executed, and taken up by the worker, over any channel.
module _ {W : Type 0} (send : List ℕ → W → W × Bool) (world : W) where
  abbrev asked : System ℕ W
  asked = record (at_start send world) { handler = executed; submitted = 0 ∷ [] }

  reach_asked : Reach send world asked
  unfolding init execute_dpa_transaction make_transaction
  reach_asked =
      next (next here (makes request (negsuc 0) (pos 0) 7 (omega arith) refl))
        (pushes [] [] 0 refl refl refl)

  abbrev resting : System ℕ W
  resting = moved send asked waiting asked.handler.m_dpa_transaction_queue

  reach_resting : Reach send world resting
  unfolding init execute_dpa_transaction worker_step
  reach_resting = next reach_asked (moves (checking false) waiting _ refl refl refl refl)

  abbrev pub taking_over : System ℕ W
  taking_over = moved send resting (processing 0) TaskQueue.new

  pub reach_taking_over : Reach send world taking_over
  unfolding init execute_dpa_transaction worker_step TaskQueue.new
  reach_taking_over = next reach_resting (moves waiting (processing 0) _ refl refl refl refl)

abbrev pub taking : System ℕ ℕ
taking = taking_over send_to 5

pub reach_taking : Reach send_to 5 taking
reach_taking = reach_taking_over send_to 5

Reach-in_submission_order_example :
    taking.taken ++ taking.handler.m_dpa_transaction_queue.m_task_queue ≡ 0 ∷ []
Reach-in_submission_order_example = Reach-in_submission_order send_to reach_taking

-- Reading the OS information of the coordinator.
abbrev os_read : DpaMessage
os_read = record { buffer = overwrite (0 ∷ 0 ∷ 2 ∷ 0 ∷ 255 ∷ 255 ∷ []) empty_packet; m_length = 6 }

abbrev os_answer : List ℕ
os_answer = 0 ∷ 0 ∷ 2 ∷ 0x80 ∷ 0 ∷ 0 ∷ 0 ∷ 53 ∷ []

abbrev os_made : Transaction
os_made = create os_read std initial_timing_params (pos 500) (negsuc 0) (pos 0) 0 7

os_made-IsNew : IsNew os_made
os_made-IsNew =
    create-IsNew os_read std initial_timing_params 500 (negsuc 0) (pos 0) 0 7 (omega arith)
      (omega arith) (omega arith)

os_made-default_error : os_made.m_default_error ≡ pos 0
unfolding create
os_made-default_error = refl

os_made-to_coordinator : to_coordinator (request_of os_made) ≡ true
unfolding create to_coordinator node_address TransactionResult.new
os_made-to_coordinator = refl

abbrev at_rest : Handler ℕ
at_rest = init

abbrev asking : Handler ℕ
asking = record at_rest {
  m_any_message_handler_map = ("gw", 1) ∷ ("mq", 2) ∷ [];
  store = os_made ∷ [];
}

asking-size : size asking.m_dpa_transaction_queue ≡ 0
unfolding init size
asking-size = refl

os_answer-plain : is_asynchronous (received_as os_answer) ≡ false
unfolding is_asynchronous message_direction peripheral_command response_code_field
os_answer-plain = refl

os_answer-IsResponseTo : IsResponseTo (request_of os_made) (received_as os_answer)
unfolding create node_address peripheral_type peripheral_command TransactionResult.new
os_answer-IsResponseTo = record {
  long_enough = omega arith;
  address = refl;
  peripheral = refl;
  flagged = refl;
  command = refl;
}

request-Delivers_example :
    (h1 h2 h3 : Handler ℕ) × (t : Transaction) × (process_transaction send_to 1 asking 0 5
      ≡ some (h1, (send_to (contents (request_of os_made)) 5).0))
    × (response_message_handler h1 os_answer 9 8
        ≡ handled h2 (process_any_message h1 (received_as os_answer)))
    × (resume_transaction 1 h2 0 false ≡ some h3)
    × (get_elem? h3.store 0 ≡ some t)
    × Delivers t (received_as os_answer)
request-Delivers_example =
    request-Delivers send_to asking 0 os_made 5 os_answer 9 8 false refl
      (omega (arith, asking-size)) os_made-default_error os_made-IsNew.unfinished
      os_made-IsNew.paced os_made-to_coordinator (omega arith) (omega arith) os_answer-plain
      os_answer-IsResponseTo

delivered :
    (h1 h2 h3 : Handler ℕ) × (t : Transaction) × (process_transaction send_to 1 asking 0 5
      ≡ some (h1, (send_to (contents (request_of os_made)) 5).0))
    × (response_message_handler h1 os_answer 9 8
        ≡ handled h2 (process_any_message h1 (received_as os_answer)))
    × (resume_transaction 1 h2 0 false ≡ some h3)
    × (get_elem? h3.store 0 ≡ some t)
    × Delivers t (received_as os_answer)
delivered =
    request-Delivers send_to asking 0 os_made 5 os_answer 9 8 false refl
      (omega (arith, asking-size)) os_made-default_error os_made-IsNew.unfinished
      os_made-IsNew.paced os_made-to_coordinator (omega arith) (omega arith) os_answer-plain
      os_answer-IsResponseTo

response_message_handler-OnlyPending_example : OnlyPending delivered.0 delivered.1
response_message_handler-OnlyPending_example =
    response_message_handler-OnlyPending delivered.0 delivered.1 os_answer 9 8
      (process_any_message delivered.0 (received_as os_answer)) delivered.5
