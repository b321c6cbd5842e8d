-- ===== src/Handler/EachTests.antt =====
-- A run of the handler's threads to the end of an exchange with a node.
use clibdpa.Base.{ℕ, ◌≡◌, ◌⊎◌, refl, true, false, some, get_elem?, arith}
use clibdpa.Base.Int.{pos}
use clibdpa.Message.{response_code_field}
use clibdpa.Message.Contents.{contents}
use clibdpa.TaskQueue.{size}
use clibdpa.TaskQueue
use clibdpa.Transaction.Types.{Transaction, request_of}
use clibdpa.Transaction.Execute.{cycle}
use clibdpa.Transaction.Exchange.{Delivers}
use clibdpa.Transaction.Honesty.{code_of, IsBroadcast}
use clibdpa.Transaction.Invariant.{IsNew}
use clibdpa.Transaction.Outcome.{Succeeded}
use clibdpa.Transaction.Steps as OfOne
use clibdpa.Handler.Types.{Handler, init}
use clibdpa.Handler.Registry.{process_any_message}
use clibdpa.Handler.Submit.{execute_dpa_transaction, process_transaction, resume_transaction}
use clibdpa.Handler.Dispatch.{handled, response_message_handler}
use clibdpa.Handler.Routing.{received_as}
use clibdpa.Handler.EndToEnd.{node_request-Delivers}
use clibdpa.Handler.Uninterrupted.{Reach-process}
use clibdpa.Handler.Steps.{System, Reach, executing, receives, resumes, next}
use clibdpa.Handler.EachTransaction.{Reach-each_transaction, success_is_answered}
use clibdpa.Handler.NodeTests.{
  send_to, made, made-IsNew, made_plain, confirming, answering, confirming_plain, answering_plain,
  confirms, answers_it,
}
use clibdpa.Handler.ThreadTests.{taking, reach_taking}

exchange :
    (h1 h2 h3 h4 : Handler ℕ) × (t3 t4 : Transaction) × (process_transaction send_to 1
        taking.handler 0 5
      ≡ some (h1, (send_to (contents (request_of made)) 5).0))
    × (response_message_handler h1 confirming 9 8
        ≡ handled h2 (process_any_message h1 (received_as confirming)))
    × (response_message_handler h2 answering 9 10
        ≡ handled h3 (process_any_message h2 (received_as answering)))
    × (get_elem? h3.store 0 ≡ some t3)
    × ((cycle t3 false).m_finish ≡ false)
    × (resume_transaction 1 h3 0 true ≡ some h4)
    × (get_elem? h4.store 0 ≡ some t4)
    × Delivers t4 (received_as answering)
unfolding init execute_dpa_transaction TaskQueue.new size
exchange =
    node_request-Delivers send_to taking.handler 0 made 5 confirming answering 9 8 9 10 refl
      (omega arith) made_plain.0 made-IsNew.unfinished made_plain.1 made-IsNew.paced
      (omega arith, omega arith) confirming_plain confirms (omega arith, omega arith)
      answering_plain answers_it

-- A notification does not finish what is finished already.
cycle-open : (t : Transaction) → (cycle t false).m_finish ≡ false → t.m_finish ≡ false
unfolding cycle
cycle-open t h = ground arith

abbrev run_to : Handler ℕ → System ℕ ℕ
run_to h = record taking { handler = h; phase = executing 0; world = 6 }

reach_end : Reach send_to 5 (run_to exchange.3)
unfolding init execute_dpa_transaction TaskQueue.new size
reach_end =
    let (h1, h2, h3, h4, t3, t4, p, c, r, g, f, w, _, _) = exchange in
    next
      (next
        (next (Reach-process send_to 0 1 h1 6 reach_taking refl p)
          (receives confirming 9 8 h2 _ c refl))
        (receives answering 9 10 h3 _ r refl))
      (resumes 0 1 true t3 h4 refl g (cycle-open t3 f) w refl)

Reach-each_transaction_example :
    (origin : Transaction) × (worker : OfOne.Worker) × IsNew origin
    × OfOne.Reach origin (record { transaction = exchange.5; worker = worker })
Reach-each_transaction_example = Reach-each_transaction send_to 0 exchange.5 reach_end exchange.12

success_code : code_of exchange.5 ≡ pos 0
unfolding response_code_field
success_code = exchange.13.code

success_is_answered_example : Succeeded (request_of exchange.5) exchange.5 ⊎ IsBroadcast exchange.5
success_is_answered_example =
    success_is_answered send_to 0 exchange.5 reach_end exchange.12 exchange.13.finished success_code
