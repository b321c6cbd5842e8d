-- ===== src/Transaction/Tests.antt =====
-- Timeouts, and runs of the threads that meet in a transaction.
use clibdpa.Base.{◌≡◌, ◌⊎◌, refl, Bool, true, false, some}
use clibdpa.Base.Int.{pos, negsuc}
use clibdpa.Message.{
  assign, message_direction, peripheral_command, peripheral_type, node_address, response_code_field,
}
use clibdpa.Timing.{estimate_timeout, std_response_slot}
use clibdpa.TransactionResult.{set_error_code, set_response, set_confirmation, get_error_code}
use clibdpa.TransactionResult
use clibdpa.Transaction.Types.{Transaction, request_of, to_coordinator}
use clibdpa.Transaction.Create.{create}
use clibdpa.Transaction.Execute.{abort, begin, cycle, cycles, get}
use clibdpa.Transaction.Receive.{
  process_received_message, process_response, process_confirmation, answers,
}
use clibdpa.Transaction.Recorded.{Recorded, Reach-Recorded}
use clibdpa.Transaction.Steps.{
  Step, Reach, new, later, begins, receives, wakes, aborts, after, waiting, returned,
}
use clibdpa.Transaction.Honesty.{code_of}
use clibdpa.Transaction.Invariant.{Reach-Inv}
use clibdpa.Transaction.Outcome.{timeout_needs_finite, Step-result_final}
use clibdpa.Transaction.Progress.{expired_wait_finishes}
use clibdpa.Transaction.Exchange.{sent_for}
use clibdpa.Transaction.Samples.{os_read, os_answer, pulse, pulse_confirmation, fresh, fresh-IsNew}

pulse_timeouts : (fresh pulse).m_user_timeout_ms ≡ 1000
unfolding create to_coordinator node_address TransactionResult.new
pulse_timeouts = refl

pulse_confirmed_duration :
    (process_confirmation (fresh pulse) pulse_confirmation 8).m_expected_duration_ms ≡ 1000
unfolding create to_coordinator node_address TransactionResult.new process_confirmation
    estimate_timeout std_response_slot
pulse_confirmed_duration = refl

-- The exchange with the coordinator, as steps of the threads.
abbrev asked : Transaction
asked = sent_for (fresh os_read)

abbrev answered : Transaction
answered = process_response asked os_answer 9

abbrev finished : Transaction
finished = cycle answered false

reach_waiting : Reach (fresh os_read) (after asked)
unfolding create begin to_coordinator node_address TransactionResult.new peripheral_type
reach_waiting = later new (begins 1 (pos 0) false asked refl refl refl)

reach_answered : Reach (fresh os_read) (record { transaction = answered; worker = waiting })
unfolding create begin to_coordinator node_address TransactionResult.new assign
    process_received_message answers message_direction peripheral_command peripheral_type
reach_answered = later reach_waiting (receives os_answer 9 answered refl refl)

reach_finished : Reach (fresh os_read) (after finished)
unfolding create begin to_coordinator node_address TransactionResult.new process_response cycles
reach_finished = later reach_answered (wakes 1 false finished refl refl refl)

finished_code : ((after finished).worker ≡ returned) × (code_of finished ≡ pos 0)
unfolding create begin to_coordinator node_address TransactionResult.new process_response cycles
    response_code_field set_response set_error_code get_error_code
finished_code = (refl, refl)

asked_waits : (after asked).worker ≡ waiting
unfolding create begin to_coordinator node_address TransactionResult.new peripheral_type
asked_waits = refl

asked_finite : asked.m_infinit_timeout ≡ false
unfolding create begin to_coordinator node_address TransactionResult.new peripheral_type
asked_finite = refl

finished-finish : finished.m_finish ≡ true
finished-finish = (Reach-Inv (fresh-IsNew os_read) reach_finished).over finished_code.0

Step-result_final_example :
    ((abort finished).m_dpa_transaction_result ≡ finished.m_dpa_transaction_result)
    × ((after finished).worker ≡ returned)
Step-result_final_example =
    Step-result_final (aborts refl) (Reach-Inv (fresh-IsNew os_read) reach_finished) finished_code.0

expired_wait_finishes_example :
    (t : Transaction) × (cycles 1 asked true ≡ some t)
    × Step (after asked) (after t)
    × ((after t).worker ≡ returned)
    × ((started : Bool) → get t started ≡ some t.m_dpa_transaction_result)
expired_wait_finishes_example =
    expired_wait_finishes (fresh-IsNew os_read) reach_waiting asked_waits asked_finite

-- The request to the coordinator, whose wait ends with no answer.
abbrev late : Transaction
late = cycle asked true

reach_late : Reach (fresh os_read) (after late)
unfolding create begin to_coordinator node_address TransactionResult.new peripheral_type cycles
reach_late = later reach_waiting (wakes 1 true late refl refl refl)

late_code : ((after late).worker ≡ returned) × (code_of late ≡ negsuc 0)
unfolding create begin to_coordinator node_address TransactionResult.new peripheral_type cycles
    get_error_code set_error_code
late_code = (refl, refl)

timeout_needs_finite_example : (late.m_infinit_timeout ≡ false) ⊎ (late.m_default_error ≡ negsuc 0)
timeout_needs_finite_example =
    timeout_needs_finite (fresh-IsNew os_read) reach_late late_code.0 late_code.1

Reach-Recorded_example : Recorded (request_of (fresh os_read)) finished.m_dpa_transaction_result
Reach-Recorded_example = Reach-Recorded (fresh-IsNew os_read).unanswered reach_finished
