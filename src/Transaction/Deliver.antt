-- ===== src/Transaction/Deliver.antt =====
-- What a message that matches the request does to a transaction that is not finished.
use clibdpa.Base.{ℕ, ◌≡◌, true, false, if◌then◌else◌, arith, ok}
use clibdpa.Message.{DpaMessage, message_direction, response, get_length}
use clibdpa.Timing.{response_data_length}
use clibdpa.Transaction.Types.{received_response, processed, Transaction, request_of}
use clibdpa.Transaction.Receive.{
  process_received_message, process_confirmation, process_response, answers, dispatch,
}
use clibdpa.Transaction.Honesty.{estimated-pos}
use clibdpa.Transaction.Receive.{is_sent_coordinator}
use clibdpa.Message.{confirmation as confirmation_kind}

pub receive_response :
    (t : Transaction) (received : DpaMessage) (now : ℕ)
    → t.m_finish ≡ false
    → message_direction received ≡ response
    → answers received (request_of t) ≡ true
    → process_received_message t received now ≡ ok (process_response t received now)
unfolding process_received_message
receive_response t received now f d a = rw (f, process_received_message) (rw (d, dispatch) (rw a))

pub receive_confirmation :
    (t : Transaction) (received : DpaMessage) (now : ℕ)
    → t.m_finish ≡ false
    → message_direction received ≡ confirmation_kind
    → answers received (request_of t) ≡ true
    → process_received_message t received now ≡ ok (process_confirmation t received now)
unfolding process_received_message
receive_confirmation t received now f d a =
    rw (f, process_received_message) (rw (d, dispatch) (rw a))

-- The state behind a response: done for a request to the coordinator that was just sent and for an
-- infinite timeout, a wait otherwise.
pub response-state :
    (t : Transaction) (received : DpaMessage) (now : ℕ)
    → (process_response t received now).m_state ≡ (
        if is_sent_coordinator t.m_state
        then processed
        else if t.m_infinit_timeout
        then processed
        else received_response)
unfolding process_response
response-state t received now =
    ground (arith, estimated-pos t (response_data_length (get_length received)))
