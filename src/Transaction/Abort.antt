-- ===== src/Transaction/Abort.antt =====
-- What abort() does, and when it is lost.
use clibdpa.Base.{ℕ, ◌≡◌, refl, ◌∙◌, Bool, true, false, arith, some, ok}
use clibdpa.Base.Int.{ℤ, negsuc}
use clibdpa.Message.{DpaMessage}
use clibdpa.TransactionResult.{get_error_code, set_error_code}
use clibdpa.Transaction.Types.{received_response, Transaction, request_of}
use clibdpa.Transaction.Execute.{abort, cycle, cycles, begin}
use clibdpa.Transaction.Receive.{process_received_message, process_response}
use clibdpa.Transaction.Matches.{IsResponseTo, response-IsResponseTo}
use clibdpa.Transaction.Honesty.{code_of}
use clibdpa.Transaction.Deliver.{receive_response, response-state}

-- An abort before execute() is lost: execute() then does exactly what it does without the abort.
begin-abort :
    {W : Type 0} (m_sender : DpaMessage → W → W × Bool) (fuel : ℕ) (t : Transaction) (error : ℤ)
    (w : W)
    → begin m_sender fuel (abort t) error w ≡ begin m_sender fuel t error w
unfolding begin abort
begin-abort m_sender fuel t error w = ground arith

-- An abort while execute() waits ends the transaction at the next wake, however that comes about, with
-- the code for an aborted transaction.
cycles-abort :
    (t : Transaction) (expired : Bool)
    → (t' : Transaction) × (cycles 1 (abort t) expired ≡ some t')
      × (t'.m_finish ≡ true)
      × (code_of t' ≡ negsuc 2)
unfolding cycles abort set_error_code get_error_code
cycles-abort t expired = (cycle (abort t) expired, ground arith, ground arith, ground arith)

-- A response to the request that arrives between an abort and the wake of the worker undoes the
-- abort: of an unfinished transaction with a finite timeout the state is then that of a received
-- response.
pub receive-abort_lost :
    (t : Transaction) (received : DpaMessage) (now : ℕ)
    → t.m_finish ≡ false
    → t.m_infinit_timeout ≡ false
    → IsResponseTo (request_of t) received
    → (t' : Transaction) × (process_received_message (abort t) received now ≡ ok t')
      × (t'.m_state ≡ received_response)
unfolding abort
receive-abort_lost t received now f i b =
    let (d, a) = (response-IsResponseTo (request_of t) received).1 b in
    (
      process_response (abort t) received now,
      receive_response (abort t) received now f d a,
      response-state (abort t) received now ∙ rw i refl,
    )
