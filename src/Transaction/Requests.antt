-- ===== src/Transaction/Requests.antt =====
-- No section of a transaction changes the request that it was made for, and execute() hands at most that
-- request to the sender.
use clibdpa.Base.{
  ℕ, zero, suc, ◌≡◌, ◌⊎◌, inl, inr, ◌∙◌, Bool, false, some, ok, arith, Bool-cases, else_taken,
}
use clibdpa.Base.Int.{ℤ}
use clibdpa.Message.{DpaMessage, MessageType, message_direction, response}
use clibdpa.TransactionResult.{set_error_code, set_confirmation, set_response}
use clibdpa.Transaction.Types.{Transaction, request_of}
use clibdpa.Transaction.Execute.{start, cycle, cycles, begin}
use clibdpa.Transaction.Receive.{
  process_received_message, process_confirmation, process_response, dispatch,
}
use clibdpa.Transaction.Steps.{sender}
use clibdpa.Transaction.Sections.{cycles-cases, begin-cases}

cycle-request : (t : Transaction) (expired : Bool) → request_of (cycle t expired) ≡ request_of t
unfolding cycle set_error_code
cycle-request t expired = ground arith

pub cycles-request :
    (fuel : ℕ) (t : Transaction) (expired : Bool) {t' : Transaction}
    → cycles fuel t expired ≡ some t'
    → request_of t' ≡ request_of t
unfolding cycles
cycles-request zero t expired e = cc
cycles-request (suc fuel) t expired e = elim (cycles-cases fuel t expired e) [
  | inl (c, _) ↦ cc (c, cycle-request t expired)
  | inr (_, c) ↦ cycles-request fuel (cycle t expired) false c ∙ cycle-request t expired
]

start-request :
    (t : Transaction) (error : ℤ) → request_of (start (sender false) t error tt).0 ≡ request_of t
unfolding start
start-request t error = ground arith

pub begin-request :
    (fuel : ℕ) (t : Transaction) (error : ℤ) {t' : Transaction}
    → begin (sender false) fuel t error tt ≡ some (t', tt)
    → request_of t' ≡ request_of t
begin-request fuel t error e = elim (begin-cases fuel false t error e) [
  | inl (c, _) ↦ cc (c, start-request t error)
  | inr c ↦ cycles-request fuel _ false c ∙ start-request t error
]

dispatch-request :
    (d : MessageType) (t : Transaction) (received : DpaMessage) (now : ℕ) {t' : Transaction}
    → dispatch d t received now ≡ ok t'
    → request_of t' ≡ request_of t
unfolding process_confirmation process_response set_confirmation set_response
dispatch-request MessageType.request t received now e = cc
dispatch-request MessageType.notification t received now e = cc
dispatch-request MessageType.confirmation t received now e = ground arith
dispatch-request response t received now e = ground arith

pub receive-request :
    (t : Transaction) (received : DpaMessage) (now : ℕ) {t' : Transaction}
    → process_received_message t received now ≡ ok t'
    → request_of t' ≡ request_of t
unfolding process_received_message
receive-request t received now {t'} e = elim (Bool-cases t.m_finish) [
  | inl f ↦ let same : t ≡ t' = ground arith in cc same
  | inr f ↦
      dispatch-request (message_direction received) t received now (else_taken t.m_finish _ _ f e)
]

-- What the world becomes: nothing is sent, or the request once.
pub begin-world :
    {W : Type 0} (m_sender : DpaMessage → W → W × Bool) (fuel : ℕ) (t : Transaction) (error : ℤ)
    (w : W) {t' : Transaction} {v : W}
    → begin m_sender fuel t error w ≡ some (t', v)
    → (v ≡ w) ⊎ (v ≡ (m_sender (request_of t) w).0)
unfolding begin start
begin-world m_sender fuel t error w e = ground arith
