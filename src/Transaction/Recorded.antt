-- ===== src/Transaction/Recorded.antt =====
-- What the result of a transaction has recorded of the messages that arrived.
use clibdpa.Base.{
  ℕ, zero, suc, ◌≡◌, inl, inr, refl, sym, subst, Bool, true, false, arith, Bool-cases, else_taken,
  Option, none, some, ok,
}
use clibdpa.Base.Int.{ℤ, pos}
use clibdpa.Message.{
  DpaMessage, MessageType, response, message_direction, response_code_field, copy,
}
use clibdpa.TransactionResult.{DpaTransactionResult, set_error_code, set_confirmation, set_response}
use clibdpa.Transaction.Types.{TransferState, Transaction, request_of}
use clibdpa.Transaction.Execute.{abort, conclude, start, cycle, cycles, begin}
use clibdpa.Transaction.Receive.{
  process_received_message, process_confirmation, process_response, answers, dispatch,
}
use clibdpa.Transaction.Matches.{IsResponseTo, response-IsResponseTo}
use clibdpa.Transaction.Steps.{System, begins, wakes, receives, aborts, Reach, new, later, sender}
use clibdpa.Transaction.Sections.{cycles-cases, begin-cases}

-- The result holds a response to the request, and its code.
pub record Answered (q : DpaMessage) (r : DpaTransactionResult) : Type 0 where
  pub received : DpaMessage
  pub responds : IsResponseTo q received
  pub stored : r.m_response ≡ copy received
  pub code : r.m_response_code ≡ pos (response_code_field received)

-- The request is still `q`, and the flag for a response is raised only with one.
pub record Recorded (q : DpaMessage) (r : DpaTransactionResult) : Type 0 where
  pub request : r.m_request ≡ q
  pub answered : r.m_is_responded ≡ true → Answered q r

abbrev result_of : Transaction → DpaTransactionResult
result_of t = t.m_dpa_transaction_result

set_error_code-Recorded :
    (q : DpaMessage) (r : DpaTransactionResult) (e : ℤ)
    → Recorded q r
    → Recorded q (set_error_code r e)
unfolding set_error_code
set_error_code-Recorded q r e v = record {
  request = v.request;
  answered = λ h.
      let a = v.answered h in
      record { received = a.received; responds = a.responds; stored = a.stored; code = a.code };
}

set_confirmation-Recorded :
    (q : DpaMessage) (r : DpaTransactionResult) (c : DpaMessage) (now : ℕ)
    → Recorded q r
    → Recorded q (set_confirmation r c now)
unfolding set_confirmation
set_confirmation-Recorded q r c now v = record {
  request = v.request;
  answered = λ h.
      let a = v.answered h in
      record { received = a.received; responds = a.responds; stored = a.stored; code = a.code };
}

set_response-Recorded :
    (q : DpaMessage) (r : DpaTransactionResult) (m : DpaMessage) (now : ℕ)
    → IsResponseTo q m
    → Recorded q r
    → Recorded q (set_response r m now)
unfolding set_response copy
set_response-Recorded q r m now a v =
    let l = a.long_enough in
    record {
      request = ground arith;
      answered =
          λ h. record { received = m; responds = a; stored = ground arith; code = ground arith };
    }

conclude-Recorded :
    (q : DpaMessage) (t : Transaction) (e : TransferState × Option ℤ)
    → Recorded q (result_of t)
    → Recorded q (result_of (conclude t e))
conclude-Recorded q t (s, none) v = v
conclude-Recorded q t (s, some e) v = set_error_code-Recorded q (result_of t) e v

cycle-Recorded :
    (q : DpaMessage) (t : Transaction) (expired : Bool)
    → Recorded q (result_of t)
    → Recorded q (result_of (cycle t expired))
unfolding cycle
cycle-Recorded q t expired v = conclude-Recorded q t _ v

cycles-Recorded :
    (fuel : ℕ) (q : DpaMessage) (t : Transaction) (expired : Bool) {t' : Transaction}
    → Recorded q (result_of t)
    → cycles fuel t expired ≡ some t'
    → Recorded q (result_of t')
unfolding cycles
cycles-Recorded zero q t expired v e = cc
cycles-Recorded (suc fuel) q t expired v e = elim (cycles-cases fuel t expired e) [
  | inl (c, _) ↦ subst (λ k. Recorded q (result_of k)) c (cycle-Recorded q t expired v)
  | inr (_, c) ↦ cycles-Recorded fuel q (cycle t expired) false (cycle-Recorded q t expired v) c
]

start-result :
    (threw : Bool) (t : Transaction) (error : ℤ)
    → result_of (start (sender threw) t error tt).0 ≡ result_of t
unfolding start
start-result threw t error = ground arith

begin-Recorded :
    (fuel : ℕ) (q : DpaMessage) (threw : Bool) (t : Transaction) (error : ℤ) {t' : Transaction}
    → Recorded q (result_of t)
    → begin (sender threw) fuel t error tt ≡ some (t', tt)
    → Recorded q (result_of t')
begin-Recorded fuel q threw t error v e =
    let started = subst (Recorded q) (sym (start-result threw t error)) v in
    elim (begin-cases fuel threw t error e) [
      | inl (c, _) ↦ subst (λ k. Recorded q (result_of k)) c started
      | inr c ↦ cycles-Recorded fuel q _ false started c
    ]

response-Recorded :
    (q : DpaMessage) (t : Transaction) (received : DpaMessage) (now : ℕ)
    → message_direction received ≡ response
    → answers received (request_of t) ≡ true
    → Recorded q (result_of t)
    → Recorded q (result_of (process_response t received now))
unfolding process_response
response-Recorded q t received now m a v =
    set_response-Recorded q (result_of t) received now
      (subst (λ k. IsResponseTo k received) v.request
        ((response-IsResponseTo (request_of t) received).0 (m, a)))
      v

confirmation-Recorded :
    (q : DpaMessage) (t : Transaction) (received : DpaMessage) (now : ℕ)
    → Recorded q (result_of t)
    → Recorded q (result_of (process_confirmation t received now))
unfolding process_confirmation
confirmation-Recorded q t received now v = set_confirmation-Recorded q (result_of t) received now v

dispatch-Recorded :
    (q : DpaMessage) (d : MessageType) (t : Transaction) (received : DpaMessage) (now : ℕ)
    {t' : Transaction}
    → message_direction received ≡ d
    → Recorded q (result_of t)
    → dispatch d t received now ≡ ok t'
    → Recorded q (result_of t')
dispatch-Recorded q MessageType.request t received now m v e = cc
dispatch-Recorded q MessageType.notification t received now m v e = cc
dispatch-Recorded q MessageType.confirmation t received now {t'} m v e =
    elim (Bool-cases (answers received (request_of t))) [
      | inl a ↦
          let same : process_confirmation t received now ≡ t' = ground arith in
          subst (λ k. Recorded q (result_of k)) same (confirmation-Recorded q t received now v)
      | inr a ↦ absurd (ground arith)
    ]
dispatch-Recorded q response t received now {t'} m v e =
    elim (Bool-cases (answers received (request_of t))) [
      | inl a ↦
          let same : process_response t received now ≡ t' = ground arith in
          subst (λ k. Recorded q (result_of k)) same (response-Recorded q t received now m a v)
      | inr a ↦ absurd (ground arith)
    ]

receive-Recorded :
    (q : DpaMessage) (t : Transaction) (received : DpaMessage) (now : ℕ) {t' : Transaction}
    → Recorded q (result_of t)
    → process_received_message t received now ≡ ok t'
    → Recorded q (result_of t')
unfolding process_received_message
receive-Recorded q t received now {t'} v e = elim (Bool-cases t.m_finish) [
  | inl f ↦ let same : t ≡ t' = ground arith in subst (λ k. Recorded q (result_of k)) same v
  | inr f ↦
      dispatch-Recorded q (message_direction received) t received now refl v
        (else_taken t.m_finish _ _ f e)
]

-- In every state that a transaction reaches from one without a response, by any order of the threads'
-- steps: the request is still the one that it was made for, and a recorded response is a copy of a
-- message that is a response to it, with its code.
pub Reach-Recorded :
    {t : Transaction} {s : System}
    → t.m_dpa_transaction_result.m_is_responded ≡ false
    → Reach t s
    → Recorded (request_of t) s.transaction.m_dpa_transaction_result
unfolding abort
Reach-Recorded f new = record { request = refl; answered = λ h. cc (f, h) }
Reach-Recorded {t} f (later {s} r (begins fuel error threw t' b e u)) =
    subst (λ k. Recorded (request_of t) (result_of k.transaction)) (sym u)
      (begin-Recorded fuel _ threw s.transaction error (Reach-Recorded f r) e)
Reach-Recorded {t} f (later {s} r (wakes fuel expired t' b e u)) =
    subst (λ k. Recorded (request_of t) (result_of k.transaction)) (sym u)
      (cycles-Recorded fuel _ s.transaction expired (Reach-Recorded f r) e)
Reach-Recorded {t} f (later {s} r (receives received now t' e u)) =
    subst (λ k. Recorded (request_of t) (result_of k.transaction)) (sym u)
      (receive-Recorded _ s.transaction received now (Reach-Recorded f r) e)
Reach-Recorded {t} f (later {s} r (aborts u)) =
    subst (λ k. Recorded (request_of t) (result_of k.transaction)) (sym u) (Reach-Recorded f r)
