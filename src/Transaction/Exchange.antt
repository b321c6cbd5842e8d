-- ===== src/Transaction/Exchange.antt =====
-- The exchanges of the protocol, from the request to the result.
use clibdpa.Base.{
  ℕ, ◌≤◌, ◌<◌, ◌≡◌, ◌⊎◌, inl, inr, refl, ap, ◌∙◌, Bool, true, false, if◌then◌else◌, arith, some, ok,
}
use clibdpa.Base.Int.{pos}
use clibdpa.Message.{DpaMessage}
use clibdpa.TransactionResult.{get_error_code, set_error_code, set_confirmation, set_response}
use clibdpa.Transaction.Types.{
  sent, sent_coordinator, received_response, processed, Transaction, request_of, to_coordinator,
}
use clibdpa.Transaction.Execute.{start, cycle, cycles, begin}
use clibdpa.Transaction.Receive.{
  process_received_message, process_confirmation, process_response, answers,
}
use clibdpa.Transaction.Matches.{
  IsResponseTo, IsConfirmationOf, response-IsResponseTo, confirmation-IsConfirmationOf,
}
use clibdpa.Transaction.Steps.{sender}
use clibdpa.Transaction.Honesty.{IsResponded, code_of}
use clibdpa.Message.{copy, response_code_field}
use clibdpa.TransactionResult.Codes.{responded_code}
use clibdpa.Transaction.Deliver.{receive_response, receive_confirmation, response-state}
use clibdpa.Transaction.Execute.{get}
use clibdpa.Transaction.Receive.{is_sent_coordinator}
use clibdpa.Transaction.Progress.{get_cases, cycles_once}

-- The result hands the response's code and the response itself to the user.
pub record Delivers (t : Transaction) (r : DpaMessage) : Type 0 where
  pub finished : t.m_finish ≡ true
  pub code : code_of t ≡ pos (response_code_field r)
  pub message : t.m_dpa_transaction_result.m_response ≡ copy r
  pub flagged : IsResponded t
  pub handed : (started : Bool) → get t started ≡ some t.m_dpa_transaction_result

cycle_ok :
    (u : Transaction) (expired : Bool)
    → (u.m_state ≡ processed) ⊎ ((u.m_state ≡ received_response) × (expired ≡ true))
    → ((cycle u expired).m_finish ≡ true)
      × ((cycle u expired).m_dpa_transaction_result
          ≡ set_error_code u.m_dpa_transaction_result (pos 0))
unfolding cycle
cycle_ok u expired h = ground arith

process_response-result :
    (t : Transaction) (r : DpaMessage) (now : ℕ)
    → (process_response t r now).m_dpa_transaction_result
      ≡ set_response t.m_dpa_transaction_result r now
unfolding process_response
process_response-result t r now = refl

process_response-finish :
    (t : Transaction) (r : DpaMessage) (now : ℕ) → (process_response t r now).m_finish ≡ t.m_finish
unfolding process_response
process_response-finish t r now = ground arith

-- What a result says after a response and the code 0.
delivered :
    (t u : Transaction) (r : DpaMessage) (now : ℕ)
    → 3 ≤ r.m_length
    → u.m_finish ≡ true
    → u.m_dpa_transaction_result
      ≡ set_error_code (set_response t.m_dpa_transaction_result r now) (pos 0)
    → Delivers u r
delivered t u r now l f e =
    let (c, m, g) = responded_code t.m_dpa_transaction_result r now l in
    record {
      finished = f;
      code = ap get_error_code e ∙ c;
      message = ap (λ k. k.m_response) e ∙ m;
      flagged = ap (λ k. k.m_is_responded) e ∙ g;
      handed = λ started. get_cases u started ∙ rw f refl;
    }

responded-Delivers :
    (t : Transaction) (r : DpaMessage) (now : ℕ) (expired : Bool)
    → 3 ≤ r.m_length
    → ((process_response t r now).m_state ≡ processed)
      ⊎ (((process_response t r now).m_state ≡ received_response) × (expired ≡ true))
    → let t' = process_response t r now in
      (cycles 1 t' expired ≡ some (cycle t' expired)) × Delivers (cycle t' expired) r
responded-Delivers t r now expired l s =
    let (f, e) = cycle_ok (process_response t r now) expired s in
    (
      cycles_once _ expired (inl f),
      delivered t _ r now l f
          (e ∙ ap (λ k. set_error_code k (pos 0)) (process_response-result t r now)),
    )

-- The transaction is sent and waits for an answer.
abbrev pub sent_for : Transaction → Transaction
sent_for t = (start (sender false) t (pos 0) tt).0

pub begin-sent_for :
    (t : Transaction)
    → 0 < t.m_expected_duration_ms
    → begin (sender false) 1 t (pos 0) tt ≡ some (sent_for t, tt)
unfolding begin start
begin-sent_for t h = ground arith

pub sent_for-state :
    (t : Transaction)
    → ((sent_for t).m_state ≡ (if to_coordinator (request_of t) then sent_coordinator else sent))
      × ((sent_for t).m_finish ≡ t.m_finish)
      × (request_of (sent_for t) ≡ request_of t)
      × ((sent_for t).m_infinit_timeout ≡ t.m_infinit_timeout)
      × ((sent_for t).m_expected_duration_ms ≡ t.m_expected_duration_ms)
unfolding start
sent_for-state t = (refl, refl, refl, refl, refl)

-- What follows once a request to the coordinator is sent.
pub sent_for-answered :
    (t : Transaction) (r : DpaMessage) (now : ℕ) (expired : Bool)
    → t.m_finish ≡ false
    → to_coordinator (request_of t) ≡ true
    → IsResponseTo (request_of t) r
    → let u = process_response (sent_for t) r now in
      (process_received_message (sent_for t) r now ≡ ok u)
      × (cycles 1 u expired ≡ some (cycle u expired))
      × Delivers (cycle u expired) r
sent_for-answered t r now expired f c b =
    let (d, a) = (response-IsResponseTo (request_of t) r).1 b in
    let (s, g, q, i, e) = sent_for-state t in
    let u = process_response (sent_for t) r now in
    let state : u.m_state ≡ processed = response-state (sent_for t) r now ∙ rw (s, c) refl in
    let (w, v) = responded-Delivers (sent_for t) r now expired b.long_enough (inl state) in
    (receive_response (sent_for t) r now (g ∙ f) d (ap (answers r) q ∙ a), w, v)

confirmed-fields :
    (t : Transaction) (c : DpaMessage) (now : ℕ)
    → let t' = process_confirmation t c now in
      (is_sent_coordinator t'.m_state ≡ false)
      × (t'.m_finish ≡ t.m_finish)
      × (request_of t' ≡ request_of t)
      × (t'.m_infinit_timeout ≡ t.m_infinit_timeout)
unfolding process_confirmation set_confirmation
confirmed-fields t c now = (ground arith, refl, refl, refl)

-- A notification leaves a transaction with a received response waiting.
cycle_waits :
    (u : Transaction)
    → u.m_state ≡ received_response
    → u.m_finish ≡ false
    → (cycle u false).m_finish ≡ false
unfolding cycle
cycle_waits u s f = ground arith

-- What follows once a request to a node with a finite timeout is sent: its confirmation, its response,
-- and the end of the wait.
pub sent_for-confirmed :
    (t : Transaction) (c r : DpaMessage) (now now' : ℕ)
    → t.m_finish ≡ false
    → t.m_infinit_timeout ≡ false
    → IsConfirmationOf (request_of t) c
    → IsResponseTo (request_of t) r
    → let t2 = process_confirmation (sent_for t) c now in
      let t3 = process_response t2 r now' in
      (process_received_message (sent_for t) c now ≡ ok t2)
      × (process_received_message t2 r now' ≡ ok t3)
      × (cycles 1 t3 true ≡ some (cycle t3 true))
      × ((cycle t3 false).m_finish ≡ false)
      × Delivers (cycle t3 true) r
sent_for-confirmed t c r now now' f i k b =
    let (cd, ca) = (confirmation-IsConfirmationOf (request_of t) c).1 k in
    let (d, a) = (response-IsResponseTo (request_of t) r).1 b in
    let (s, g, q, j, e) = sent_for-state t in
    let t2 = process_confirmation (sent_for t) c now in
    let (s2, g2, q2, j2) = confirmed-fields (sent_for t) c now in
    let t3 = process_response t2 r now' in
    let waits : t3.m_state ≡ received_response =
      response-state t2 r now' ∙ rw (s2, j2, j, i) refl in
    let (w, v) = responded-Delivers t2 r now' true b.long_enough (inr (waits, refl)) in
    (
      receive_confirmation (sent_for t) c now (g ∙ f) cd (ap (answers c) q ∙ ca),
      receive_response t2 r now' (g2 ∙ g ∙ f) d (ap (answers r) (q2 ∙ q) ∙ a),
      w,
      cycle_waits t3 waits (process_response-finish t2 r now' ∙ g2 ∙ g ∙ f),
      v,
    )
