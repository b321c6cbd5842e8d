-- ===== src/Transaction/Invariant.antt =====
-- What holds in every state that a transaction reaches, and what its error code therefore says.
use clibdpa.Base.{
  ℕ, ◌<◌, ◌≡◌, ◌≢◌, ◌⊎◌, inl, inr, sym, subst, ◌∙◌, refl, true, false, arith, Bool-cases, ok,
}
use clibdpa.Base.Int.{pos}
use clibdpa.Message.{DpaMessage}
use clibdpa.Transaction.Types.{created, Transaction}
use clibdpa.Transaction.Execute.{abort}
use clibdpa.Transaction.Receive.{process_received_message}
use clibdpa.Transaction.Steps.{
  Worker, before, waiting, returned, System, Step, begins, wakes, receives, aborts, Reach, new,
  later, after,
}
use clibdpa.Transaction.Honesty.{Honest, abort-Honest, cycles-Honest, begin-Honest, receive-Kept}
use clibdpa.Transaction.Sections.{cycles-paced}

-- What holds in every state of the threads. While execute() has not returned, the transaction is not
-- finished and its next wait has a positive time.
pub record Inv (s : System) : Type 0 where
  pub honest : Honest s.transaction
  pub open_until : s.worker ≢ returned → s.transaction.m_finish ≡ false
  pub over : s.worker ≡ returned → s.transaction.m_finish ≡ true
  pub paced : s.worker ≢ returned → 0 < s.transaction.m_expected_duration_ms

after-Inv :
    (t : Transaction)
    → Honest t
    → (t.m_finish ≡ true) ⊎ (0 < t.m_expected_duration_ms)
    → Inv (after t)
after-Inv t h p = ground arith

-- A finished transaction ignores what arrives.
pub receive_finished :
    (t : Transaction) (received : DpaMessage) (now : ℕ)
    → t.m_finish ≡ true
    → process_received_message t received now ≡ ok t
unfolding process_received_message
receive_finished t received now f = rw (f, process_received_message)

-- A finished transaction is one whose execute() has returned.
pub finished-returned : (s : System) → Inv s → s.transaction.m_finish ≡ true → s.worker ≡ returned
finished-returned s v f = worker_cases s.worker (λ n. cc (f, v.open_until n))
  where
    worker_cases : (w : Worker) → (w ≢ returned → ⊥) → w ≡ returned
    worker_cases before n = absurd (n (λ e. cc e))
    worker_cases waiting n = absurd (n (λ e. cc e))
    worker_cases returned n = refl

not_over : (s : System) → Inv s → s.transaction.m_finish ≡ false → s.worker ≢ returned
not_over s v f = λ r. cc (f, v.over r)

receive-Inv :
    (s : System) (received : DpaMessage) (now : ℕ) (t : Transaction)
    → Inv s
    → process_received_message s.transaction received now ≡ ok t
    → Inv (record s { transaction = t })
receive-Inv s received now t v e = elim (Bool-cases s.transaction.m_finish) [
  | inl f ↦ ground (arith, receive_finished s.transaction received now f)
  | inr f ↦
      let open_s = not_over s v f in
      let (h, (p, k)) = receive-Kept s.transaction received now v.honest f (v.paced open_s) e in
      record { honest = h; open_until = λ _. k ∙ f; over = λ r. absurd (open_s r); paced = λ _. p }
]

abort-Inv : (s : System) → Inv s → Inv (record s { transaction = abort s.transaction })
abort-Inv s v = record {
  honest = abort-Honest s.transaction v.honest;
  open_until = λ r. unfold abort in v.open_until r;
  over = λ r. unfold abort in v.over r;
  paced = λ r. unfold abort in v.paced r;
}

pub Step-Inv : {s u : System} → Step s u → Inv s → Inv u
Step-Inv {s} (begins fuel error threw t b e q) v =
    let (h, p) =
      begin-Honest fuel threw s.transaction error v.honest (v.open_until (λ r. cc (b, r))) e in
    subst Inv (sym q) (after-Inv t h p)
Step-Inv {s} (wakes fuel expired t b e q) v = subst Inv (sym q) (
    after-Inv t
      (cycles-Honest fuel s.transaction expired v.honest (v.open_until (λ r. cc (b, r))) e)
      (cycles-paced fuel s.transaction expired e))
Step-Inv {s} (receives received now t e q) v = subst Inv (sym q) (receive-Inv s received now t v e)
Step-Inv {s} (aborts q) v = subst Inv (sym q) (abort-Inv s v)

-- A transaction as its constructor makes it.
pub record IsNew (t : Transaction) : Type 0 where
  pub fresh : t.m_state ≡ created
  pub unfinished : t.m_finish ≡ false
  pub no_response : t.m_dpa_transaction_result.m_response_code ≡ pos 0
  pub unanswered : t.m_dpa_transaction_result.m_is_responded ≡ false
  pub paced : 0 < t.m_expected_duration_ms

new-Inv : (t : Transaction) → IsNew t → Inv (record { transaction = t; worker = before })
new-Inv t n = ground arith

-- In every state that a new transaction reaches, by any order of the threads' steps, the invariant
-- holds.
pub Reach-Inv : {t : Transaction} {s : System} → IsNew t → Reach t s → Inv s
Reach-Inv {t} n new = new-Inv t n
Reach-Inv n (later r st) = Step-Inv st (Reach-Inv n r)
