-- ===== src/Handler/Forms.antt =====
-- What the operations of the handler make of it, written out.
use clibdpa.Base.{
  ℕ, ◌≡◌, ◌⊎◌, inl, inr, Bool, false, List, some, get_elem?, set, arith, Option-cases,
}
use clibdpa.Base.Int.{ℤ}
use clibdpa.TaskQueue.{TaskQueue, size, stop_queue}
use clibdpa.Transaction.Types.{Transaction}
use clibdpa.Transaction.Execute.{abort, begin, start, cycles}
use clibdpa.Transaction.Steps.{sender}
use clibdpa.Handler.Types.{Handler}
use clibdpa.Handler.Submit.{
  send_request, enforced_error, take_pending, begin_transaction, process_transaction,
  resume_transaction, shut_down,
}

-- To the transaction, the handler's functor is a sender that does not throw.
begin-sender :
    {W : Type 0} (send_to : List ℕ → W → W × Bool) (fuel : ℕ) (t : Transaction) (error : ℤ) (w : W)
    {t' : Transaction} {v : W}
    → begin (send_request send_to) fuel t error w ≡ some (t', v)
    → begin (sender false) fuel t error tt ≡ some (t', tt)
unfolding begin start send_request
begin-sender send_to fuel t error w e = ground arith

module _ {H : Type 0} where
  pub begin-form :
      {W : Type 0} (send_to : List ℕ → W → W × Bool) (fuel : ℕ) (h : Handler H) (ptr : ℕ)
      (error : ℤ) (w : W) {h' : Handler H} {v : W}
      → begin_transaction send_to fuel h ptr error w ≡ some (h', v)
      → (t t' : Transaction) × (get_elem? h.store ptr ≡ some t)
        × (begin (send_request send_to) fuel t error w ≡ some (t', v))
        × (begin (sender false) fuel t error tt ≡ some (t', tt))
        × (h' ≡ record h { store = set h.store ptr t' })
  unfolding begin_transaction
  begin-form send_to fuel h ptr error w e = elim (Option-cases (get_elem? h.store ptr)) [
    | inl n ↦ absurd (ground (arith, n))
    | inr (t, g) ↦ elim (Option-cases (begin (send_request send_to) fuel t error w)) [
      | inl n ↦ absurd (ground (arith, n, g))
      | inr ((t', v'), b) ↦ (
        t,
        t',
        g,
        ground (arith, b, g),
        begin-sender send_to fuel t error w b,
        ground (arith, b, g),
      )
    ]
  ]

  -- The three steps of the processing function, if nothing comes in between.
  pub process-form :
      {W : Type 0} (send_to : List ℕ → W → W × Bool) (fuel : ℕ) (h : Handler H) (ptr : ℕ) (w : W)
      {h' : Handler H} {v : W}
      → process_transaction send_to fuel h ptr w ≡ some (h', v)
      → (t : Transaction) × (get_elem? h.store ptr ≡ some t)
        × (begin_transaction send_to fuel
              (take_pending h ptr)
              ptr
              (enforced_error (size h.m_dpa_transaction_queue) t)
              w
            ≡ some (h', v))
  unfolding process_transaction
  process-form send_to fuel h ptr w e = elim (Option-cases (get_elem? h.store ptr)) [
    | inl n ↦ absurd (ground (arith, n))
    | inr (t, g) ↦ (t, g, ground (arith, g))
  ]

  pub resume-form :
      (fuel : ℕ) (h : Handler H) (ptr : ℕ) (expired : Bool) {h' : Handler H}
      → resume_transaction fuel h ptr expired ≡ some h'
      → (t t' : Transaction) × (get_elem? h.store ptr ≡ some t)
        × (cycles fuel t expired ≡ some t')
        × (h' ≡ record h { store = set h.store ptr t' })
  unfolding resume_transaction
  resume-form fuel h ptr expired e = elim (Option-cases (get_elem? h.store ptr)) [
    | inl n ↦ absurd (ground (arith, n))
    | inr (t, g) ↦ elim (Option-cases (cycles fuel t expired)) [
      | inl n ↦ absurd (ground (arith, n, g))
      | inr (t', c) ↦ (t, t', g, c, ground (arith, c, g))
    ]
  ]

  -- Only the queue has changed, or the pending transaction was aborted too.
  pub shut_down-form :
      (h : Handler H)
      → (q : TaskQueue ℕ) × ((shut_down h ≡ record h { m_dpa_transaction_queue = q })
          ⊎ ((ptr : ℕ) × (t : Transaction) × (get_elem? h.store ptr ≡ some t)
              × (shut_down h
                  ≡ record h { m_dpa_transaction_queue = q; store = set h.store ptr (abort t) })))
  unfolding shut_down
  shut_down-form h = elim (Option-cases h.m_pending_transaction) [
    | inl n ↦ (stop_queue h.m_dpa_transaction_queue, inl (ground arith))
    | inr (ptr, p) ↦ elim (Option-cases (get_elem? h.store ptr)) [
      | inl n ↦ (stop_queue h.m_dpa_transaction_queue, inl (ground (arith, p)))
      | inr (t, g) ↦ (stop_queue h.m_dpa_transaction_queue, inr (ptr, t, g, ground (arith, p)))
    ]
  ]
