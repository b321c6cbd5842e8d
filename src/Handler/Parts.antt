-- ===== src/Handler/Parts.antt =====
-- What the operations of the handler make of the number of its transactions and of the pending one.
use clibdpa.Base.{ℕ, ◌≡◌, inl, inr, ap, ◌∙◌, Bool, List, some, length, length-set, arith}
use clibdpa.Base.Int.{ℤ}
use clibdpa.Handler.Types.{Handler}
use clibdpa.Handler.Submit.{begin_transaction, resume_transaction, shut_down}
use clibdpa.Handler.Pending.{OnlyPending}

module _ {H : Type 0} where
  -- The number of transactions that were made, and the pending one.
  pub begin-parts :
      {W : Type 0} (send_to : List ℕ → W → W × Bool) (fuel : ℕ) (h : Handler H) (ptr : ℕ)
      (error : ℤ) (w : W) (h' : Handler H) (v : W)
      → begin_transaction send_to fuel h ptr error w ≡ some (h', v)
      → (length h'.store ≡ length h.store) × (h'.m_pending_transaction ≡ h.m_pending_transaction)
  unfolding begin_transaction
  begin-parts send_to fuel h ptr error w h' v e = grind (arith, length-set)

  pub resume-parts :
      (fuel : ℕ) (h : Handler H) (ptr : ℕ) (expired : Bool) (h' : Handler H)
      → resume_transaction fuel h ptr expired ≡ some h'
      → (length h'.store ≡ length h.store) × (h'.m_pending_transaction ≡ h.m_pending_transaction)
  unfolding resume_transaction
  resume-parts fuel h ptr expired h' e = grind (arith, length-set)

  pub shut_down-parts :
      (h : Handler H)
      → (length (shut_down h).store ≡ length h.store)
        × ((shut_down h).m_pending_transaction ≡ h.m_pending_transaction)
  unfolding shut_down
  shut_down-parts h = grind (arith, length-set)

  pub only-parts :
      (h h' : Handler H)
      → OnlyPending h h'
      → (length h'.store ≡ length h.store) × (h'.m_pending_transaction ≡ h.m_pending_transaction)
  only-parts h h' (inl e) = (ap (λ k. length k.store) e, ap (λ k. k.m_pending_transaction) e)
  only-parts h h' (inr (ptr, _, t, _, _, _, _, _, e)) =
      (ap (λ k. length k.store) e ∙ length-set h.store ptr t, ap (λ k. k.m_pending_transaction) e)
