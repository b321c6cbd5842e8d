-- ===== src/Handler/Defaults.antt =====
-- The default timeout of a handler, and what it gives to the transactions that are made.
use clibdpa.Base.{
  ℕ, ◌≤◌, ◌<◌, ◌≡◌, refl, [], ◌∷◌, ◌++◌, some, if◌then◌else◌, ◌==◌, get_elem?,
  get_elem?-append_last, arith, Bool-cases, inl, inr,
}
use clibdpa.Base.Int.{ℤ, pos, ◌≤ℤ◌}
use clibdpa.Message.{DpaMessage, get_length}
use clibdpa.Timing.{minimal_timeout}
use clibdpa.Transaction.Types.{Transaction}
use clibdpa.Transaction.Create.{create}
use clibdpa.Transaction.Invariant.{IsNew}
use clibdpa.Transaction.Outcome.{create-IsNew}
use clibdpa.Handler.Types.{Handler, init}
use clibdpa.Handler.Submit.{execute_dpa_transaction}

module _ {H : Type 0} where
  -- The default timeout is an int of at least 200 ms.
  pub record HasTimeout (h : Handler H) : Type 0 where
    pub ms : ℕ
    pub value : h.m_default_timeout ≡ pos ms
    pub enough : minimal_timeout ≤ ms
    pub fits : ms < 2147483648

  pub init-HasTimeout : HasTimeout init
  unfolding init
  init-HasTimeout = record { ms = 500; value = refl; enough = omega arith; fits = omega arith }

  pub create-IsNew_at :
      (h : Handler H) (request : DpaMessage) (timeout error : ℤ) (now : ℕ)
      → HasTimeout h
      → timeout ≤ℤ pos 2147483647
      → IsNew
          (create request h.m_rf_mode h.m_timing_params h.m_default_timeout timeout error h.ids now)
  create-IsNew_at h request timeout error now v b = rw v.value (
      create-IsNew request h.m_rf_mode h.m_timing_params v.ms timeout error h.ids now
        (omega (arith, v.enough)) v.fits b)

  -- Executing a transaction, for a handler with a proper default timeout and any int as the user's:
  -- the reference that is returned is that of a new transaction behind the earlier ones, which are
  -- untouched; exactly a request that is not empty is put at the end of the queue; and the default
  -- timeout stays proper.
  pub execute-IsNew :
      (h : Handler H) (request : DpaMessage) (timeout error : ℤ) (now : ℕ)
      → HasTimeout h
      → timeout ≤ℤ pos 2147483647
      → let (h', ptr) = execute_dpa_transaction h request timeout error now in
        (t : Transaction) × (h'.store ≡ h.store ++ t ∷ [])
        × (get_elem? h'.store ptr ≡ some t)
        × IsNew t
        × (h'.m_dpa_transaction_queue.m_task_queue ≡ (
            if get_length request == 0
            then h.m_dpa_transaction_queue.m_task_queue
            else h.m_dpa_transaction_queue.m_task_queue ++ ptr ∷ []))
        × HasTimeout h'
  unfolding execute_dpa_transaction
  execute-IsNew h request timeout error now v b = elim (Bool-cases (get_length request == 0)) [
    | inl e ↦
        rw (e, execute_dpa_transaction)
          (
            made,
            refl,
            get_elem?-append_last h.store made,
            made-IsNew,
            refl,
            record { ms = v.ms; value = v.value; enough = v.enough; fits = v.fits },
          )
    | inr e ↦
        rw (e, execute_dpa_transaction)
          (
            made,
            refl,
            get_elem?-append_last h.store made,
            made-IsNew,
            refl,
            record { ms = v.ms; value = v.value; enough = v.enough; fits = v.fits },
          )
  ]
    where
      made : Transaction
      made =
          create request h.m_rf_mode h.m_timing_params h.m_default_timeout timeout error h.ids now

      made-IsNew : IsNew made
      made-IsNew = create-IsNew_at h request timeout error now v b
