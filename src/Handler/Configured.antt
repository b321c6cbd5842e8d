-- ===== src/Handler/Configured.antt =====
-- What users can change of the handler beside their requests: its settings and its handlers for messages.
use Prim.Native.String.{String}
use clibdpa.Base.{ℕ, ◌≡◌, refl, sym, subst, ◌∙◌, ok, arith, ltb, Bool-cases, inl, inr}
use clibdpa.Base.Int.{ℤ, pos, negsuc, ◌≤ℤ◌}
use clibdpa.Timing.{RfMode, TimingParams}
use clibdpa.Handler.Types.{Handler}
use clibdpa.Handler.Settings.{
  set_timeout, set_rf_communication_mode, set_timing_params, set_frc_response_time,
}
use clibdpa.Handler.Registry.{
  register_any_message_handler, unregister_any_message_handler, register_async_message_handler,
  unregister_async_message_handler,
}
use clibdpa.Handler.Defaults.{HasTimeout}

-- A call of a setter, with an int for a timeout, or of a function that registers or unregisters.
pub data Configured {H : Type 0} (h h' : Handler H) : Type 0 where
  sets_timeout : (ms : ℤ) → ms ≤ℤ pos 2147483647 → h' ≡ set_timeout h ms → Configured h h'
  sets_mode : (mode : RfMode) → h' ≡ set_rf_communication_mode h mode → Configured h h'
  sets_params : (params : TimingParams) → h' ≡ set_timing_params h params → Configured h h'
  sets_frc_time : (time : ℕ) → h' ≡ set_frc_response_time h time → Configured h h'
  registers_any :
      (service : String) (f : H)
      → register_any_message_handler h service f ≡ ok h'
      → Configured h h'
  unregisters_any :
      (service : String) → h' ≡ unregister_any_message_handler h service → Configured h h'
  registers_async :
      (service : String) (f : H) → h' ≡ register_async_message_handler h service f → Configured h h'
  unregisters_async :
      (service : String) → h' ≡ unregister_async_message_handler h service → Configured h h'

module _ {H : Type 0} where
  -- The transactions, their queue, the pending one and a proper default timeout stay.
  pub record Rest (h h' : Handler H) : Type 0 where
    pub store : h'.store ≡ h.store
    pub queue : h'.m_dpa_transaction_queue ≡ h.m_dpa_transaction_queue
    pub pending : h'.m_pending_transaction ≡ h.m_pending_transaction
    pub timed : HasTimeout h → HasTimeout h'

  timeout-HasTimeout :
      (h : Handler H) (ms : ℤ) → ms ≤ℤ pos 2147483647 → HasTimeout (set_timeout h ms)
  unfolding set_timeout
  timeout-HasTimeout h (pos n) b = elim (Bool-cases (ltb n 200)) [
    | inl c ↦ record {
      ms = 200;
      value = ground (arith, c);
      enough = omega arith;
      fits = omega arith;
    }
    | inr c ↦ record {
      ms = n;
      value = ground (arith, c);
      enough = ground arith;
      fits = omega (arith, b);
    }
  ]
  timeout-HasTimeout h (negsuc n) b = record {
    ms = 200;
    value = ground arith;
    enough = omega arith;
    fits = omega arith;
  }

  pub HasTimeout-same :
      (h h' : Handler H) → h'.m_default_timeout ≡ h.m_default_timeout → HasTimeout h → HasTimeout h'
  HasTimeout-same h h' e v = record {
    ms = v.ms;
    value = e ∙ v.value;
    enough = v.enough;
    fits = v.fits;
  }

  like :
      (h h' : Handler H)
      → h'.store ≡ h.store
      → h'.m_dpa_transaction_queue ≡ h.m_dpa_transaction_queue
      → h'.m_pending_transaction ≡ h.m_pending_transaction
      → h'.m_default_timeout ≡ h.m_default_timeout
      → Rest h h'
  like h h' s q p t = record { store = s; queue = q; pending = p; timed = HasTimeout-same h h' t }

  pub Configured-Rest : {h h' : Handler H} → Configured h h' → Rest h h'
  unfolding set_timeout set_rf_communication_mode set_timing_params set_frc_response_time
      register_any_message_handler unregister_any_message_handler register_async_message_handler
      unregister_async_message_handler
  Configured-Rest {h} {h'} (sets_timeout ms b e) =
      subst (Rest h) (sym e) record {
        store = refl;
        queue = refl;
        pending = refl;
        timed = λ _. timeout-HasTimeout h ms b;
      }
  Configured-Rest {h} {h'} (sets_mode mode e) =
      like h h' (ground arith) (ground arith) (ground arith) (ground arith)
  Configured-Rest {h} {h'} (sets_params params e) =
      like h h' (ground arith) (ground arith) (ground arith) (ground arith)
  Configured-Rest {h} {h'} (sets_frc_time time e) =
      like h h' (ground arith) (ground arith) (ground arith) (ground arith)
  Configured-Rest {h} {h'} (registers_any service f e) =
      like h h' (ground arith) (ground arith) (ground arith) (ground arith)
  Configured-Rest {h} {h'} (unregisters_any service e) =
      like h h' (ground arith) (ground arith) (ground arith) (ground arith)
  Configured-Rest {h} {h'} (registers_async service f e) =
      like h h' (ground arith) (ground arith) (ground arith) (ground arith)
  Configured-Rest {h} {h'} (unregisters_async service e) =
      like h h' (ground arith) (ground arith) (ground arith) (ground arith)
