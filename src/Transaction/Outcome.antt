-- ===== src/Transaction/Outcome.antt =====
-- What the finished transaction tells its user: when it can report success or a timeout, and that the
-- report stays.
use clibdpa.Base.{ℕ, ◌<◌, ◌≡◌, ◌⊎◌, inl, inr, refl, false, arith}
use clibdpa.Base.Int.{ℤ, pos, negsuc, eqb_ℤ→eq, ◌≤ℤ◌}
use clibdpa.Message.{DpaMessage}
use clibdpa.Timing.{RfMode, TimingParams}
use clibdpa.TransactionResult.{
  DpaTransactionResult, get_error_code, set_error_code, set_confirmation, set_response,
}
use clibdpa.Transaction.Types.{Transaction, request_of}
use clibdpa.Transaction.Create.{create}
use clibdpa.Transaction.Execute.{abort}
use clibdpa.Transaction.Matches.{IsResponseTo}
use clibdpa.Transaction.Recorded.{Reach-Recorded}
use clibdpa.Message.{copy, response_code_field}
use clibdpa.Transaction.Steps.{returned, System, Step, begins, wakes, receives, aborts, Reach}
use clibdpa.Transaction.Honesty.{IsBroadcast, code_of}
use clibdpa.Transaction.Invariant.{Inv, IsNew, Reach-Inv, receive_finished}
use clibdpa.Transaction.Timeouts.{create_timeouts}
use clibdpa.TransactionResult

-- The constructor makes a new transaction, for a positive default timeout.
pub create-IsNew :
    (request : DpaMessage) (mode : RfMode) (params : TimingParams) (d : ℕ) (user error : ℤ)
    (ids now : ℕ)
    → 0 < d
    → d < 2147483648
    → user ≤ℤ pos 2147483647
    → IsNew (create request mode params (pos d) user error ids now)
create-IsNew request mode params d user error ids now h k l = record {
  fresh = unfold create in refl;
  unfinished = unfold create in refl;
  no_response = unfold create in unfold TransactionResult.new in refl;
  unanswered = unfold create in unfold TransactionResult.new in refl;
  paced = (create_timeouts request mode params d user error ids now h k l).2;
}

-- A response to the request with the response code 0 is recorded, as a copy of what arrived.
pub record Succeeded (q : DpaMessage) (t : Transaction) : Type 0 where
  pub received : DpaMessage
  pub responds : IsResponseTo q received
  pub code : response_code_field received ≡ 0
  pub stored : t.m_dpa_transaction_result.m_response ≡ copy received

get_error_code-response :
    (r : DpaTransactionResult) → get_error_code r ≡ pos 0 → r.m_response_code ≡ pos 0
unfolding get_error_code
get_error_code-response r h = ground (arith, eqb_ℤ→eq r.m_error_code (pos 0))

-- No false success: if execute() has returned and the user reads the code 0, then a response to the
-- request with the response code 0 arrived and is recorded, or the request was a broadcast and its
-- confirmation was recorded.
pub success_needs_answer :
    {t : Transaction} {s : System}
    → IsNew t
    → Reach t s
    → s.worker ≡ returned
    → code_of s.transaction ≡ pos 0
    → Succeeded (request_of t) s.transaction ⊎ IsBroadcast s.transaction
success_needs_answer {t} {s} n r w c =
    let v = Reach-Inv n r in
    elim (v.honest.success (v.over w) c) [
      | inl h ↦
          let a = (Reach-Recorded n.unanswered r).answered h in
          inl record {
            received = a.received;
            responds = a.responds;
            code = ground (arith, a.code, get_error_code-response _ c);
            stored = a.stored;
          }
      | inr b ↦ inr b
    ]

-- No false timeout: if execute() has returned and the user reads the timeout code, then the timeout was
-- finite, or that code was the one that the transaction was told to fail with.
pub timeout_needs_finite :
    {t : Transaction} {s : System}
    → IsNew t
    → Reach t s
    → s.worker ≡ returned
    → code_of s.transaction ≡ negsuc 0
    → (s.transaction.m_infinit_timeout ≡ false) ⊎ (s.transaction.m_default_error ≡ negsuc 0)
timeout_needs_finite {s} n r w c = let v = Reach-Inv n r in v.honest.timed_out (v.over w) c

-- The result is final: once execute() has returned, no step of any thread changes the result, and
-- execute() stays returned.
pub Step-result_final :
    {s u : System}
    → Step s u
    → Inv s
    → s.worker ≡ returned
    → (u.transaction.m_dpa_transaction_result ≡ s.transaction.m_dpa_transaction_result)
      × (u.worker ≡ returned)
unfolding abort
Step-result_final (begins fuel error threw t b e q) v w = absurd (cc (b, w))
Step-result_final (wakes fuel expired t b e q) v w = absurd (cc (b, w))
Step-result_final {s} (receives received now t e q) v w =
    ground (arith, receive_finished s.transaction received now (v.over w))
Step-result_final (aborts q) v w = ground arith
