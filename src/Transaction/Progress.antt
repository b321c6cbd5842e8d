-- ===== src/Transaction/Progress.antt =====
-- execute() and get() make progress: no section runs forever, and an expired wait ends a transaction
-- with a finite timeout.
use clibdpa.Base.{
  ◌<◌, ◌≡◌, ◌≢◌, ◌⊎◌, inl, inr, refl, ◌∙◌, Bool, true, false, if◌then◌else◌, ltb, arith, Bool-cases,
  Option, none, some,
}
use clibdpa.Base.Int.{ℤ}
use clibdpa.Transaction.Types.{Transaction}
use clibdpa.Transaction.Execute.{start, cycle, cycles, begin}
use clibdpa.Transaction.Steps.{waiting, returned, System, Step, wakes, Reach, after, sender}
use clibdpa.Transaction.Sections.{with_unit}
use clibdpa.Transaction.Invariant.{IsNew, Reach-Inv}
use clibdpa.Transaction.Execute.{get}

cycle-expected :
    (t : Transaction) (expired : Bool)
    → (cycle t expired).m_expected_duration_ms ≡ t.m_expected_duration_ms
unfolding cycle
cycle-expected t expired = ground arith

pub cycles_once :
    (t : Transaction) (expired : Bool)
    → ((cycle t expired).m_finish ≡ true) ⊎ (0 < t.m_expected_duration_ms)
    → cycles 1 t expired ≡ some (cycle t expired)
unfolding cycles
cycles_once t expired h = ground (arith, cycle-expected t expired)

refused_or_paced :
    (threw : Bool) (t : Transaction) (error : ℤ)
    → 0 < t.m_expected_duration_ms
    → let s = (start (sender threw) t error tt).0 in
      (0 < s.m_expected_duration_ms) ⊎ ((cycle s false).m_finish ≡ true)
unfolding start cycle
refused_or_paced threw t error h = ground arith

ends :
    (s : Transaction) (o : Option Transaction)
    → (0 < s.m_expected_duration_ms) ⊎ ((c : Transaction) × (o ≡ some c))
    → (t' : Transaction) × ((if ltb 0 s.m_expected_duration_ms
          then some (with_unit s)
          else elim o [ none ↦ none | some t ↦ some (with_unit t) ])
        ≡ some (with_unit t'))
ends s o (inl p) = (s, ground arith)
ends s o (inr (c, e)) = elim (Bool-cases (ltb 0 s.m_expected_duration_ms)) [
  | inl p ↦ (s, rw p)
  | inr p ↦ (c, rw (p, e))
]

begin_ends :
    (threw : Bool) (t : Transaction) (error : ℤ)
    → 0 < t.m_expected_duration_ms
    → (t' : Transaction) × (begin (sender threw) 1 t error tt ≡ some (t', tt))
unfolding begin
begin_ends threw t error h =
    let s = (start (sender threw) t error tt).0 in
    ends s (cycles 1 s false) (elim (refused_or_paced threw t error h) [
      | inl p ↦ inl p
      | inr f ↦ inr (cycle s false, cycles_once s false (inl f))
    ])

-- The worker never spins: in every reachable state in which execute() has not returned, a section of
-- it ends within one cycle, by finishing or in a wait; the section of its start, whatever error is
-- enforced and whether sending throws or not, and the section behind a wait, however the wait ended.
pub sections_end :
    {t : Transaction} {s : System} (threw expired : Bool) (error : ℤ)
    → IsNew t
    → Reach t s
    → s.worker ≢ returned
    → ((t' : Transaction) × (begin (sender threw) 1 s.transaction error tt ≡ some (t', tt)))
      × (cycles 1 s.transaction expired ≡ some (cycle s.transaction expired))
sections_end {t} {s} threw expired error n r w =
    let p = (Reach-Inv n r).paced w in
    (begin_ends threw s.transaction error p, cycles_once s.transaction expired (inr p))

-- Without an infinite timeout, a wait that ends by its time ends the transaction, in any state.
pub cycle_expired : (t : Transaction) → t.m_infinit_timeout ≡ false → (cycle t true).m_finish ≡ true
unfolding cycle
cycle_expired t h = ground arith

-- get() returns the result exactly when the transaction is finished, whether the timeout is infinite or
-- not and however its first wait ends; so it never sets the code for a busy interface.
pub get_cases :
    (t : Transaction) (started : Bool)
    → get t started ≡ (if t.m_finish then some t.m_dpa_transaction_result else none)
unfolding get
get_cases t started = ground arith

-- With a finite timeout, a wait of execute() that ends by its time ends the transaction, in every state
-- that it reaches: the section behind that wait runs one cycle, and behind it execute() has returned and
-- get() hands the result out.
pub expired_wait_finishes :
    {t : Transaction} {s : System}
    → IsNew t
    → Reach t s
    → s.worker ≡ waiting
    → s.transaction.m_infinit_timeout ≡ false
    → (t' : Transaction) × (cycles 1 s.transaction true ≡ some t')
      × Step s (after t')
      × ((after t').worker ≡ returned)
      × ((started : Bool) → get t' started ≡ some t'.m_dpa_transaction_result)
expired_wait_finishes {s} n r w i =
    let t' = cycle s.transaction true in
    let f = cycle_expired s.transaction i in
    let c = cycles_once s.transaction true (inl f) in
    (t', c, wakes 1 true t' w c refl, rw f refl, λ started. get_cases t' started ∙ rw f refl)
