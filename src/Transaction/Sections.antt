-- ===== src/Transaction/Sections.antt =====
-- The ways through a section of execute(), from the start or from a wait to the next wait or the end.
use clibdpa.Base.{
  ℕ, zero, suc, ◌<◌, ◌≡◌, ◌⊎◌, inl, inr, subst, Bool, true, false, if◌then◌else◌, ltb, arith,
  Option, none, some,
}
use clibdpa.Base.Int.{ℤ}
use clibdpa.Transaction.Types.{Transaction}
use clibdpa.Transaction.Execute.{start, cycle, cycles, begin}
use clibdpa.Transaction.Steps.{sender}

-- The two ways on from one cycle, and from the start.
chosen :
    (c : Transaction) (rest : Option Transaction) {t' : Transaction}
    → (if c.m_finish then some c else if ltb 0 c.m_expected_duration_ms then some c else rest)
      ≡ some t'
    → ((c ≡ t') × ((c.m_finish ≡ true) ⊎ (0 < c.m_expected_duration_ms)))
      ⊎ ((c.m_finish ≡ false) × (rest ≡ some t'))
chosen c rest h = ground arith

pub cycles-cases :
    (fuel : ℕ) (t : Transaction) (expired : Bool) {t' : Transaction}
    → cycles (suc fuel) t expired ≡ some t'
    → ((cycle t expired ≡ t')
        × (((cycle t expired).m_finish ≡ true) ⊎ (0 < (cycle t expired).m_expected_duration_ms)))
      ⊎ (((cycle t expired).m_finish ≡ false) × (cycles fuel (cycle t expired) false ≡ some t'))
unfolding cycles
cycles-cases fuel t expired h = chosen (cycle t expired) (cycles fuel (cycle t expired) false) h

-- When the cycles stop, the transaction is finished or waits for a positive time.
pub cycles-paced :
    (fuel : ℕ) (t : Transaction) (expired : Bool) {t' : Transaction}
    → cycles fuel t expired ≡ some t'
    → (t'.m_finish ≡ true) ⊎ (0 < t'.m_expected_duration_ms)
unfolding cycles
cycles-paced zero t expired e = cc
cycles-paced (suc fuel) t expired e = elim (cycles-cases fuel t expired e) [
  | inl (c, p) ↦ subst (λ k. (k.m_finish ≡ true) ⊎ (0 < k.m_expected_duration_ms)) c p
  | inr (_, c) ↦ cycles-paced fuel (cycle t expired) false c
]

abbrev pub with_unit : Transaction → Transaction × Unit {0}
with_unit t = (t, tt)

begun :
    (s : Transaction) (o : Option Transaction) {t' : Transaction}
    → (if ltb 0 s.m_expected_duration_ms
        then some (with_unit s)
        else elim o [ none ↦ none | some t ↦ some (with_unit t) ])
      ≡ some (with_unit t')
    → ((s ≡ t') × (0 < s.m_expected_duration_ms)) ⊎ (o ≡ some t')
begun s o h = ground arith

pub begin-cases :
    (fuel : ℕ) (threw : Bool) (t : Transaction) (error : ℤ) {t' : Transaction}
    → begin (sender threw) fuel t error tt ≡ some (t', tt)
    → let s = (start (sender threw) t error tt).0 in
      ((s ≡ t') × (0 < s.m_expected_duration_ms)) ⊎ (cycles fuel s false ≡ some t')
unfolding begin
begin-cases fuel threw t error h =
    let s = (start (sender threw) t error tt).0 in begun s (cycles fuel s false) h
