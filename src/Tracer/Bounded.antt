-- ===== src/Tracer/Bounded.antt =====
-- The size of the trace file.
use clibdpa.Base.{
  ℕ, zero, suc, ◌+◌, ◌≤◌, ◌≡◌, ◌⊎◌, inl, inr, refl, Bool, true, false, List, [], ◌∷◌, ◌++◌, Option,
  none, some, ◌==◌, if◌then◌else◌, length, length-append, arith, Bool-cases, ◌/◌, ◌%◌,
}
use clibdpa.Base.Int.{ℤ, pos, ltb_ℤ, ◌≤ℤ◌}
use clibdpa.ErrorCode.{codes}
use clibdpa.Tracer.File.{
  TrcLevel, IqrfTracer, new, decimal, file_header, reset_file, write, start, stop,
}

decimal-length_le : (fuel n : ℕ) → length (decimal fuel n) ≤ fuel
unfolding decimal
decimal-length_le zero n = omega arith
decimal-length_le (suc fuel) n = ground (
  arith,
  decimal-length_le fuel (n / 10),
  length-append (decimal fuel (n / 10)) ((b'0' + n % 10) ∷ []),
)

file_header-length_le : (n : ℕ) → length (file_header n) ≤ 30
unfolding file_header
file_header-length_le n =
    omega (arith, decimal-length_le 10 n, length-append (decimal 10 n) (codes " opened/reset\n"))

-- An open file is within the maximal size, or it was just opened and has its first line of at most 30
-- bytes.
abbrev pub Within : ℤ → Option (List ℕ) → Type 0
Within max_size none = Unit {0}
Within max_size (some content) = (pos (length content) ≤ℤ max_size) ⊎ (length content ≤ 30)

abbrev pub IsBounded : IqrfTracer → Type 0
IsBounded t = Within t.m_max_size t.m_ofstream

-- The calls of a tracer.
pub data Call : Type 0 where
  starts : List ℕ → TrcLevel → ℤ → Call
  writes : List ℕ → Call
  stops : Call

module _ (opens : List ℕ → Bool) where
  pub step : IqrfTracer → Call → IqrfTracer
  step t (starts fname level max_size) = start opens t fname level max_size
  step t (writes msg) = write opens t msg
  step t stops = stop t

  pub run : IqrfTracer → List Call → IqrfTracer
  run t [] = t
  run t (c ∷ cs) = run (step t c) cs

  opened-Within :
      (max_size : ℤ) (n : ℕ) (opened : Bool)
      → Within max_size (if opened then some (file_header n) else none)
  opened-Within max_size n true = inr (file_header-length_le n)
  opened-Within max_size n false = tt

  reset_file-IsBounded : (t : IqrfTracer) → IsBounded (reset_file opens t)
  unfolding reset_file
  reset_file-IsBounded t = opened-Within t.m_max_size t.count (opens t.m_fname)

  written-IsBounded :
      (t : IqrfTracer) (content : List ℕ) (too_large : Bool)
      → ltb_ℤ t.m_max_size (pos (length content)) ≡ too_large
      → let written = record t { m_ofstream = some content } in
        IsBounded (if too_large then reset_file opens written else written)
  written-IsBounded t content true e = reset_file-IsBounded (record t { m_ofstream = some content })
  written-IsBounded t content false e = inl (ground arith)

  branch-IsBounded :
      (t : IqrfTracer) (started to_console : Bool) (file : Option (List ℕ)) (msg : List ℕ)
      → t.m_ofstream ≡ file
      → IsBounded t
      → IsBounded (
          if started
          then (if to_console then record t { console = t.console ++ msg } else elim file [
            | none ↦ t
            | some content ↦
                let written = record t { m_ofstream = some (content ++ msg) } in
                if ltb_ℤ t.m_max_size (pos (length (content ++ msg)))
                then reset_file opens written
                else written
          ])
          else t)
  branch-IsBounded t false c file msg e v = v
  branch-IsBounded t true true file msg e v = v
  branch-IsBounded t true false none msg e v = v
  branch-IsBounded t true false (some content) msg e v = written-IsBounded t (content ++ msg) _ refl

  write-IsBounded : (t : IqrfTracer) (msg : List ℕ) → IsBounded t → IsBounded (write opens t msg)
  unfolding write
  write-IsBounded t msg v = branch-IsBounded t t.m_started t.m_cout t.m_ofstream msg refl v

  start-IsBounded :
      (t : IqrfTracer) (fname : List ℕ) (level : TrcLevel) (max_size : ℤ)
      → IsBounded (start opens t fname level max_size)
  unfolding start
  start-IsBounded t fname level max_size = elim (Bool-cases (length fname == 0)) [
    | inl e ↦ rw (e, start) tt
    | inr e ↦ rw (e, start) (opened-Within max_size t.count (opens fname))
  ]

  step-IsBounded : (t : IqrfTracer) (c : Call) → IsBounded t → IsBounded (step t c)
  unfolding step stop
  step-IsBounded t (starts fname level max_size) v = start-IsBounded t fname level max_size
  step-IsBounded t (writes msg) v = write-IsBounded t msg v
  step-IsBounded t stops v = tt

  IsBounded-run : (t : IqrfTracer) (cs : List Call) → IsBounded t → IsBounded (run t cs)
  unfolding run
  IsBounded-run t [] v = v
  IsBounded-run t (c ∷ cs) v = IsBounded-run (step t c) cs (step-IsBounded t c v)

  -- After any calls of a new tracer, whatever is written and whichever files can be opened: the
  -- open file is within the maximal size that it was started with, or it has at most 30 bytes, as
  -- its first line has.
  pub run-IsBounded : (cs : List Call) → IsBounded (run new cs)
  unfolding new
  run-IsBounded cs = IsBounded-run new cs tt
