-- ===== src/Tracer/SourceName.antt =====
-- `fname.find_last_of("/\\")` and `fname.substr(found + 1)` of tracerMessage().
use clibdpa.Base.{
  ℕ, suc, ◌≡◌, refl, Bool, true, false, ◌||◌, List, [], ◌∷◌, ◌++◌, Option, none, some, ◌==◌,
  if◌then◌else◌, drop, length, All,
}

abbrev pub is_separator : ℕ → Bool
is_separator c = c == b'/' || c == 92

-- The position of the last separator.
unfoldable pub find_last : List ℕ → Option ℕ
find_last [] = none
find_last (c ∷ cs) =
    let rest = find_last cs in
    elim rest [ some i ↦ some (suc i) | none ↦ if is_separator c then some 0 else none ]

-- The name of a source file without its path.
unfoldable pub without_path : List ℕ → List ℕ
without_path fname = elim (find_last fname) [ none ↦ fname | some i ↦ drop (suc i) fname ]

-- No separator in a name.
abbrev pub IsPlain : ℕ → Type 0
IsPlain c = is_separator c ≡ false

find_last-plain : (name : List ℕ) → All IsPlain name → find_last name ≡ none
unfolding find_last
find_last-plain [] h = refl
find_last-plain (c ∷ cs) h = rw (find_last-plain cs h.1, find_last) (rw h.0 refl)

find_last-append :
    (dir name : List ℕ) (s : ℕ)
    → is_separator s ≡ true
    → All IsPlain name
    → find_last (dir ++ s ∷ name) ≡ some (length dir)
unfolding find_last
find_last-append [] name s h p = rw (find_last-plain name p, find_last) (rw h refl)
find_last-append (c ∷ dir) name s h p = rw (find_last-append dir name s h p, find_last) refl

drop-append_suc : (dir name : List ℕ) (s : ℕ) → drop (suc (length dir)) (dir ++ s ∷ name) ≡ name
drop-append_suc [] name s = refl
drop-append_suc (c ∷ dir) name s = drop-append_suc dir name s

-- Of a path that ends in a separator, `/` or `\`, and a name without separators, the name is left.
pub without_path-append :
    (dir name : List ℕ) (s : ℕ)
    → is_separator s ≡ true
    → All IsPlain name
    → without_path (dir ++ s ∷ name) ≡ name
unfolding without_path
without_path-append dir name s h p =
    rw (find_last-append dir name s h p, without_path) (drop-append_suc dir name s)
