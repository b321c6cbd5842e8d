-- ===== src/Tracer/CharTable.antt =====
-- The table of bytes and characters that TracerMemHexChar is to write.
use mathlib.Core.List.{append-nil, append_assoc}
use clibdpa.Base.{
  ℕ, zero, suc, ◌-◌, ◌≤◌, ◌<◌, ◌≡◌, inl, inr, refl, sym, ap, subst, ◌∙◌, true, false, List, [], ◌∷◌,
  ◌++◌, ◌==◌, map, length, replicate, length-append, arith, Bool-cases,
}
use clibdpa.Tracer.Dump.{byte_text}
use clibdpa.Tracer.CharDump.{char_of}

-- A row of the table: the cells of its bytes, and their characters, both padded to 16.
unfoldable pub cells : ℕ → List ℕ → List ℕ
cells separator [] = []
cells separator (b ∷ bs) = (byte_text b ++ separator ∷ []) ++ cells separator bs

-- So many blank cells of three spaces.
unfoldable pub blank_cells : ℕ → List ℕ
blank_cells zero = []
blank_cells (suc n) = b' ' ∷ b' ' ∷ b' ' ∷ blank_cells n

-- A row with so many blank cells.
unfoldable pub padded : ℕ → ℕ → List ℕ → List ℕ
padded separator k bs =
    cells separator bs ++ (blank_cells k ++ (b' ' ∷ b' ' ∷ (map char_of bs ++ replicate k b' ')))

unfoldable pub row : ℕ → List ℕ → List ℕ
row separator bs = padded separator (16 - length bs) bs

unfoldable pub table : ℕ → List (List ℕ) → List ℕ
table separator [] = []
table separator (r ∷ []) = row separator r
table separator (r ∷ s ∷ rs) = row separator r ++ 10 ∷ table separator (s ∷ rs)

-- Rows of 16 bytes, but for the last, which has 1 to 16.
unfoldable pub IsTable : List (List ℕ) → Type 0
IsTable [] = Unit
IsTable (r ∷ []) = (0 < length r) × (length r ≤ 16)
IsTable (r ∷ s ∷ rs) = (length r ≡ 16) × IsTable (s ∷ rs)

unfoldable pub concat : List (List ℕ) → List ℕ
concat [] = []
concat (r ∷ rs) = r ++ concat rs

pub cells-append :
    (separator : ℕ) (bs : List ℕ) (b : ℕ)
    → cells separator (bs ++ b ∷ []) ≡ cells separator bs ++ (byte_text b ++ separator ∷ [])
unfolding cells
cells-append separator [] b = append-nil (byte_text b ++ separator ∷ [])
cells-append separator (x ∷ bs) b =
    ap (◌++◌ (byte_text x ++ separator ∷ [])) (cells-append separator bs b)
    ∙ sym (
        append_assoc (byte_text x ++ separator ∷ []) (cells separator bs)
          (byte_text b ++ separator ∷ []))

-- The rows of a table, with the line so far and the bytes that are left.
unfoldable pub rows : List ℕ → List ℕ → List (List ℕ)
rows bs [] = bs ∷ []
rows bs (x ∷ []) = (bs ++ x ∷ []) ∷ []
rows bs (x ∷ y ∷ xs) = elim (length bs == 15) [
  | true ↦ (bs ++ x ∷ []) ∷ rows [] (y ∷ xs)
  | false ↦ rows (bs ++ x ∷ []) (y ∷ xs)
]

rows-cons :
    (bs : List ℕ) (x : ℕ) (xs : List ℕ)
    → (r : List ℕ) × (rs : List (List ℕ)) × (rows bs (x ∷ xs) ≡ r ∷ rs)
unfolding rows
rows-cons bs x [] = (bs ++ x ∷ [], [], refl)
rows-cons bs x (y ∷ xs) = elim (Bool-cases (length bs == 15)) [
  | inl e ↦ (bs ++ x ∷ [], rows [] (y ∷ xs), rw (e, rows) refl)
  | inr e ↦ let (r, rs, f) = rows-cons (bs ++ x ∷ []) y xs in (r, rs, rw (e, rows) f)
]

pub table-rows :
    (separator : ℕ) (q : List ℕ) (x : ℕ) (xs : List ℕ)
    → table separator (q ∷ rows [] (x ∷ xs))
      ≡ row separator q ++ 10 ∷ table separator (rows [] (x ∷ xs))
unfolding table row
table-rows separator q x xs = let (r, rs, e) = rows-cons [] x xs in rw e refl

IsTable-rows :
    (q : List ℕ) (x : ℕ) (xs : List ℕ)
    → length q ≡ 16
    → IsTable (rows [] (x ∷ xs))
    → IsTable (q ∷ rows [] (x ∷ xs))
unfolding IsTable
IsTable-rows q x xs l h =
    let (r, rs, e) = rows-cons [] x xs in
    subst (λ k. IsTable (q ∷ k)) (sym e) (l, subst IsTable e h)

pub rows-IsTable : (bs : List ℕ) (x : ℕ) (xs : List ℕ) → length bs < 16 → IsTable (rows bs (x ∷ xs))
unfolding rows IsTable
rows-IsTable bs x [] l = let e = length-append bs (x ∷ []) in (omega (arith, e), omega (arith, e))
rows-IsTable bs x (y ∷ xs) l =
    let e = length-append bs (x ∷ []) in
    elim (Bool-cases (length bs == 15)) [
      | inl d ↦
          rw (d, rows)
            (IsTable-rows (bs ++ x ∷ []) y xs (ground (arith, e))
              (rows-IsTable [] y xs (omega arith)))
      | inr d ↦ rw (d, rows) (rows-IsTable (bs ++ x ∷ []) y xs (ground (arith, e)))
    ]

pub rows-concat : (bs : List ℕ) (x : ℕ) (xs : List ℕ) → concat (rows bs (x ∷ xs)) ≡ bs ++ x ∷ xs
unfolding rows concat
rows-concat bs x [] = append-nil (bs ++ x ∷ [])
rows-concat bs x (y ∷ xs) = elim (Bool-cases (length bs == 15)) [
  | inl d ↦
      rw (d, rows)
        (ap (◌++◌ (bs ++ x ∷ [])) (rows-concat [] y xs) ∙ append_assoc bs (x ∷ []) (y ∷ xs))
  | inr d ↦ rw (d, rows) (rows-concat (bs ++ x ∷ []) y xs ∙ append_assoc bs (x ∷ []) (y ∷ xs))
]
