-- ===== src/Tracer/CharLines.antt =====
-- The text that comes of the streams of TracerMemHexChar.
use mathlib.Core.List.{append-nil, append_assoc, map-append}
use clibdpa.Base.{
  ℕ, suc, ◌+◌, ◌-◌, ◌%◌, ◌≤◌, ◌<◌, ◌≡◌, inl, inr, refl, sym, ap, subst, ◌∙◌, true, false, List, [],
  ◌∷◌, ◌++◌, some, ◌==◌, map, length, get_elem?, drop, replicate, if◌then◌else◌, length-append,
  length-replicate, arith, Bool-cases,
}
use clibdpa.Tracer.Dump.{byte_text}
use clibdpa.Tracer.Reading.{drop-cons}
use clibdpa.Tracer.CharDump.{
  Streams, no_streams, char_of, put_chars, put_byte, align, end_line, char_dump_from, mem_hex_char,
}
use clibdpa.Tracer.CharTable.{
  cells, blank_cells, padded, row, table, IsTable, concat, cells-append, rows, table-rows,
  rows-IsTable, rows-concat,
}
use clibdpa.Tracer.CharStreams.{Holds, put_char-Holds, put_bytes-Holds, align-Holds, whole}

length-map : (bs : List ℕ) → length (map char_of bs) ≡ length bs
length-map [] = refl
length-map (b ∷ bs) = ap suc (length-map bs)

module _ (separator : ℕ) where
  -- The streams within a line.
  abbrev Line : Streams → List ℕ → List ℕ → Type 0
  Line s text bs = Holds s (text ++ cells separator bs) (map char_of bs)

  put_byte-Line :
      (s : Streams) (text bs : List ℕ) (b : ℕ)
      → length bs < 16
      → Line s text bs
      → Line (put_byte s b separator) text (bs ++ b ∷ [])
  unfolding put_byte
  put_byte-Line s text bs b l h =
      let cell = byte_text b ++ separator ∷ [] in
      let more = put_bytes-Holds s _ _ cell h in
      let e : (text ++ cells separator bs) ++ cell ≡ text ++ cells separator (bs ++ b ∷ []) =
        append_assoc text (cells separator bs) cell
        ∙ ap (◌++◌ text) (sym (cells-append separator bs b)) in
      subst (λ k. Holds (put_byte s b separator) k (map char_of (bs ++ b ∷ []))) e
        (subst (Holds (put_byte s b separator) _) (sym (map-append char_of bs (b ∷ [])))
          (put_char-Holds _ _ _ (char_of b) (omega (arith, length-map bs)) more))

  full_row :
      (bs : List ℕ)
      → length bs ≡ 16
      → row separator bs ≡ cells separator bs ++ (b' ' ∷ b' ' ∷ map char_of bs)
  unfolding row padded blank_cells
  full_row bs l = rw l (rw (append-nil (map char_of bs)) refl)

  end_line-Line :
      (s : Streams) (text bs : List ℕ)
      → length bs ≡ 16
      → Line s text bs
      → Line (end_line s) (text ++ (row separator bs ++ 10 ∷ [])) []
  unfolding end_line cells
  end_line-Line s text bs l h =
      let (b, c) = whole s _ _ (length-map bs ∙ l) h in
      record {
        rest = s.m_oschar;
        bytes = rw (b, c, full_row bs l) (simp (append_assoc, append-nil));
        characters = refl;
        position = refl;
        left = inr (omega (arith, ap length c, length-map bs));
      }

  -- The text at the end of the last line.
  finished :
      (i : ℕ) (s : Streams) (text bs : List ℕ)
      → 0 < length bs
      → length bs ≤ 16
      → i % 16 ≡ length bs % 16
      → Line s text bs
      → (put_chars (align 16 i s)).m_osbyte ≡ text ++ row separator bs
  unfolding row padded
  finished i s text bs p l m h =
      let n = length-map bs in
      let k = 16 - length bs in
      let aligned =
        align-Holds k 16 i s _ _ (omega (arith, n)) (omega (arith, n)) (omega arith)
          (omega (arith, n)) h in
      let (b, c) =
        whole _ _ _
          (length-append (map char_of bs) (replicate k b' ')
            ∙ omega (arith, n, length-replicate {A = ℕ} k b' '))
          aligned in
      rw (b, c) (simp append_assoc)

  module _ (fuel : ℕ) (buf : List ℕ) (len i b : ℕ) (s : Streams)
      (g : get_elem? buf i ≡ some b) where
    last_cycle :
        (suc i == len) ≡ true
        → char_dump_from (suc fuel) buf len separator i s
          ≡ some (put_chars (align 16 (suc i) (put_byte s b separator))).m_osbyte
    unfolding char_dump_from
    last_cycle l = rw (g, char_dump_from) (rw l refl)

    other_cycle :
        (next : Streams)
        → (suc i == len) ≡ false
        → (if suc i % 16 == 0 then end_line (put_byte s b separator) else put_byte s b separator)
          ≡ next
        → char_dump_from (suc fuel) buf len separator i s
          ≡ char_dump_from fuel buf len separator (suc i) next
    unfolding char_dump_from
    other_cycle next l e =
        rw (g, char_dump_from) (rw l (ap (char_dump_from fuel buf len separator (suc i)) e))

  -- The loop from index i on, with the bytes that are left and the line so far.
  char_dump_from-table :
      (xs buf : List ℕ) (x len i : ℕ) (s : Streams) (text bs : List ℕ)
      → drop i buf ≡ x ∷ xs
      → len ≡ i + suc (length xs)
      → i % 16 ≡ length bs
      → Line s text bs
      → char_dump_from (suc (length xs)) buf len separator i s
        ≡ some (text ++ table separator (rows bs (x ∷ xs)))
  unfolding rows table
  char_dump_from-table [] buf x len i s text bs e l m h =
      let (g, d) = drop-cons i buf x [] e in
      let last : (suc i == len) ≡ true = ground arith in
      let long = length-append bs (x ∷ []) in
      let line = put_byte-Line s text bs x (omega arith) h in
      last_cycle 0 buf len i x s g last
      ∙ ap some (
          finished (suc i) _ text (bs ++ x ∷ []) (omega (arith, long)) (omega (arith, long))
            (omega (arith, long)) line)
  char_dump_from-table (y ∷ ys) buf x len i s text bs e l m h =
      let (g, d) = drop-cons i buf x (y ∷ ys) e in
      let more : (suc i == len) ≡ false = ground arith in
      let long = length-append bs (x ∷ []) in
      let q = bs ++ x ∷ [] in
      let line = put_byte-Line s text bs x (omega arith) h in
      elim (Bool-cases (length bs == 15)) [
        | inl c ↦
            let full : (suc i % 16 == 0) ≡ true = ground arith in
            let whole_line : length q ≡ 16 = ground (arith, long) in
            let rest =
              char_dump_from-table ys buf y len (suc i) _ (text ++ (row separator q ++ 10 ∷ [])) []
                d (omega arith) (ground arith) (end_line-Line _ text q whole_line line) in
            rw (c, rows)
              (other_cycle (suc (length ys)) buf len i x s g _ more (rw full refl)
                ∙ rest
                ∙ ap some (
                    append_assoc text (row separator q ++ 10 ∷ []) _
                    ∙ ap (◌++◌ text) (
                        append_assoc (row separator q) (10 ∷ []) _
                        ∙ sym (table-rows separator q y ys))))
        | inr c ↦
            let open_ : (suc i % 16 == 0) ≡ false = ground arith in
            let rest =
              char_dump_from-table ys buf y len (suc i) _ text q d (omega arith)
                (ground (arith, long)) line in
            rw (c, rows)
              (other_cycle (suc (length ys)) buf len i x s g _ more (rw open_ refl) ∙ rest)
      ]

-- The dump of a buffer of at least one byte, for every separator, ends within as many cycles as there are
-- bytes and reads nothing behind the buffer. Its text is a table of the bytes in order, in rows of 16,
-- the last with 1 to 16: a row has two digits and the separator for each byte, three blanks for each that
-- lacks to 16, two blanks, and 16 characters, which are those of its bytes, or a dot for a byte that is
-- no graphic character, and blanks; and a line break stands between two rows.
pub mem_hex_char-table :
    (x : ℕ) (xs : List ℕ) (separator : ℕ)
    → (rs : List (List ℕ)) × IsTable rs
      × (concat rs ≡ x ∷ xs)
      × (mem_hex_char (suc (length xs)) (x ∷ xs) (suc (length xs)) separator
          ≡ some (table separator rs))
unfolding mem_hex_char cells
mem_hex_char-table x xs separator = (
  rows [] (x ∷ xs),
  rows-IsTable [] x xs (omega arith),
  rows-concat [] x xs,
  char_dump_from-table separator xs (x ∷ xs) x (suc (length xs)) 0 no_streams [] [] refl
      (omega arith) refl new_line,
)
  where
    new_line : Line separator no_streams [] []
    new_line = record {
      rest = [];
      bytes = refl;
      characters = refl;
      position = refl;
      left = inl refl;
    }
