-- ===== src/Tracer/CharStreams.antt =====
-- What the two streams of TracerMemHexChar hold while it writes.
use mathlib.Core.List.{append-nil, append_assoc}
use clibdpa.Base.{
  ℕ, zero, suc, ◌+◌, ◌%◌, ◌<◌, ◌≡◌, ◌⊎◌, inl, inr, refl, sym, ap, subst, ◌∙◌, true, false, List, [],
  ◌∷◌, ◌++◌, ◌==◌, length, take, drop, replicate, length-append, arith,
}
use clibdpa.Tracer.CharDump.{Streams, put_bytes, put_char, align}
use clibdpa.Tracer.CharTable.{blank_cells}

-- The streams hold a text and the characters of the line so far, with what is left of the line before
-- behind them.
pub record Holds (s : Streams) (text chars : List ℕ) : Type 0 where
  pub rest : List ℕ
  pub bytes : s.m_osbyte ≡ text
  pub characters : s.m_oschar ≡ chars ++ rest
  pub position : s.put_position ≡ length chars
  pub left : (rest ≡ []) ⊎ (length chars + length rest ≡ 16)

take-length-append : (xs ys : List ℕ) → take (length xs) (xs ++ ys) ≡ xs
take-length-append [] ys = refl
take-length-append (x ∷ xs) ys = ap (◌∷◌ x) (take-length-append xs ys)

drop-length-append : (xs ys : List ℕ) → drop (suc (length xs)) (xs ++ ys) ≡ drop 1 ys
drop-length-append [] ys = refl
drop-length-append (x ∷ xs) ys = drop-length-append xs ys

next_rest :
    (chars rest : List ℕ)
    → length chars < 16
    → (rest ≡ []) ⊎ (length chars + length rest ≡ 16)
    → (c : ℕ) → (drop 1 rest ≡ []) ⊎ (length (chars ++ c ∷ []) + length (drop 1 rest) ≡ 16)
next_rest chars [] l h c = inl refl
next_rest chars (x ∷ []) l h c = inl refl
next_rest chars (x ∷ y ∷ ys) l (inl e) c = absurd (cc e)
next_rest chars (x ∷ y ∷ ys) l (inr e) c = inr (omega (arith, e, length-append chars (c ∷ [])))

pub put_char-Holds :
    (s : Streams) (text chars : List ℕ) (c : ℕ)
    → length chars < 16
    → Holds s text chars
    → Holds (put_char s c) text (chars ++ c ∷ [])
unfolding put_char
put_char-Holds s text chars c l h = record {
  rest = drop 1 h.rest;
  bytes = h.bytes;
  characters = rw (h.characters) (
      rw (h.position) (
        rw (take-length-append chars h.rest) (
          rw (drop-length-append chars h.rest)
            (sym (append_assoc chars (c ∷ []) (drop 1 h.rest))))));
  position = omega (arith, h.position, length-append chars (c ∷ []));
  left = next_rest chars h.rest l h.left c;
}

pub put_bytes-Holds :
    (s : Streams) (text chars more : List ℕ)
    → Holds s text chars
    → Holds (record s { m_osbyte = s.m_osbyte ++ more }) (text ++ more) chars
put_bytes-Holds s text chars more h = record {
  rest = h.rest;
  bytes = ap (λ k. k ++ more) h.bytes;
  characters = h.characters;
  position = h.position;
  left = h.left;
}

-- Alignment fills a line that is short of so many bytes.
pub align-Holds :
    (k fuel i : ℕ) (s : Streams) (text chars : List ℕ)
    → length chars + k ≡ 16
    → 0 < length chars
    → k < fuel
    → i % 16 ≡ length chars % 16
    → Holds s text chars
    → Holds (align fuel i s) (text ++ blank_cells k) (chars ++ replicate k b' ')
unfolding align blank_cells
align-Holds k zero i s text chars e p l m h = absurd (omega arith)
align-Holds zero (suc fuel) i s text chars e p l m h =
    let done : (i % 16 == 0) ≡ true = ground arith in
    rw done (rw (append-nil text) (rw (append-nil chars) h))
align-Holds (suc k) (suc fuel) i s text chars e p l m h =
    let more : (i % 16 == 0) ≡ false = ground arith in
    let chars' = chars ++ b' ' ∷ [] in
    let text' = text ++ b' ' ∷ b' ' ∷ b' ' ∷ [] in
    let s' = put_char (put_bytes s (b' ' ∷ b' ' ∷ b' ' ∷ [])) b' ' in
    let padded =
      put_char-Holds _ text' chars b' ' (omega arith)
        (put_bytes-Holds s text chars (b' ' ∷ b' ' ∷ b' ' ∷ []) h) in
    let long = length-append chars (b' ' ∷ []) in
    let rest =
      align-Holds k fuel (suc i) s' text' chars' (omega (arith, long)) (omega (arith, long))
        (omega arith) (omega (arith, long)) padded in
    rw more (
      subst (λ v. Holds (align fuel (suc i) s') v (chars ++ b' ' ∷ replicate k b' '))
        (append_assoc text (b' ' ∷ b' ' ∷ b' ' ∷ []) (blank_cells k))
        (subst (λ v. Holds (align fuel (suc i) s') (text' ++ blank_cells k) v)
          (append_assoc chars (b' ' ∷ []) (replicate k b' ')) rest))

-- The characters of a whole line.
pub whole :
    (s : Streams) (text chars : List ℕ)
    → length chars ≡ 16
    → Holds s text chars
    → (s.m_osbyte ≡ text) × (s.m_oschar ≡ chars)
whole s text chars l h =
    (h.bytes, h.characters ∙ ap (◌++◌ chars) (none_left h.rest h.left) ∙ append-nil chars)
  where
    none_left : (rest : List ℕ) → (rest ≡ []) ⊎ (length chars + length rest ≡ 16) → rest ≡ []
    none_left rest (inl e) = e
    none_left [] (inr e) = refl
    none_left (x ∷ xs) (inr e) = absurd (omega arith)
