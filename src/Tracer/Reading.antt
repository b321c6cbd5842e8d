-- ===== src/Tracer/Reading.antt =====
-- A dump can be read back.
use clibdpa.Base.{
  ℕ, zero, suc, ◌+◌, ◌*◌, ◌/◌, ◌%◌, ◌≡◌, refl, ap, ◌∙◌, true, false, List, [], ◌∷◌, ◌++◌, none,
  some, All, ◌==◌, length, get_elem?, drop, arith,
}
use clibdpa.Base.Bytes.{IsByte}
use clibdpa.ErrorCode.{hex, hex_digit}
use clibdpa.ErrorCode.Roundtrip.{digit_value, digit_value-hex_digit}
use clibdpa.Tracer.Dump.{byte_text, dump_from, mem_hex}

-- Two digits for each byte, with one character between two bytes.
pub read_dump : List ℕ → List ℕ
read_dump (d ∷ e ∷ []) = (digit_value d * 16 + digit_value e) ∷ []
read_dump (d ∷ e ∷ s ∷ rest) = (digit_value d * 16 + digit_value e) ∷ read_dump rest
read_dump _ = []

byte_text-digits : (b : ℕ) → IsByte b → byte_text b ≡ hex_digit (b / 16) ∷ hex_digit (b % 16) ∷ []
unfolding byte_text hex
byte_text-digits b h = ground arith

-- The text of a dump.
text_of : ℕ → List ℕ → List ℕ
text_of separator [] = []
text_of separator (x ∷ []) = byte_text x
text_of separator (x ∷ y ∷ ys) = byte_text x ++ separator ∷ text_of separator (y ∷ ys)

pub drop-cons :
    (i : ℕ) (buf : List ℕ) (x : ℕ) (rest : List ℕ)
    → drop i buf ≡ x ∷ rest
    → (get_elem? buf i ≡ some x) × (drop (suc i) buf ≡ rest)
drop-cons zero [] x rest e = cc
drop-cons zero (y ∷ ys) x rest e = (cc e, cc e)
drop-cons (suc i) [] x rest e = cc
drop-cons (suc i) (y ∷ ys) x rest e = drop-cons i ys x rest e

dump_from-text_of :
    (xs buf : List ℕ) (x len separator i : ℕ)
    → drop i buf ≡ x ∷ xs
    → len ≡ i + suc (length xs)
    → dump_from (suc (length xs)) buf len separator i ≡ some (text_of separator (x ∷ xs))
unfolding dump_from text_of
dump_from-text_of [] buf x len separator i e l =
    let (g, d) = drop-cons i buf x [] e in
    let last : (suc i == len) ≡ true = ground arith in rw (g, dump_from) (rw last refl)
dump_from-text_of (y ∷ ys) buf x len separator i e l =
    let (g, d) = drop-cons i buf x (y ∷ ys) e in
    let more : (suc i == len) ≡ false = ground arith in
    let rest = dump_from-text_of ys buf y len separator (suc i) d (omega (arith, l)) in
    rw (g, dump_from) (rw more (rw (rest, dump_from) refl))

digits_value :
    (b : ℕ)
    → IsByte b
    → digit_value (hex_digit (b / 16)) * 16 + digit_value (hex_digit (b % 16)) ≡ b
digits_value b h = omega (
  arith,
  digit_value-hex_digit (b / 16) (omega arith),
  digit_value-hex_digit (b % 16) (omega arith),
)

read_dump-text_of :
    (separator : ℕ) (xs : List ℕ) → All IsByte xs → read_dump (text_of separator xs) ≡ xs
unfolding read_dump text_of
read_dump-text_of separator [] h = refl
read_dump-text_of separator (x ∷ []) h =
    rw (byte_text-digits x h.0, read_dump) (ap (λ k. k ∷ []) (digits_value x h.0))
read_dump-text_of separator (x ∷ y ∷ ys) h =
    rw (byte_text-digits x h.0, read_dump)
      (ap (λ k. k ∷ read_dump (text_of separator (y ∷ ys))) (digits_value x h.0)
        ∙ ap (◌∷◌ x) (read_dump-text_of separator (y ∷ ys) h.1))

-- The dump of a buffer of at least one byte ends within as many cycles as there are bytes, reads nothing
-- behind the buffer, and its text gives the bytes back, whatever the separator.
pub mem_hex-read_dump :
    (x : ℕ) (xs : List ℕ) (separator : ℕ)
    → All IsByte (x ∷ xs)
    → (text : List ℕ) × (mem_hex (suc (length xs)) (x ∷ xs) (suc (length xs)) separator ≡ some text)
      × (read_dump text ≡ x ∷ xs)
unfolding mem_hex
mem_hex-read_dump x xs separator h = (
  text_of separator (x ∷ xs),
  dump_from-text_of xs (x ∷ xs) x (suc (length xs)) separator 0 refl (omega arith),
  read_dump-text_of separator (x ∷ xs) h,
)

dump_from-runs_off :
    (fuel : ℕ) (buf : List ℕ) (separator i : ℕ) → dump_from fuel buf 0 separator i ≡ none
unfolding dump_from
dump_from-runs_off zero buf separator i = refl
dump_from-runs_off (suc fuel) buf separator i =
    ground (arith, dump_from-runs_off fuel buf separator (suc i))

-- With a length of 0 the loop never ends before it reads behind the buffer, however large the buffer
-- and the fuel are.
pub mem_hex-empty : (fuel : ℕ) (buf : List ℕ) (separator : ℕ) → mem_hex fuel buf 0 separator ≡ none
unfolding mem_hex
mem_hex-empty fuel buf separator = dump_from-runs_off fuel buf separator 0
