-- ===== src/Tracer/Dump.antt =====
-- class TracerMemHex: the dump of `len` bytes of a buffer.
use clibdpa.Base.{
  ℕ, zero, suc, List, ◌∷◌, ◌++◌, Option, none, some, ltb, ◌==◌, if◌then◌else◌, length, get_elem?,
}
use clibdpa.ErrorCode.{hex}

-- `os << std::setw(2) << (short int)bt`, with std::hex and the fill '0'.
unfoldable pub byte_text : ℕ → List ℕ
unfolding hex
byte_text b = let digits = hex 2 b in if ltb (length digits) 2 then b'0' ∷ digits else digits

-- The loop of the constructor from index i on. `none` is a read behind the buffer, or a loop that outruns
-- the fuel.
unfoldable pub dump_from : ℕ → List ℕ → ℕ → ℕ → ℕ → Option (List ℕ)
unfolding byte_text
dump_from zero buf len separator i = none
dump_from (suc fuel) buf len separator i =
    let rest = dump_from fuel buf len separator (suc i) in
    elim (get_elem? buf i) [
      | none ↦ none
      | some b ↦
          if suc i == len
          then some (byte_text b)
          else elim rest [ none ↦ none | some text ↦ some (byte_text b ++ separator ∷ text) ]
    ]

-- TracerMemHex(buf, len, separator)
unfoldable pub mem_hex : ℕ → List ℕ → ℕ → ℕ → Option (List ℕ)
unfolding dump_from
mem_hex fuel buf len separator = dump_from fuel buf len separator 0
