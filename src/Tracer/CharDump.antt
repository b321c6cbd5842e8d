-- ===== src/Tracer/CharDump.antt =====
-- class TracerMemHexChar (include/IqrfTraceHex.h): the dump of bytes in lines of 16, with their characters.
use clibdpa.Base.{
  ℕ, zero, suc, ◌%◌, Bool, ◌&&◌, List, [], ◌∷◌, ◌++◌, Option, none, some, ltb, ◌==◌, if◌then◌else◌,
  get_elem?, take, drop,
}
use clibdpa.Tracer.Dump.{byte_text}

-- m_osbyte, and m_oschar with its position for writing.
pub record Streams : Type 0 where
  pub m_osbyte : List ℕ
  pub m_oschar : List ℕ
  pub put_position : ℕ

abbrev pub no_streams : Streams
no_streams = record { m_osbyte = []; m_oschar = []; put_position = 0 }

-- `isgraph(bt)`, in the locale "C".
abbrev pub is_graph : ℕ → Bool
is_graph b = ltb 32 b && ltb b 127

-- `(isgraph(bt) ? (char)bt : '.')`
abbrev pub char_of : ℕ → ℕ
char_of b = if is_graph b then b else b'.'

-- `m_osbyte << text`
abbrev pub put_bytes : Streams → List ℕ → Streams
put_bytes s text = record s { m_osbyte = s.m_osbyte ++ text }

-- `m_oschar << c`: what stands at the position is overwritten.
unfoldable pub put_char : Streams → ℕ → Streams
put_char s c = record s {
  m_oschar = take s.put_position s.m_oschar ++ c ∷ drop (suc s.put_position) s.m_oschar;
  put_position = suc s.put_position;
}

-- What a cycle writes for a byte.
unfoldable pub put_byte : Streams → ℕ → ℕ → Streams
unfolding put_char byte_text
put_byte s b separator = put_char (put_bytes s (byte_text b ++ separator ∷ [])) (char_of b)

-- The loop that aligns the last line, from an index on. Of 16 indices in sequence one is divisible by 16.
unfoldable pub align : ℕ → ℕ → Streams → Streams
unfolding put_char
align zero i s = s
align (suc fuel) i s =
    let rest = align fuel (suc i) (put_char (put_bytes s (b' ' ∷ b' ' ∷ b' ' ∷ [])) b' ') in
    if i % 16 == 0 then s else rest

-- `m_osbyte << "  " << m_oschar.str()`
abbrev pub put_chars : Streams → Streams
put_chars s = put_bytes s (b' ' ∷ b' ' ∷ s.m_oschar)

-- The end of a line.
unfoldable pub end_line : Streams → Streams
end_line s = record s {
  m_osbyte = s.m_osbyte ++ (b' ' ∷ b' ' ∷ s.m_oschar) ++ 10 ∷ [];
  put_position = 0;
}

-- The loop of the constructor from index i on. `none` is a read behind the buffer, or a loop that outruns
-- the fuel.
unfoldable pub char_dump_from : ℕ → List ℕ → ℕ → ℕ → ℕ → Streams → Option (List ℕ)
unfolding put_byte align end_line
char_dump_from zero buf len separator i s = none
char_dump_from (suc fuel) buf len separator i s = elim (get_elem? buf i) [
  | none ↦ none
  | some b ↦
      let s' = put_byte s b separator in
      let next = if suc i % 16 == 0 then end_line s' else s' in
      let rest = char_dump_from fuel buf len separator (suc i) next in
      if suc i == len then some (put_chars (align 16 (suc i) s')).m_osbyte else rest
]

-- TracerMemHexChar(buf, len, separator)
unfoldable pub mem_hex_char : ℕ → List ℕ → ℕ → ℕ → Option (List ℕ)
unfolding char_dump_from
mem_hex_char fuel buf len separator = char_dump_from fuel buf len separator 0 no_streams
