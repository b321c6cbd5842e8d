-- ===== src/Packet/Access.antt =====
-- Reading and writing the number members of a message through DpaPacket(). The bytes of a 16-bit number
-- are in little-endian order, as on the program's targets, and a signed number is read as its bit
-- pattern.
use clibdpa.Base.{
  ℕ, suc, ◌+◌, ◌*◌, ◌/◌, ◌%◌, Bool, true, false, List, ◌∷◌, Option, none, some, get_or, set,
  if◌then◌else◌, ◌==◌,
}
use text.Mathlib.Text.{◌==◌ as str_eq}
use clibdpa.Message.{DpaMessage}
use clibdpa.Packet.Layout.{
  CType, uns8, uns16, int8, int16, array, struct, union, Selector, dot, at, select, locate,
}
use clibdpa.Packet.Union.{dpa_packet}

-- The numbers that members are: of one byte or of two.
pub data Width : Type 0 where
  byte word : Width

abbrev pub bytes_of : Width → ℕ
bytes_of byte = 1
bytes_of word = 2

abbrev pub modulus : Width → ℕ
modulus byte = 256
modulus word = 65536

abbrev pub width : CType → Option Width
width uns8 = some byte
width int8 = some byte
width uns16 = some word
width int16 = some word
width (array t n) = none
width (struct ms) = none
width (union ms) = none

unfoldable pub load : Width → List ℕ → ℕ → ℕ
load byte buf o = get_or buf o 0
load word buf o = get_or buf o 0 + 256 * get_or buf (suc o) 0

unfoldable pub store : Width → List ℕ → ℕ → ℕ → List ℕ
store byte buf o v = set buf o (v % 256)
store word buf o v = set (set buf o (v % 256)) (suc o) (v / 256 % 256)

-- The place of a number member of an object.
unfoldable pub number_at : CType → List Selector → Option (ℕ × Width)
number_at t p = elim (locate t p) [
  | none ↦ none
  | some (o, u) ↦ elim (width u) [ none ↦ none | some w ↦ some (o, w) ]
]

-- `DpaPacket().a.b` as a value, and `DpaPacket().a.b = v`.
unfoldable pub get_member : DpaMessage → List Selector → Option ℕ
unfolding number_at load
get_member m p = elim (number_at dpa_packet p) [
  | none ↦ none
  | some (o, w) ↦ some (load w m.buffer o)
]

unfoldable pub set_member : DpaMessage → List Selector → ℕ → Option DpaMessage
unfolding number_at store
set_member m p v = elim (number_at dpa_packet p) [
  | none ↦ none
  | some (o, w) ↦ some (record m { buffer = store w m.buffer o v })
]

-- Two selections are written alike.
abbrev pub same : Selector → Selector → Bool
same (dot n) (dot k) = str_eq n k
same (at i) (at j) = i == j
same _ _ = false

-- Members of a union share their bytes; those of a structure and the elements of an array do not.
abbrev pub is_union : CType → Bool
is_union (union ms) = true
is_union _ = false

-- Two chains part at a structure or an array.
unfoldable pub part : CType → List Selector → List Selector → Bool
unfolding select
part t (s ∷ p) (r ∷ q) =
    if same s r
    then elim (select t s) [ none ↦ false | some (o, u) ↦ part u p q ]
    else (if is_union t then false else true)
part t _ _ = false
