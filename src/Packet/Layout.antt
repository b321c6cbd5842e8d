-- ===== src/Packet/Layout.antt =====
-- The layout that the C declarations of a packet stand for: packed structures, unions and arrays, as under
-- `#pragma pack( push, 1 )` of include/DPA.h, and the place of a member in an object.
use Prim.Native.Nat.{max}
use Prim.Native.String.{String}
use text.Mathlib.Text.{◌==◌ as str_eq}
use clibdpa.Base.{ℕ, ◌+◌, ◌*◌, List, [], ◌∷◌, Option, none, some, if◌then◌else◌, ltb}

-- `uns8` is uint8_t, and so on. A member list is that of a structure or a union.
mutual
  pub data CType : Type 0 where
    uns8 uns16 int8 int16 : CType
    array : CType → ℕ → CType
    struct union : Members → CType

  pub data Members : Type 0 where
    end : Members
    member : String → CType → Members → Members

infixr 67 ◌▸◌
abbrev pub ◌▸◌ : String × CType → Members → Members
(name, t) ▸ ms = member name t ms

-- `sizeof`, with no padding.
unfoldable mutual
  pub sizeof : CType → ℕ
  sizeof uns8 = 1
  sizeof int8 = 1
  sizeof uns16 = 2
  sizeof int16 = 2
  sizeof (array t n) = n * sizeof t
  sizeof (struct ms) = sum_sizes ms
  sizeof (union ms) = max_sizes ms

  pub sum_sizes : Members → ℕ
  sum_sizes end = 0
  sum_sizes (member name t ms) = sizeof t + sum_sizes ms

  pub max_sizes : Members → ℕ
  max_sizes end = 0
  max_sizes (member name t ms) = max (sizeof t) (max_sizes ms)

-- `.name` and `[i]`.
pub data Selector : Type 0 where
  dot : String → Selector
  at : ℕ → Selector

-- The offset and the type of a member of a structure that begins at an offset.
unfoldable pub in_struct : Members → String → ℕ → Option (ℕ × CType)
unfolding sizeof
in_struct end name o = none
in_struct (member n t ms) name o =
    if str_eq n name then some (o, t) else in_struct ms name (o + sizeof t)

unfoldable pub in_union : Members → String → Option (ℕ × CType)
in_union end name = none
in_union (member n t ms) name = if str_eq n name then some (0, t) else in_union ms name

-- One selection. An index behind the end of an array selects nothing: in C it is undefined.
unfoldable pub select : CType → Selector → Option (ℕ × CType)
unfolding in_struct in_union sizeof
select (struct ms) (dot name) = in_struct ms name 0
select (union ms) (dot name) = in_union ms name
select (array t n) (at i) = if ltb i n then some (i * sizeof t, t) else none
select _ _ = none

-- A place that lies so far behind another.
abbrev pub behind : ℕ → Option (ℕ × CType) → Option (ℕ × CType)
behind o none = none
behind o (some (k, t)) = some (o + k, t)

-- The offset and the type of what a chain of selections names.
unfoldable pub locate : CType → List Selector → Option (ℕ × CType)
unfolding select
locate t [] = some (0, t)
locate t (s ∷ p) = elim (select t s) [ none ↦ none | some (o, u) ↦ behind o (locate u p) ]
