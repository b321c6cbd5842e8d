-- ===== src/Packet/Places.antt =====
-- Where members lie: within the object, and apart from the other members.
use Prim.Native.String.{String}
use text.Mathlib.Text.{◌==◌ as str_eq}
use text.Mathlib.TextEquality.{eq_iff}
use clibdpa.Base.{
  ℕ, ◌+◌, ◌*◌, ◌≤◌, ◌<◌, ◌≡◌, ◌⊎◌, inl, inr, sym, ap, subst, true, false, List, [], ◌∷◌, some,
  arith, Bool-cases, Option-cases,
}
use clibdpa.Packet.Layout.{
  CType, Members, array, struct, union, end, member, sizeof, sum_sizes, max_sizes, Selector, dot,
  at, in_struct, in_union, select, locate,
}
use clibdpa.Packet.Access.{same, is_union, part}

-- Two byte ranges do not overlap.
abbrev pub Apart : ℕ → ℕ → ℕ → ℕ → Type 0
Apart a n b m = (a + n ≤ b) ⊎ (b + m ≤ a)

in_struct-within :
    (ms : Members) (name : String) (o a : ℕ) (t : CType)
    → in_struct ms name o ≡ some (a, t)
    → (o ≤ a) × (a + sizeof t ≤ o + sum_sizes ms)
unfolding in_struct sizeof
in_struct-within end name o a t e = absurd (cc e)
in_struct-within (member n u ms) name o a t e =
    ground (arith, in_struct-within ms name (o + sizeof u) a t)

in_union-within :
    (ms : Members) (name : String) (a : ℕ) (t : CType)
    → in_union ms name ≡ some (a, t)
    → a + sizeof t ≤ max_sizes ms
unfolding in_union sizeof
in_union-within end name a t e = absurd (cc e)
in_union-within (member n u ms) name a t e = ground (arith, in_union-within ms name a t)

fits : (i n s : ℕ) → i < n → i * s + s ≤ n * s
fits i n s h = grind arith

select-within :
    (t : CType) (s : Selector) (o : ℕ) (u : CType)
    → select t s ≡ some (o, u)
    → o + sizeof u ≤ sizeof t
unfolding select sizeof
select-within (struct ms) (dot name) o u e = omega (arith, in_struct-within ms name 0 o u e)
select-within (union ms) (dot name) o u e = in_union-within ms name o u e
select-within (array t n) (at i) o u e = ground (arith, fits i n (sizeof t))
select-within _ _ o u e = absurd (cc e)

-- A chain of selections goes on from what its first selection names.
locate-behind :
    (t y : CType) (s : Selector) (p : List Selector) (k o : ℕ) (u : CType)
    → select t s ≡ some (k, y)
    → locate t (s ∷ p) ≡ some (o, u)
    → (i : ℕ) × (locate y p ≡ some (i, u)) × (o ≡ k + i)
unfolding locate
locate-behind t y s p k o u f e = elim (Option-cases (locate y p)) [
  | inl n ↦ absurd (ground (arith, n))
  | inr ((i, z), g) ↦ (i, ground arith, ground arith)
]

locate-selects :
    (t : CType) (s : Selector) (p : List Selector) (o : ℕ) (u : CType)
    → locate t (s ∷ p) ≡ some (o, u)
    → (k : ℕ) × (y : CType) × (select t s ≡ some (k, y))
unfolding locate
locate-selects t s p o u e = elim (Option-cases (select t s)) [
  | inl n ↦ absurd (ground (arith, n))
  | inr ((k, y), f) ↦ (k, y, f)
]

-- What a chain of selections names lies within the object.
pub locate-within :
    (t : CType) (p : List Selector) (o : ℕ) (u : CType)
    → locate t p ≡ some (o, u)
    → o + sizeof u ≤ sizeof t
unfolding locate
locate-within t [] o u e = ground arith
locate-within t (s ∷ p) o u e =
    let (k, y, f) = locate-selects t s p o u e in
    let (i, g, h) = locate-behind t y s p k o u f e in
    omega (arith, select-within t s k y f, locate-within y p i u g)

in_struct-Apart :
    (ms : Members) (n r : String) (o a b : ℕ) (t x : CType)
    → str_eq n r ≡ false
    → in_struct ms n o ≡ some (a, t)
    → in_struct ms r o ≡ some (b, x)
    → Apart a (sizeof t) b (sizeof x)
unfolding in_struct
in_struct-Apart end n r o a b t x d e f = absurd (cc e)
in_struct-Apart (member m u ms) n r o a b t x d e f = ground (
  arith,
  eq_iff m n,
  eq_iff m r,
  eq_iff n r,
  in_struct-within ms n (o + sizeof u) a t,
  in_struct-within ms r (o + sizeof u) b x,
  in_struct-Apart ms n r (o + sizeof u) a b t x,
)

select-Apart :
    (t : CType) (s r : Selector) (a b : ℕ) (u x : CType)
    → same s r ≡ false
    → is_union t ≡ false
    → select t s ≡ some (a, u)
    → select t r ≡ some (b, x)
    → Apart a (sizeof u) b (sizeof x)
unfolding select
select-Apart (struct ms) (dot n) (dot r) a b u x d c e f = in_struct-Apart ms n r 0 a b u x d e f
select-Apart (array t n) (at i) (at j) a b u x d c e f =
    ground (arith, fits i j (sizeof t), fits j i (sizeof t))
select-Apart (union ms) s r a b u x d c e f = absurd (cc c)
select-Apart _ _ _ a b u x d c e f = absurd (cc)

same→eq : (s r : Selector) → same s r ≡ true → s ≡ r
same→eq (dot n) (dot r) h = ap dot ((eq_iff n r).0 h)
same→eq (at i) (at j) h = ground arith
same→eq (dot n) (at j) h = absurd (cc h)
same→eq (at i) (dot r) h = absurd (cc h)

-- Chains that part at a structure or an array name bytes that do not overlap.
pub part-Apart :
    (t : CType) (p q : List Selector) (a b : ℕ) (u x : CType)
    → part t p q ≡ true
    → locate t p ≡ some (a, u)
    → locate t q ≡ some (b, x)
    → Apart a (sizeof u) b (sizeof x)
unfolding part
part-Apart t [] q a b u x h e f = absurd (cc h)
part-Apart t (s ∷ p) [] a b u x h e f = absurd (cc h)
part-Apart t (s ∷ p) (r ∷ q) a b u x h e f =
    let (k, y, f1) = locate-selects t s p a u e in
    let (l, z, f2) = locate-selects t r q b x f in
    let (i, g1, h1) = locate-behind t y s p k a u f1 e in
    elim (Bool-cases (same s r)) [
      | inl d ↦
          let f' = subst (λ v. locate t (v ∷ q) ≡ some (b, x)) (sym (same→eq s r d)) f in
          let (j, g2, h2) = locate-behind t y s q k b x f1 f' in
          let deeper : part y p q ≡ true = ground arith in
          ground (arith, part-Apart y p q i j u x deeper g1 g2)
      | inr d ↦
          let (j, g2, h2) = locate-behind t z r q l b x f2 f in
          let no_union : is_union t ≡ false = ground arith in
          ground (
            arith,
            select-Apart t s r k l y z d no_union f1 f2,
            locate-within y p i u g1,
            locate-within z q j x g2,
          )
    ]
