-- ===== src/Packet/Members.antt =====
-- Writing a member of a message's packet: what is read back, and what stays as it was.
use clibdpa.Base.{
  ℕ, suc, ◌+◌, ◌/◌, ◌%◌, ◌≤◌, ◌≡◌, inl, inr, refl, ap, ◌∙◌, true, List, [], ◌∷◌, some, All, length,
  get_or, set, length-set, get_or-set_self, get_or-set_ne, All-set, arith, Option-cases,
}
use Prim.Native.String.{String}
use clibdpa.Base.Bytes.{IsByte}
use clibdpa.Message.{
  DpaMessage, max_dpa_message_size, node_address, peripheral_type, peripheral_command,
  response_code_field,
}
use clibdpa.Message.Validity.{IsValid}
use clibdpa.Packet.Layout.{
  CType, uns8, uns16, int8, int16, array, struct, union, sizeof, Selector, dot, locate,
}
use clibdpa.Packet.Union.{dpa_packet}
use clibdpa.Packet.Access.{
  Width, byte, word, bytes_of, modulus, width, load, store, number_at, get_member, set_member, part,
}
use clibdpa.Packet.Places.{Apart, locate-within, part-Apart}

sizeof-width : (u : CType) (w : Width) → width u ≡ some w → sizeof u ≡ bytes_of w
unfolding sizeof
sizeof-width uns8 w e = ground arith
sizeof-width int8 w e = ground arith
sizeof-width uns16 w e = ground arith
sizeof-width int16 w e = ground arith
sizeof-width (array t n) w e = absurd (cc)
sizeof-width (struct ms) w e = absurd (cc)
sizeof-width (union ms) w e = absurd (cc)

-- A number member is a place of a type of that width.
number_at-locate :
    (t : CType) (p : List Selector) (o : ℕ) (w : Width)
    → number_at t p ≡ some (o, w)
    → (u : CType) × (locate t p ≡ some (o, u)) × (sizeof u ≡ bytes_of w)
unfolding number_at
number_at-locate t p o w e = elim (Option-cases (locate t p)) [
  | inl n ↦ absurd (ground (arith, n))
  | inr ((k, u), f) ↦ elim (Option-cases (width u)) [
    | inl n ↦ absurd (ground (arith, n, f))
    | inr (x, g) ↦ (u, ground arith, ground (arith, sizeof-width u x g))
  ]
]

-- Number members lie within the buffer.
number_at-within :
    (p : List Selector) (o : ℕ) (w : Width)
    → number_at dpa_packet p ≡ some (o, w)
    → o + bytes_of w ≤ max_dpa_message_size
unfolding sizeof dpa_packet
number_at-within p o w e =
    let (u, f, s) = number_at-locate dpa_packet p o w e in
    omega (arith, s, locate-within dpa_packet p o u f)

load-store :
    (w : Width) (buf : List ℕ) (o v : ℕ)
    → o + bytes_of w ≤ length buf
    → load w (store w buf o v) o ≡ v % modulus w
unfolding load store
load-store byte buf o v h = get_or-set_self buf o (v % 256) 0 (omega arith)
load-store word buf o v h =
    let low = set buf o (v % 256) in
    omega (
      arith,
      get_or-set_ne low (suc o) o (v / 256 % 256) 0 (λ e. omega arith),
      get_or-set_self buf o (v % 256) 0 (omega arith),
      get_or-set_self low (suc o) (v / 256 % 256) 0 (omega (arith, length-set buf o (v % 256))),
    )

length-store : (w : Width) (buf : List ℕ) (o v : ℕ) → length (store w buf o v) ≡ length buf
unfolding store
length-store byte buf o v = length-set buf o (v % 256)
length-store word buf o v = length-set _ (suc o) (v / 256 % 256) ∙ length-set buf o (v % 256)

store-bytes : (w : Width) (buf : List ℕ) (o v : ℕ) → All IsByte buf → All IsByte (store w buf o v)
unfolding store
store-bytes byte buf o v h = All-set IsByte buf o (v % 256) h (omega arith)
store-bytes word buf o v h =
    All-set IsByte _ (suc o) (v / 256 % 256) (All-set IsByte buf o (v % 256) h (omega arith))
      (omega arith)

get_or-store :
    (w : Width) (buf : List ℕ) (o v i : ℕ)
    → Apart o (bytes_of w) i 1
    → get_or (store w buf o v) i 0 ≡ get_or buf i 0
unfolding store
get_or-store byte buf o v i h = get_or-set_ne buf o i (v % 256) 0 (λ e. ground arith)
get_or-store word buf o v i h =
    get_or-set_ne _ (suc o) i (v / 256 % 256) 0 (λ e. ground arith)
    ∙ get_or-set_ne buf o i (v % 256) 0 (λ e. ground arith)

load-store-Apart :
    (w x : Width) (buf : List ℕ) (o v k : ℕ)
    → Apart o (bytes_of w) k (bytes_of x)
    → load x (store w buf o v) k ≡ load x buf k
unfolding load
load-store-Apart w byte buf o v k h = get_or-store w buf o v k (ground arith)
load-store-Apart w word buf o v k h =
    ground (
      arith,
      get_or-store w buf o v k (ground arith),
      get_or-store w buf o v (suc k) (ground arith),
    )

module _ (m : DpaMessage) (p : List Selector) (v : ℕ) where
  set_member-some :
      (o : ℕ) (w : Width)
      → number_at dpa_packet p ≡ some (o, w)
      → set_member m p v ≡ some (record m { buffer = store w m.buffer o v })
  unfolding set_member
  set_member-some o w e = rw (e, set_member) refl

  -- Every number member that the declarations name lies in the buffer: writing it succeeds, and gives a
  -- valid message of the same length, in which the member reads as the value that was written, modulo
  -- 256 or 65536 by its width.
  pub set_member-get_member :
      (o : ℕ) (w : Width)
      → IsValid m
      → number_at dpa_packet p ≡ some (o, w)
      → (m' : DpaMessage) × (set_member m p v ≡ some m')
        × (get_member m' p ≡ some (v % modulus w))
        × IsValid m'
        × (m'.m_length ≡ m.m_length)
  unfolding get_member
  set_member-get_member o w k e =
      let m' = record m { buffer = store w m.buffer o v } in
      let within = number_at-within p o w e in
      (
        m',
        set_member-some o w e,
        rw (e, get_member) (ap some (load-store w m.buffer o v (omega (arith, k.sized)))),
        record {
          sized = length-store w m.buffer o v ∙ k.sized;
          bytes = store-bytes w m.buffer o v k.bytes;
          fits = k.fits;
        },
        refl,
      )

  set_member-cases :
      (m' : DpaMessage)
      → set_member m p v ≡ some m'
      → (o : ℕ) × (w : Width) × (number_at dpa_packet p ≡ some (o, w))
        × (m' ≡ record m { buffer = store w m.buffer o v })
  unfolding set_member
  set_member-cases m' e = elim (Option-cases (number_at dpa_packet p)) [
    | inl n ↦ absurd (ground (arith, n))
    | inr ((o, w), f) ↦ (o, w, f, ground arith)
  ]

  get_member-store :
      (q : List Selector) (o : ℕ) (w : Width)
      → part dpa_packet p q ≡ true
      → number_at dpa_packet p ≡ some (o, w)
      → get_member (record m { buffer = store w m.buffer o v }) q ≡ get_member m q
  unfolding get_member
  get_member-store q o w d e = elim (Option-cases (number_at dpa_packet q)) [
    | inl n ↦ rw (n, get_member) refl
    | inr ((k, x), f) ↦
        let (t, l, s) = number_at-locate dpa_packet p o w e in
        let (y, l', s') = number_at-locate dpa_packet q k x f in
        let a = part-Apart dpa_packet p q o k t y d l l' in
        rw (f, get_member) (ap some (load-store-Apart w x m.buffer o v k (ground arith)))
  ]

  -- Writing a member changes no member that stands apart from it: every other member of its structure,
  -- or of a structure around it, and every other element of an array, reads as before.
  pub set_member-others :
      (q : List Selector) (m' : DpaMessage)
      → part dpa_packet p q ≡ true
      → set_member m p v ≡ some m'
      → get_member m' q ≡ get_member m q
  set_member-others q m' d e =
      let (o, w, f, g) = set_member-cases m' e in
      ap (λ k. get_member k q) g ∙ get_member-store q o w d f

-- The members of the header and the response code, as the code of DpaMessage names them.
abbrev pub in_request : String → List Selector
in_request name = dot "DpaRequestPacket_t" ∷ dot name ∷ []

abbrev pub in_response : String → List Selector
in_response name = dot "DpaResponsePacket_t" ∷ dot name ∷ []

-- The offsets at which the accessors of DpaMessage read are those that the declarations of the packet
-- give: for every message, NodeAddress(), PeripheralType() and PeripheralCommand() are the members NADR,
-- PNUM and PCMD of the request packet, which have the same places in the response packet, and the byte
-- that ResponseCode() and IsConfirmationMessage() test is the member ResponseCode.
pub get_member-accessors :
    (m : DpaMessage)
    → (get_member m (in_request "NADR") ≡ some (node_address m))
      × (get_member m (in_request "PNUM") ≡ some (peripheral_type m))
      × (get_member m (in_request "PCMD") ≡ some (peripheral_command m))
      × (get_member m (in_response "NADR") ≡ some (node_address m))
      × (get_member m (in_response "PNUM") ≡ some (peripheral_type m))
      × (get_member m (in_response "PCMD") ≡ some (peripheral_command m))
      × (get_member m (in_response "ResponseCode") ≡ some (response_code_field m))
unfolding get_member locate dpa_packet node_address peripheral_type peripheral_command
    response_code_field
get_member-accessors m = (refl, refl, refl, refl, refl, refl, refl)
