-- ===== src/ErrorCode/Roundtrip.antt =====
-- The names of error codes can be read back: no two ints share one.
use clibdpa.Base.{
  ℕ, zero, suc, ◌+◌, ◌-◌, ◌*◌, ◌/◌, ◌%◌, ◌^◌, ◌<◌, ◌≡◌, refl, List, [], ◌∷◌, ◌++◌, ltb, ◌==◌,
  if◌then◌else◌, Bool, true, false, ◌&&◌, arith, Option, none, some, ap, ◌∙◌, get_or, drop,
  Bool-cases, inl, inr,
}
use native.Mathlib.Nat.{pow-suc}
use clibdpa.Base.Int.{ℤ, pos, negsuc, eqb_ℤ, eqb_ℤ→eq, to_u32, ◌≤ℤ◌}
use clibdpa.ErrorCode.{codes, hex_digit, hex, user_prefix, error_string}

-- The value of a hexadecimal numeral, the leading digits first.
abbrev pub digit_value : ℕ → ℕ
digit_value d = if ltb d 58 then d - 48 else d - 87

read_hex : ℕ → List ℕ → ℕ
read_hex acc [] = acc
read_hex acc (d ∷ ds) = read_hex (acc * 16 + digit_value d) ds

read_hex-append :
    (xs ys : List ℕ) (acc : ℕ) → read_hex acc (xs ++ ys) ≡ read_hex (read_hex acc xs) ys
unfolding read_hex
read_hex-append [] ys acc = refl
read_hex-append (x ∷ xs) ys acc = read_hex-append xs ys (acc * 16 + digit_value x)

pub digit_value-hex_digit : (d : ℕ) → d < 16 → digit_value (hex_digit d) ≡ d
digit_value-hex_digit d h = ground arith

read_hex-hex : (fuel n : ℕ) → n < 16 ^ fuel → read_hex 0 (hex fuel n) ≡ n
unfolding hex read_hex
read_hex-hex zero n h = omega arith
read_hex-hex (suc fuel) n h = ground (
  arith,
  pow-suc 16 fuel,
  read_hex-hex fuel (n / 16),
  read_hex-append (hex fuel (n / 16)) (hex_digit (n % 16) ∷ []) 0,
  digit_value-hex_digit n,
  digit_value-hex_digit (n % 16),
)

-- The int with a given 32-bit pattern.
abbrev from_u32 : ℕ → ℤ
from_u32 n = if ltb n 2147483648 then pos n else negsuc (4294967295 - n)

same_text : List ℕ → List ℕ → Bool
same_text [] [] = true
same_text (x ∷ xs) (y ∷ ys) = x == y && same_text xs ys
same_text _ _ = false

abbrev names : List (List ℕ × ℤ)
names =
    (codes "ERROR_IFACE_EXCLUSIVE_ACCESS", negsuc 7)
    ∷ (codes "BAD_RESPONSE", negsuc 6)
    ∷ (codes "BAD_REQUEST", negsuc 5)
    ∷ (codes "ERROR_IFACE_BUSY", negsuc 4)
    ∷ (codes "ERROR_IFACE", negsuc 3)
    ∷ (codes "ERROR_ABORTED", negsuc 2)
    ∷ (codes "ERROR_IFACE_QUEUE_FULL", negsuc 1)
    ∷ (codes "ERROR_TIMEOUT", negsuc 0)
    ∷ (codes "ok", pos 0)
    ∷ (codes "ERROR_FAIL", pos 1)
    ∷ (codes "ERROR_PCMD", pos 2)
    ∷ (codes "ERROR_PNUM", pos 3)
    ∷ (codes "ERROR_ADDR", pos 4)
    ∷ (codes "ERROR_DATA_LEN", pos 5)
    ∷ (codes "ERROR_DATA", pos 6)
    ∷ (codes "ERROR_HWPID", pos 7)
    ∷ (codes "ERROR_NADR", pos 8)
    ∷ (codes "ERROR_IFACE_CUSTOM_HANDLER", pos 9)
    ∷ (codes "ERROR_MISSING_CUSTOM_DPA_HANDLER", pos 10)
    ∷ (codes "ERROR_USER_TO", pos 0x3f)
    ∷ (codes "STATUS_CONFIRMATION", pos 0xff)
    ∷ []

find_name : List ℕ → List (List ℕ × ℤ) → Option ℤ
unfolding same_text
find_name t [] = none
find_name t ((name, c) ∷ rest) = if same_text t name then some c else find_name t rest

-- Reads an error string: the user codes by their digits, the others by the table.
pub parse_error_string : List ℕ → Option ℤ
unfolding find_name read_hex
parse_error_string t =
    if get_or t 0 0 == b'T' then some (from_u32 (read_hex 0 (drop 15 t))) else find_name t names

-- One case of the switch.
named :
    (c v : ℤ) (t rest : List ℕ)
    → parse_error_string t ≡ some v
    → parse_error_string rest ≡ some c
    → parse_error_string (if eqb_ℤ c v then t else rest) ≡ some c
named c v t rest here later = elim (Bool-cases (eqb_ℤ c v)) [
  | inl e ↦ rw (e, eqb_ℤ→eq c v e) here
  | inr e ↦ rw e later
]

-- The default of the switch.
user_name :
    (u : ℕ) → u < 4294967296 → parse_error_string (user_prefix ++ hex 8 u) ≡ some (from_u32 u)
unfolding parse_error_string
user_name u h = ap (λ k. some (from_u32 k)) (read_hex-hex 8 u h)

from_u32-to_u32 : (c : ℤ) → negsuc 2147483647 ≤ℤ c → c ≤ℤ pos 2147483647 → from_u32 (to_u32 c) ≡ c
from_u32-to_u32 (pos n) lo hi = ground arith
from_u32-to_u32 (negsuc n) lo hi = ground arith

to_u32-lt : (c : ℤ) → to_u32 c < 4294967296
to_u32-lt (pos n) = omega arith
to_u32-lt (negsuc n) = omega arith

-- Every int has a name of its own: reading the name of an int gives the int back.
pub parse_error_string-error_string :
    (c : ℤ)
    → negsuc 2147483647 ≤ℤ c
    → c ≤ℤ pos 2147483647
    → parse_error_string (error_string c) ≡ some c
unfolding error_string parse_error_string
parse_error_string-error_string c lo hi =
    let user = user_name (to_u32 c) (to_u32-lt c) ∙ ap some (from_u32-to_u32 c lo hi) in
    named c _ _ _ refl (
      named c _ _ _ refl (
        named c _ _ _ refl (
          named c _ _ _ refl (
            named c _ _ _ refl (
              named c _ _ _ refl (
                named c _ _ _ refl (
                  named c _ _ _ refl (
                    named c _ _ _ refl (
                      named c _ _ _ refl (
                        named c _ _ _ refl (
                          named c _ _ _ refl (
                            named c _ _ _ refl (
                              named c _ _ _ refl (
                                named c _ _ _ refl (
                                  named c _ _ _ refl (
                                    named c _ _ _ refl (
                                      named c _ _ _ refl (
                                        named c _ _ _ refl (
                                          named c _ _ _ refl
                                            (named c _ _ _ refl (user)))))))))))))))))))))
