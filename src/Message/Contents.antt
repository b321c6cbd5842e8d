-- ===== src/Message/Contents.antt =====
-- The bytes that a message carries, and what of a string a new message keeps.
use clibdpa.Base.{
  ℕ, ◌≤◌, ◌<◌, ◌≡◌, sym, ap, ◌∙◌, List, length, take, overwrite, length-take, take-overwrite, ok,
  arith,
}
use clibdpa.Message.{DpaMessage, max_dpa_message_size, empty_packet, from_string, length_u8}

-- The string that is sent for a message: `basic_string(DpaPacketData(), GetLength())`.
abbrev pub contents : DpaMessage → List ℕ
contents m = take m.m_length m.buffer

take-min : (n : ℕ) (xs : List ℕ) → n ≤ length xs → length (take n xs) ≡ n
take-min n xs h = omega (arith, length-take n xs)

take-overwrite-take :
    (n : ℕ) (xs ys : List ℕ)
    → n ≤ length xs
    → n ≤ length ys
    → take n (overwrite (take n xs) ys) ≡ take n xs
take-overwrite-take n xs ys hx hy =
    let e = take-min n xs hx in
    ap (λ k. take k (overwrite (take n xs) ys)) (sym e)
    ∙ take-overwrite (take n xs) ys (omega (arith, e))

-- The message that carries the first `length % 256` bytes of a string.
abbrev pub holding : List ℕ → DpaMessage
holding xs = record {
  buffer = overwrite (take (length_u8 xs) xs) empty_packet;
  m_length = length_u8 xs;
}

from_string-holding :
    (stale : ℕ) (xs : List ℕ)
    → 0 < length_u8 xs
    → length_u8 xs ≤ max_dpa_message_size
    → (from_string stale xs ≡ ok (holding xs)) × (contents (holding xs) ≡ take (length_u8 xs) xs)
unfolding from_string
from_string-holding stale xs p h =
    (ground arith, take-overwrite-take (length_u8 xs) xs empty_packet (omega arith) h)

-- A string of 256 bytes or more whose length is from 1 to 64 modulo 256 is not refused: it becomes a
-- message that carries only its first bytes, fewer than the string has.
from_string-truncates :
    (stale : ℕ) (xs : List ℕ)
    → 256 ≤ length xs
    → 0 < length_u8 xs
    → length_u8 xs ≤ max_dpa_message_size
    → (m : DpaMessage) × (from_string stale xs ≡ ok m)
      × (contents m ≡ take (length_u8 xs) xs)
      × (m.m_length < length xs)
from_string-truncates stale xs l p h =
    let (e, c) = from_string-holding stale xs p h in (holding xs, e, c, omega arith)
