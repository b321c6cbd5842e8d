-- ===== src/Message/Validity.antt =====
-- What every operation of DpaMessage keeps: the buffer has its 64 bytes, and the length fits them.
use clibdpa.Base.{
  ℕ, ◌≤◌, ◌≡◌, refl, ◌∙◌, Bool, true, false, List, [], ◌∷◌, Option, none, some, All, length, take,
  overwrite, length-overwrite, All-overwrite, All-replicate, All-take, Result, ok, err, arith,
}
use clibdpa.Base.Int.{ℤ}
use clibdpa.Base.Bytes.{IsByte}
use clibdpa.Message.{
  DpaMessage, max_dpa_message_size, empty_packet, empty, data_to_buffer, copy, assign,
  assign_string, fill_from_response, set_length, length_u8,
}

pub record IsValid (m : DpaMessage) : Type 0 where
  pub sized : length m.buffer ≡ max_dpa_message_size
  pub bytes : All IsByte m.buffer
  pub fits : m.m_length ≤ max_dpa_message_size

-- The result of a call that can throw is valid if there is one.
abbrev pub Returns {ℓ κ} : {A : Type ℓ} → (A → Type κ) → Result A → Type κ
Returns P (ok a) = P a
Returns P (err e) = Unit

-- The bytes behind a pointer.
abbrev pub AllBytes : Option (List ℕ) → Type 0
AllBytes none = Unit {0}
AllBytes (some xs) = All IsByte xs

empty_packet_bytes : All IsByte empty_packet
empty_packet_bytes = All-replicate IsByte max_dpa_message_size 0 (omega arith)

pub empty-IsValid : IsValid empty
unfolding empty
empty-IsValid = record { sized = refl; bytes = empty_packet_bytes; fits = omega arith }

pub copy-IsValid : (m : DpaMessage) → IsValid m → IsValid (copy m)
unfolding copy
copy-IsValid m v = record {
  sized = length-overwrite (take m.m_length m.buffer) empty_packet;
  bytes = All-overwrite IsByte _ _ (All-take IsByte m.m_length m.buffer v.bytes) empty_packet_bytes;
  fits = v.fits;
}

pub assign-IsValid :
    (m : DpaMessage) (same : Bool) (other : DpaMessage)
    → IsValid m
    → IsValid other
    → IsValid (assign m same other)
unfolding assign copy
assign-IsValid m true other v w = v
assign-IsValid m false other v w = copy-IsValid other w

written-IsValid :
    (m : DpaMessage) (xs : List ℕ) (len : ℕ)
    → IsValid m
    → All IsByte xs
    → len ≤ max_dpa_message_size
    → IsValid (record m { buffer = overwrite (take len xs) m.buffer; m_length = len })
written-IsValid m xs len v b h = record {
  sized = length-overwrite (take len xs) m.buffer ∙ v.sized;
  bytes = All-overwrite IsByte _ _ (All-take IsByte len xs b) v.bytes;
  fits = h;
}

pub data_to_buffer-IsValid :
    (m : DpaMessage) (bytes : Option (List ℕ)) (len : ℕ)
    → IsValid m
    → AllBytes bytes
    → Returns IsValid (data_to_buffer m bytes len)
unfolding data_to_buffer
data_to_buffer-IsValid m none len v b = ground arith
data_to_buffer-IsValid m (some xs) len v b = ground (arith, written-IsValid m xs len v b)

pub set_length-IsValid : (m : DpaMessage) (len : ℤ) → IsValid m → Returns IsValid (set_length m len)
unfolding set_length
set_length-IsValid m len v = ground arith

pub fill_from_response-IsValid :
    (m : DpaMessage) (bytes : Option (List ℕ)) (len : ℕ)
    → IsValid m
    → AllBytes bytes
    → Returns IsValid (fill_from_response m bytes len)
unfolding fill_from_response
fill_from_response-IsValid m bytes len v b = ground (arith, data_to_buffer-IsValid m bytes len v b)

-- The calls that change a message object in place.
pub data Call : Type 0 where
  stores fills : Option (List ℕ) → ℕ → Call
  assigns : Bool → DpaMessage → Call
  assigns_string : List ℕ → Call
  sets_length : ℤ → Call

-- A call that throws leaves the object as it was.
abbrev pub kept_or : DpaMessage → Result DpaMessage → DpaMessage
kept_or m (ok m') = m'
kept_or m (err e) = m

pub step : DpaMessage → Call → DpaMessage
step m (stores bytes len) = kept_or m (data_to_buffer m bytes len)
step m (fills bytes len) = kept_or m (fill_from_response m bytes len)
step m (assigns same other) = assign m same other
step m (assigns_string xs) = kept_or m (assign_string m xs)
step m (sets_length len) = kept_or m (set_length m len)

pub run : DpaMessage → List Call → DpaMessage
run m [] = m
run m (c ∷ cs) = run (step m c) cs

-- Arguments that the program's own types can hold.
abbrev pub Proper : Call → Type 0
Proper (stores bytes len) = AllBytes bytes
Proper (fills bytes len) = AllBytes bytes
Proper (assigns same other) = IsValid other
Proper (assigns_string xs) = All IsByte xs
Proper (sets_length len) = Unit {0}

kept_or-IsValid :
    (m : DpaMessage) (r : Result DpaMessage) → IsValid m → Returns IsValid r → IsValid (kept_or m r)
kept_or-IsValid m (ok m') v w = w
kept_or-IsValid m (err e) v w = v

step-IsValid : (m : DpaMessage) (c : Call) → IsValid m → Proper c → IsValid (step m c)
unfolding step assign_string
step-IsValid m (stores bytes len) v p =
    kept_or-IsValid m _ v (data_to_buffer-IsValid m bytes len v p)
step-IsValid m (fills bytes len) v p =
    kept_or-IsValid m _ v (fill_from_response-IsValid m bytes len v p)
step-IsValid m (assigns same other) v p = assign-IsValid m same other v p
step-IsValid m (assigns_string xs) v p =
    kept_or-IsValid m _ v (data_to_buffer-IsValid m (some xs) (length_u8 xs) v p)
step-IsValid m (sets_length len) v p = kept_or-IsValid m _ v (set_length-IsValid m len v)

-- After any calls with proper arguments, refused ones included, a message that was valid has its
-- 64 bytes, each below 256, and a length of at most 64.
pub run-IsValid : (m : DpaMessage) (cs : List Call) → IsValid m → All Proper cs → IsValid (run m cs)
unfolding run
run-IsValid m [] v p = v
run-IsValid m (c ∷ cs) v p = run-IsValid (step m c) cs (step-IsValid m c v p.0) p.1
