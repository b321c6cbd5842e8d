-- ===== src/Timing/Bounds.antt =====
-- Ranges and comparisons of the estimates.
use clibdpa.Base.{ℕ, ◌+◌, ◌*◌, ◌≤◌, ◌<◌, arith}
use clibdpa.Base.Int.{ℤ, negsuc}
use clibdpa.Timing.{
  RfMode, std, lp, TimingParams, std_response_slot, lp_response_slot, estimate_timeout,
}

slot : RfMode → TimingParams → ℕ → ℤ → ℕ
unfolding std_response_slot lp_response_slot
slot std = std_response_slot
slot lp = lp_response_slot

slot_bounds :
    (m : RfMode) (p : TimingParams) (ts : ℕ) (len : ℤ)
    → (40 ≤ slot m p ts len) × (slot m p ts len ≤ 200)
unfolding slot
slot_bounds std p ts len = ground arith
slot_bounds lp p ts len = ground arith

product_le : (a b m n : ℕ) → a ≤ m → b ≤ n → a * b ≤ m * n
product_le a b m n h k = grind arith

total_bounds :
    (hops ts back s : ℕ)
    → hops < 256
    → ts < 256
    → back < 256
    → 40 ≤ s
    → s ≤ 200
    → (80 ≤ (hops + 1) * ts * 10 + ((back + 1) * s + 40))
      × ((hops + 1) * ts * 10 + ((back + 1) * s + 40) ≤ 704040)
total_bounds hops ts back s h t b lo hi = (
  omega (arith, product_le 1 40 (back + 1) s (omega arith) lo),
  omega (
    arith,
    product_le (hops + 1) ts 256 255 (omega arith) (omega arith),
    product_le (back + 1) s 256 200 (omega arith) hi,
  ),
)

total_mono :
    (hops ts back s u : ℕ)
    → s ≤ u
    → (hops + 1) * ts * 10 + ((back + 1) * s + 40) ≤ (hops + 1) * ts * 10 + ((back + 1) * u + 40)
total_mono hops ts back s u h = omega (arith, product_le (back + 1) s (back + 1) u (omega arith) h)

slot_response_le :
    (m : RfMode) (p : TimingParams) (ts : ℕ) (len : ℤ) → slot m p ts len ≤ slot m p ts (negsuc 0)
unfolding slot
slot_response_le std p ts len = ground arith
slot_response_le lp p ts len = ground arith

estimate_timeout-response_le :
    (m : RfMode) (p : TimingParams) (hops ts back : ℕ) (len : ℤ)
    → estimate_timeout m p hops ts back len ≤ estimate_timeout m p hops ts back (negsuc 0)
unfolding estimate_timeout slot
estimate_timeout-response_le std p hops ts back len =
    total_mono hops ts back (slot std p ts len) (slot std p ts (negsuc 0))
      (slot_response_le std p ts len)
estimate_timeout-response_le lp p hops ts back len =
    total_mono hops ts back (slot lp p ts len) (slot lp p ts (negsuc 0))
      (slot_response_le lp p ts len)

estimate_bounds :
    (m : RfMode) (p : TimingParams) (hops ts back : ℕ) (len : ℤ)
    → hops < 256
    → ts < 256
    → back < 256
    → (80 ≤ estimate_timeout m p hops ts back len)
      × (estimate_timeout m p hops ts back len ≤ 704040)
unfolding estimate_timeout slot
estimate_bounds std p hops ts back len h t b =
    let s = slot_bounds std p ts len in total_bounds hops ts back (slot std p ts len) h t b s.0 s.1
estimate_bounds lp p hops ts back len h t b =
    let s = slot_bounds lp p ts len in total_bounds hops ts back (slot lp p ts len) h t b s.0 s.1

-- With arguments of a byte each: every estimate is at least 80 ms; the correction from a response, of
-- any length, never exceeds the estimate from its confirmation; and that is far within an int.
pub estimate_timeout_bounds :
    (m : RfMode) (p : TimingParams) (hops ts back : ℕ) (len : ℤ)
    → hops < 256
    → ts < 256
    → back < 256
    → (80 ≤ estimate_timeout m p hops ts back len)
      × (estimate_timeout m p hops ts back len ≤ estimate_timeout m p hops ts back (negsuc 0))
      × (estimate_timeout m p hops ts back (negsuc 0) ≤ 704040)
estimate_timeout_bounds m p hops ts back len h t b = (
  (estimate_bounds m p hops ts back len h t b).0,
  estimate_timeout-response_le m p hops ts back len,
  (estimate_bounds m p hops ts back (negsuc 0) h t b).1,
)
