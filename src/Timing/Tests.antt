-- ===== src/Timing/Tests.antt =====
-- Estimates at the time slots of the protocol.
use clibdpa.Base.{◌≤◌, ◌≡◌, refl, arith}
use clibdpa.Base.Int.{pos, negsuc}
use clibdpa.Timing.{std, lp, TimingParams, estimate_timeout, get_frc_timeout, std_response_slot}
use clibdpa.Timing.Bounds.{estimate_timeout_bounds}

abbrev params : TimingParams
params = record {
  bonded_nodes = 3;
  discovered_nodes = 2;
  frc_response_time = 0x10;
  os_version = "4.03D";
  dpa_version = 0x0303;
}

-- Two hops there and back with a time slot of 50 ms, and 20 bytes of data.
std_estimate : estimate_timeout std params 1 5 1 (pos 20) ≡ 240
unfolding estimate_timeout std_response_slot
std_estimate = refl

frc_estimate : get_frc_timeout std params ≡ 1110
unfolding get_frc_timeout
frc_estimate = refl

estimate_timeout_bounds_example :
    (80 ≤ estimate_timeout lp params 1 5 1 (pos 20))
    × (estimate_timeout lp params 1 5 1 (pos 20) ≤ estimate_timeout lp params 1 5 1 (negsuc 0))
    × (estimate_timeout lp params 1 5 1 (negsuc 0) ≤ 704040)
estimate_timeout_bounds_example =
    estimate_timeout_bounds lp params 1 5 1 (pos 20) (omega arith) (omega arith) (omega arith)
