-- ===== src/Timing.antt =====
-- The estimates of how long a transaction takes: struct TimingParams and the enums of
-- include/IDpaTransaction2.h, and the estimators of Dpa/DpaTransaction2.cpp. All operands are bytes,
-- so the int arithmetic is exact (Timing/Bounds).
pub mod Bounds
mod Tests
use Prim.Native.String.{String}
use text.Mathlib.Text.{◌==◌ as str_eq}
use clibdpa.Base.{ℕ, ◌+◌, ◌-◌, ◌*◌, ◌%◌, Bool, ◌==◌, if◌then◌else◌}
use clibdpa.Protocol.{sizeof_iface_header}
use clibdpa.Base.Int.{ℤ, pos, negsuc, eqb_ℤ, ltb_ℤ, to_i8}

-- enum RfMode.
pub data RfMode : Type 0 where
  std lp : RfMode

-- struct TimingParams; `frc_response_time` is the byte of the enum FrcResponseTime.
pub record TimingParams : Type 0 where
  pub bonded_nodes : ℕ
  pub discovered_nodes : ℕ
  pub frc_response_time : ℕ
  pub os_version : String
  pub dpa_version : ℕ

abbrev pub default_timeout : ℕ
default_timeout = 500

abbrev pub minimal_timeout : ℕ
minimal_timeout = 200

abbrev pub infinite_timeout : ℕ
infinite_timeout = 0

abbrev pub safety_timeout_ms : ℕ
safety_timeout_ms = 40

abbrev pub bond_timeout_ms : ℕ
bond_timeout_ms = 11000

-- `osVersion == "4.03D"`.
abbrev pub is_403d : TimingParams → Bool
is_403d p = str_eq p.os_version "4.03D"

-- `responseTimeSlotLengthMs` of EstimateStdTimeout; the length -1 asks for an estimate from the
-- confirmation alone.
unfoldable pub std_response_slot : TimingParams → ℕ → ℤ → ℕ
std_response_slot p timeslot_req len =
    if eqb_ℤ len (negsuc 0)
    then (if timeslot_req == 20 then 200 else 60)
    else if is_403d p
    then (if ltb_ℤ len (pos 17) then 40 else if ltb_ℤ len (pos 41) then 50 else 60)
    else (if ltb_ℤ len (pos 16) then 40 else if ltb_ℤ len (pos 40) then 50 else 60)

-- EstimateStdTimeout(hopsRequest, timeslotReq, hopsResponse, responseDataLength)
unfoldable pub estimate_std_timeout : TimingParams → ℕ → ℕ → ℕ → ℤ → ℕ
estimate_std_timeout p hops_request timeslot_req hops_response len =
    (hops_request + 1) * timeslot_req * 10
    + ((hops_response + 1) * std_response_slot p timeslot_req len + safety_timeout_ms)

-- `responseTimeSlotLengthMs` of EstimateLpTimeout.
unfoldable pub lp_response_slot : TimingParams → ℕ → ℤ → ℕ
lp_response_slot p timeslot_req len =
    if eqb_ℤ len (negsuc 0)
    then (if timeslot_req == 20 then 200 else 110)
    else if is_403d p
    then (if ltb_ℤ len (pos 17) then 80 else if ltb_ℤ len (pos 41) then 90 else 100)
    else (if ltb_ℤ len (pos 11)
        then 80
        else if ltb_ℤ len (pos 34)
        then 90
        else if ltb_ℤ len (pos 57)
        then 100
        else 110)

-- EstimateLpTimeout(hopsRequest, timeslotReq, hopsResponse, responseDataLength)
unfoldable pub estimate_lp_timeout : TimingParams → ℕ → ℕ → ℕ → ℤ → ℕ
estimate_lp_timeout p hops_request timeslot_req hops_response len =
    (hops_request + 1) * timeslot_req * 10
    + ((hops_response + 1) * lp_response_slot p timeslot_req len + safety_timeout_ms)

-- The choice of the estimator by m_currentCommunicationMode.
unfoldable pub estimate_timeout : RfMode → TimingParams → ℕ → ℕ → ℕ → ℤ → ℕ
unfolding estimate_std_timeout estimate_lp_timeout
estimate_timeout lp = estimate_lp_timeout
estimate_timeout std = estimate_std_timeout

-- The argument `static_cast<int8_t>(GetLength() - (sizeof(TDpaIFaceHeader) + 2))`: the difference
-- is a size_t, of 64 bits.
abbrev pub response_data_length : ℕ → ℤ
response_data_length len =
    to_i8 ((len + 18446744073709551616 - (sizeof_iface_header + 2)) % 18446744073709551616)

-- The switch of getFrcTimeout.
unfoldable pub frc_response_ms : ℕ → ℕ
frc_response_ms t =
    if t == 0x10
    then 360
    else if t == 0x20
    then 680
    else if t == 0x30
    then 1320
    else if t == 0x40
    then 2600
    else if t == 0x50
    then 5160
    else if t == 0x60
    then 10280
    else if t == 0x70
    then 20620
    else 40

-- getFrcTimeout()
unfoldable pub get_frc_timeout : RfMode → TimingParams → ℕ
unfolding frc_response_ms
get_frc_timeout std p =
    p.bonded_nodes * 30 + (p.discovered_nodes + 2) * 110 + frc_response_ms p.frc_response_time + 220
get_frc_timeout lp p =
    p.bonded_nodes * 30 + (p.discovered_nodes + 2) * 160 + frc_response_ms p.frc_response_time + 260
