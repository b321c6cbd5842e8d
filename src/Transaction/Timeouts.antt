-- ===== src/Transaction/Timeouts.antt =====
-- The timeouts of a new transaction against their description.
use Prim.Native.Nat.{max}
use clibdpa.Base.{
  ◌||◌, not, ◌==◌, ℕ, ◌≤◌, ◌<◌, ◌≡◌, Bool, false, ◌&&◌, if◌then◌else◌, arith, Bool-cases, inl, inr,
}
use clibdpa.Base.Int.{ℤ, pos, negsuc, ltb_ℤ, to_u32, ◌≤ℤ◌}
use clibdpa.Protocol.{pnum_coordinator, pnum_frc}
use clibdpa.Message.{DpaMessage, peripheral_type}
use clibdpa.Timing.{RfMode, TimingParams, bond_timeout_ms}
use clibdpa.TransactionResult
use clibdpa.Transaction.Types.{to_coordinator, request_of}
use clibdpa.Transaction.Create.{
  create, correct_timeout, coordinator_timeout, uses_bond_timeout, is_long_coordinator_command,
  is_frc_send_command,
}

-- The user's wish in ms: a negative timeout and the infinite one stand for no wish.
abbrev pub wish : ℤ → ℕ
wish (pos n) = n
wish (negsuc n) = 0

-- A bonding request to the coordinator whose timeout is left to the library.
abbrev pub is_default_bond : DpaMessage → ℤ → Bool
is_default_bond m user = to_coordinator m && uses_bond_timeout m user

wish_bounded : (user : ℤ) → user ≤ℤ pos 2147483647 → wish user < 2147483648
wish_bounded (pos n) l = omega arith
wish_bounded (negsuc n) l = omega arith

corrected :
    (m : DpaMessage) (d : ℕ) (user : ℤ)
    → 0 < d
    → d < 2147483648
    → user ≤ℤ pos 2147483647
    → (correct_timeout m (pos d) user).0 ≡ pos (max d (wish user))
unfolding correct_timeout
corrected m d (pos n) h k l = ground arith
corrected m d (negsuc n) h k l = ground arith

-- The timeouts, given the corrected one.
special :
    (m : DpaMessage) (d r : ℕ) (user : ℤ)
    → 0 < d
    → d ≤ r
    → r < 2147483648
    → let (required, expected) = coordinator_timeout m (pos d) user (pos r) in
      (to_u32 required ≡ (if is_default_bond m user then bond_timeout_ms else r))
      × (expected ≡ (if to_coordinator m then to_u32 required else d))
      × (0 < expected)
unfolding coordinator_timeout
special m d r user p h k = elim (Bool-cases (to_coordinator m)) [
  | inl e ↦ rw (e, coordinator_timeout) (ground arith)
  | inr e ↦ rw (e, coordinator_timeout) (ground arith)
]

pub create_timeouts :
    (request : DpaMessage) (mode : RfMode) (params : TimingParams) (d : ℕ) (user error : ℤ)
    (ids now : ℕ)
    → 0 < d
    → d < 2147483648
    → user ≤ℤ pos 2147483647
    → let t = create request mode params (pos d) user error ids now in
      (t.m_user_timeout_ms
        ≡ (if is_default_bond (request_of t) user then bond_timeout_ms else max d (wish user)))
      × (t.m_expected_duration_ms
          ≡ (if to_coordinator (request_of t) then t.m_user_timeout_ms else d))
      × (0 < t.m_expected_duration_ms)
unfolding create
create_timeouts request mode params d user error ids now h k l =
    rw (corrected (TransactionResult.new request now).m_request d user h k l) (
      special (TransactionResult.new request now).m_request d (max d (wish user)) user h
        (omega arith) (omega (arith, wish_bounded user l)))

-- The requests that the description of the timeouts lists for an infinite one: to the coordinator, its
-- long commands and the sending FRC commands.
abbrev pub is_long_request : DpaMessage → Bool
is_long_request m =
    to_coordinator m
    && (peripheral_type m == pnum_coordinator && is_long_coordinator_command m
        || peripheral_type m == pnum_frc && is_frc_send_command m)

abbrev pub is_other_peripheral : DpaMessage → Bool
is_other_peripheral m =
    not (peripheral_type m == pnum_coordinator) && not (peripheral_type m == pnum_frc)

-- Which requests get an infinite timeout, for every timeout of the user: a positive one is finite; a
-- negative one is infinite for exactly the long requests; the timeout 0 is infinite for the long
-- requests and also for every request to the coordinator with another peripheral than the
-- coordinator's and FRC.
infinite_timeout_cases :
    (m : DpaMessage) (d user : ℤ)
    → (correct_timeout m d user).1 ≡ (
        if ltb_ℤ (pos 0) user
        then false
        else if ltb_ℤ user (pos 0)
        then is_long_request m
        else is_long_request m || to_coordinator m && is_other_peripheral m)
unfolding correct_timeout
infinite_timeout_cases m d (pos n) = ground arith
infinite_timeout_cases m d (negsuc n) = ground arith
