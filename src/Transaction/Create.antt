-- ===== src/Transaction/Create.antt =====
-- The constructor of DpaTransaction2: the user's timeout is checked and corrected.
use clibdpa.Base.{ℕ, ◌+◌, ◌%◌, Bool, false, ◌&&◌, ◌||◌, not, ◌==◌, if◌then◌else◌}
use clibdpa.Base.Int.{ℤ, pos, ltb_ℤ, eqb_ℤ, to_u32}
use clibdpa.Protocol.{
  pnum_coordinator, pnum_frc, cmd_coordinator_bond_node, cmd_coordinator_discovery,
  cmd_coordinator_authorize_bond, cmd_coordinator_smart_connect, cmd_frc_send,
  cmd_frc_send_selective,
}
use clibdpa.Message.{DpaMessage, peripheral_type, peripheral_command}
use clibdpa.Timing.{RfMode, TimingParams, infinite_timeout, bond_timeout_ms}
use clibdpa.TransactionResult
use clibdpa.Transaction.Types.{Transaction, created, to_coordinator}

-- PNUM is the coordinator's and PCMD is Discovery, Smart connect or Authorize bond.
abbrev pub is_long_coordinator_command : DpaMessage → Bool
is_long_coordinator_command m =
    peripheral_command m == cmd_coordinator_discovery
    || peripheral_command m == cmd_coordinator_smart_connect
    || peripheral_command m == cmd_coordinator_authorize_bond

abbrev pub is_frc_send_command : DpaMessage → Bool
is_frc_send_command m =
    peripheral_command m == cmd_frc_send || peripheral_command m == cmd_frc_send_selective

-- The condition under which a negative timeout becomes infinite.
unfoldable pub forces_infinite : DpaMessage → Bool
forces_infinite m =
    to_coordinator m
    && (peripheral_type m == pnum_coordinator && is_long_coordinator_command m
        || peripheral_type m == pnum_frc && is_frc_send_command m)

-- The condition under which the user's infinite timeout is refused.
unfoldable pub refuses_infinite : DpaMessage → Bool
refuses_infinite m =
    not (to_coordinator m)
    || peripheral_type m == pnum_coordinator && not (is_long_coordinator_command m)
    || peripheral_type m == pnum_frc && not (is_frc_send_command m)

-- `requiredTimeout` and m_infinitTimeout after the first correction.
unfoldable pub correct_timeout : DpaMessage → ℤ → ℤ → ℤ × Bool
unfolding forces_infinite refuses_infinite
correct_timeout m default_timeout user_timeout =
    if ltb_ℤ user_timeout (pos 0)
    then (default_timeout, forces_infinite m)
    else if eqb_ℤ user_timeout (pos infinite_timeout)
    then (default_timeout, not (refuses_infinite m))
    else if ltb_ℤ user_timeout default_timeout
    then (default_timeout, false)
    else (user_timeout, false)

-- The bonding request to the coordinator, without a timeout of the user.
abbrev pub uses_bond_timeout : DpaMessage → ℤ → Bool
uses_bond_timeout m user_timeout =
    peripheral_type m == pnum_coordinator
    && peripheral_command m == cmd_coordinator_bond_node
    && ltb_ℤ user_timeout (pos 0)

-- `requiredTimeout` and m_expectedDurationMs after the special cases for the coordinator.
unfoldable pub coordinator_timeout : DpaMessage → ℤ → ℤ → ℤ → ℤ × ℕ
coordinator_timeout m default_timeout user_timeout required =
    if to_coordinator m
    then (if uses_bond_timeout m user_timeout
        then (pos bond_timeout_ms, to_u32 (pos bond_timeout_ms))
        else if ltb_ℤ default_timeout required
        then (required, to_u32 required)
        else (required, to_u32 default_timeout))
    else (required, to_u32 default_timeout)

-- DpaTransaction2(request, mode, params, defaultTimeout, userTimeout, sender, defaultError). `ids` is
-- the static transactionId before the call, and `now` the clock.
unfoldable pub create : DpaMessage → RfMode → TimingParams → ℤ → ℤ → ℤ → ℕ → ℕ → Transaction
unfolding correct_timeout coordinator_timeout
create request mode params default_timeout user_timeout default_error ids now =
    let result = TransactionResult.new request now in
    let (required, infinite) = correct_timeout result.m_request default_timeout user_timeout in
    let (required', expected) =
      coordinator_timeout result.m_request default_timeout user_timeout required in
    record {
      m_dpa_transaction_result = result;
      m_state = created;
      m_finish = false;
      m_current_communication_mode = mode;
      m_current_timing_params = params;
      m_default_error = default_error;
      m_default_timeout = to_u32 default_timeout;
      m_user_timeout_ms = to_u32 required';
      m_expected_duration_ms = expected;
      m_infinit_timeout = infinite;
      m_hops = pos 0;
      m_timeslot_length = pos 0;
      m_hops_response = pos 0;
      m_transaction_id = (ids + 1) % 4294967296;
    }
