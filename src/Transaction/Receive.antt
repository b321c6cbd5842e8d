-- ===== src/Transaction/Receive.antt =====
-- processReceivedMessage() of DpaTransaction2.
use clibdpa.Base.{
  ℕ, ◌%◌, Bool, true, false, not, ◌&&◌, ◌==◌, if◌then◌else◌, ltb, leb, Result, ok, err, logic_error,
}
use clibdpa.Base.Int.{ℤ, negsuc, to_i8, to_u32}
use clibdpa.Base.Bytes.{low_byte, clear_bit7}
use clibdpa.Protocol.{broadcast_address}
use clibdpa.Message.{
  DpaMessage, MessageType, request, notification, response, message_direction, node_address,
  peripheral_type, peripheral_command, byte_at, get_length,
}
use clibdpa.Timing.{estimate_timeout, response_data_length}
use clibdpa.TransactionResult.{set_confirmation, set_response}
use clibdpa.Transaction.Types.{
  TransferState, sent_coordinator, confirmation, confirmation_broadcast, received_response,
  processed, Transaction, request_of,
}

-- The fields Hops, TimeSlotLength and HopsResponse of `DpaResponsePacket_t.DpaMessage.IFaceConfirmation`.
abbrev pub iface_hops : DpaMessage → ℕ
iface_hops m = byte_at m 8

abbrev pub iface_timeslot : DpaMessage → ℕ
iface_timeslot m = byte_at m 9

abbrev pub iface_hops_response : DpaMessage → ℕ
iface_hops_response m = byte_at m 10

-- The conversion of an int8_t member to a uint8_t argument.
abbrev pub to_u8 : ℤ → ℕ
to_u8 a = to_u32 a % 256

abbrev pub is_sent_coordinator : TransferState → Bool
is_sent_coordinator sent_coordinator = true
is_sent_coordinator _ = false

-- The message matches the request: address, peripheral, and command but for the response bit.
unfoldable pub answers : DpaMessage → DpaMessage → Bool
answers received sent =
    node_address received == node_address sent
    && peripheral_type received == peripheral_type sent
    && clear_bit7 (peripheral_command received) == peripheral_command sent

-- The estimate from the members, for a data length.
abbrev pub estimated_time_ms : Transaction → ℤ → ℕ
estimated_time_ms t len =
    estimate_timeout t.m_current_communication_mode t.m_current_timing_params (to_u8 t.m_hops)
      (to_u8 t.m_timeslot_length) (to_u8 t.m_hops_response) len

-- The new expected duration after a confirmation with an estimate.
abbrev pub confirmed_duration : Transaction → ℕ → ℕ
confirmed_duration t estimated =
    if ltb 0 estimated
    then (if leb t.m_user_timeout_ms estimated then estimated else t.m_user_timeout_ms)
    else t.m_expected_duration_ms

-- The branch for a confirmation.
unfoldable pub process_confirmation : Transaction → DpaMessage → ℕ → Transaction
process_confirmation t received now =
    let saved = record t {
      m_state =
          if low_byte (node_address received) == broadcast_address
          then confirmation_broadcast
          else confirmation;
      m_hops = to_i8 (iface_hops received);
      m_timeslot_length = to_i8 (iface_timeslot received);
      m_hops_response = to_i8 (iface_hops_response received);
    } in
    record saved {
      m_expected_duration_ms = confirmed_duration saved (estimated_time_ms saved (negsuc 0));
      m_dpa_transaction_result = set_confirmation t.m_dpa_transaction_result received now;
    }

-- The state and the expected duration after a response.
unfoldable pub await_response : Transaction → DpaMessage → Transaction
await_response t received =
    if is_sent_coordinator t.m_state
    then record t { m_state = processed }
    else if not t.m_infinit_timeout
    then (let estimated = estimated_time_ms t (response_data_length (get_length received)) in
        record t {
          m_expected_duration_ms = estimated;
          m_state = if estimated == 0 then processed else received_response;
        })
    else record t { m_state = processed }

-- The branch for a response.
unfoldable pub process_response : Transaction → DpaMessage → ℕ → Transaction
unfolding await_response
process_response t received now = record (await_response t received) {
  m_dpa_transaction_result = set_response t.m_dpa_transaction_result received now;
}

abbrev pub dispatch : MessageType → Transaction → DpaMessage → ℕ → Result Transaction
dispatch request t received now = err logic_error
dispatch notification t received now = err logic_error
dispatch MessageType.confirmation t received now =
    if answers received (request_of t)
    then ok (process_confirmation t received now)
    else err logic_error
dispatch response t received now =
    if answers received (request_of t)
    then ok (process_response t received now)
    else err logic_error

-- processReceivedMessage(receivedMessage). The three checks against the request throw the same
-- exception class, and change nothing.
unfoldable pub process_received_message : Transaction → DpaMessage → ℕ → Result Transaction
process_received_message t received now =
    if t.m_finish then ok t else dispatch (message_direction received) t received now
