-- ===== src/Transaction/Types.antt =====
-- The members of class DpaTransaction2 (Dpa/DpaTransaction2.h).
use clibdpa.Base.{ℕ, Bool, ◌==◌}
use clibdpa.Base.Int.{ℤ}
use clibdpa.Base.Bytes.{low_byte}
use clibdpa.Protocol.{coordinator_address}
use clibdpa.Message.{DpaMessage, node_address}
use clibdpa.Timing.{RfMode, TimingParams}
use clibdpa.TransactionResult.{DpaTransactionResult}

-- enum DpaTransfer2State.
pub data TransferState : Type 0 where
  created sent sent_coordinator confirmation confirmation_broadcast received_response :
      TransferState
  processed timeout aborted interface_error default_error : TransferState

-- The members but the functor, the condition variable and its mutex. The timeouts are uint32_t, the
-- hops and the time slot int8_t. `m_dpa_transaction_result` is the object behind the unique pointer.
pub record Transaction : Type 0 where
  pub m_dpa_transaction_result : DpaTransactionResult
  pub m_state : TransferState
  pub m_finish : Bool
  pub m_current_communication_mode : RfMode
  pub m_current_timing_params : TimingParams
  pub m_default_error : ℤ
  pub m_default_timeout : ℕ
  pub m_user_timeout_ms : ℕ
  pub m_expected_duration_ms : ℕ
  pub m_infinit_timeout : Bool
  pub m_hops : ℤ
  pub m_timeslot_length : ℤ
  pub m_hops_response : ℤ
  pub m_transaction_id : ℕ

-- `m_dpaTransactionResultPtr->getRequest()`.
abbrev pub request_of : Transaction → DpaMessage
request_of t = t.m_dpa_transaction_result.m_request

-- `(message.NodeAddress() & BROADCAST_ADDRESS) == COORDINATOR_ADDRESS`.
unfoldable pub to_coordinator : DpaMessage → Bool
to_coordinator m = low_byte (node_address m) == coordinator_address
