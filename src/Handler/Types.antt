-- ===== src/Handler/Types.antt =====
-- The members of DpaHandler2::Imp. Transactions are shared objects: the store holds them, and the user,
-- the queue and the handler hold references, which are positions in the store.
use Prim.Native.String.{String}
use clibdpa.Base.{ℕ, List, [], Option, none}
use clibdpa.Base.Int.{ℤ, pos}
use clibdpa.Timing.{RfMode, std, TimingParams, default_timeout}
use clibdpa.TaskQueue.{TaskQueue}
use clibdpa.TaskQueue
use clibdpa.Transaction.Types.{Transaction}

-- `H` stands for the user's functions. `store` and `ids` are the transactions that were made and the
-- static counter of their constructor.
pub record Handler (H : Type 0) : Type 0 where
  pub m_rf_mode : RfMode
  pub m_timing_params : TimingParams
  pub m_async_message_handler : Option H
  pub m_any_message_handler_map : List (String × H)
  pub m_default_timeout : ℤ
  pub m_pending_transaction : Option ℕ
  pub m_dpa_transaction_queue : TaskQueue ℕ
  pub store : List Transaction
  pub ids : ℕ

abbrev pub initial_timing_params : TimingParams
initial_timing_params = record {
  bonded_nodes = 1;
  discovered_nodes = 1;
  frc_response_time = 0x00;
  os_version = "4.02D";
  dpa_version = 0x0302;
}

module _ {H : Type 0} where
  -- Imp(iqrfInterface), for an interface that is no null pointer.
  unfoldable pub init : Handler H
  unfolding TaskQueue.new
  init = record {
    m_rf_mode = std;
    m_timing_params = initial_timing_params;
    m_async_message_handler = none;
    m_any_message_handler_map = [];
    m_default_timeout = pos default_timeout;
    m_pending_transaction = none;
    m_dpa_transaction_queue = TaskQueue.new;
    store = [];
    ids = 0;
  }
