-- ===== src/Handler/Settings.antt =====
-- The settings of DpaHandler2::Imp.
use clibdpa.Base.{ℕ, if◌then◌else◌}
use clibdpa.Base.Int.{ℤ, pos, ltb_ℤ}
use clibdpa.Timing.{RfMode, TimingParams, minimal_timeout}
use clibdpa.Handler.Types.{Handler}
use clibdpa.TaskQueue

module _ {H : Type 0} where
  -- getTimeout()
  unfoldable pub get_timeout : Handler H → ℤ
  get_timeout h = h.m_default_timeout

  -- setTimeout(timeout)
  unfoldable pub set_timeout : Handler H → ℤ → Handler H
  set_timeout h timeout = record h {
    m_default_timeout =
        if ltb_ℤ timeout (pos minimal_timeout) then pos minimal_timeout else timeout;
  }

  -- getRfCommunicationMode() and setRfCommunicationMode(rfMode)
  unfoldable pub get_rf_communication_mode : Handler H → RfMode
  get_rf_communication_mode h = h.m_rf_mode

  unfoldable pub set_rf_communication_mode : Handler H → RfMode → Handler H
  set_rf_communication_mode h mode = record h { m_rf_mode = mode }

  -- getTimingParams() and setTimingParams(params)
  unfoldable pub get_timing_params : Handler H → TimingParams
  get_timing_params h = h.m_timing_params

  unfoldable pub set_timing_params : Handler H → TimingParams → Handler H
  set_timing_params h params = record h { m_timing_params = params }

  -- getFrcResponseTime() and setFrcResponseTime(frcResponseTime)
  unfoldable pub get_frc_response_time : Handler H → ℕ
  get_frc_response_time h = h.m_timing_params.frc_response_time

  unfoldable pub set_frc_response_time : Handler H → ℕ → Handler H
  set_frc_response_time h time = record h {
    m_timing_params = record (h.m_timing_params) { frc_response_time = time };
  }

  -- getDpaQueueLen(), the size as an int.
  unfoldable pub get_dpa_queue_len : Handler H → ℕ
  unfolding TaskQueue.size
  get_dpa_queue_len h = TaskQueue.size h.m_dpa_transaction_queue
