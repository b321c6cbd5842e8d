-- ===== src/TransactionResult.antt =====
-- class DpaTransactionResult2 (Dpa/DpaTransactionResult2.h and .cpp): what a transaction hands to
-- its user. `std::chrono::system_clock::now()` is an argument of the calls that read the clock.
pub mod Codes
mod Tests
use clibdpa.Base.{ℕ, ◌&&◌, Bool, true, false, List, ltb, if◌then◌else◌, not}
use clibdpa.Base.Int.{ℤ, pos, eqb_ℤ}
use clibdpa.Message.{DpaMessage, get_length, response_code_field}
use clibdpa.Message
use clibdpa.ErrorCode.{value, trn_ok, trn_error_aborted, error_string}

pub record DpaTransactionResult : Type 0 where
  pub m_request : DpaMessage
  pub m_confirmation : DpaMessage
  pub m_response : DpaMessage
  pub m_request_ts : ℕ
  pub m_confirmation_ts : ℕ
  pub m_response_ts : ℕ
  pub m_error_code : ℤ
  pub m_response_code : ℤ
  pub m_is_responded : Bool
  pub m_is_confirmed : Bool

-- DpaTransactionResult2(request). A time point is 0 until it is set.
unfoldable pub new : DpaMessage → ℕ → DpaTransactionResult
unfolding Message.empty Message.assign
new request now = record {
  m_request = Message.assign Message.empty false request;
  m_confirmation = Message.empty;
  m_response = Message.empty;
  m_request_ts = now;
  m_confirmation_ts = 0;
  m_response_ts = 0;
  m_error_code = value trn_error_aborted;
  m_response_code = value trn_ok;
  m_is_responded = false;
  m_is_confirmed = false;
}

-- getErrorCode()
unfoldable pub get_error_code : DpaTransactionResult → ℤ
get_error_code r =
    if not (eqb_ℤ r.m_error_code (value trn_ok)) then r.m_error_code else r.m_response_code

-- overrideErrorCode(err)
unfoldable pub override_error_code : DpaTransactionResult → ℤ → DpaTransactionResult
override_error_code r e = record r { m_error_code = e }

-- getErrorString()
unfoldable pub get_error_string : DpaTransactionResult → List ℕ
get_error_string r = error_string r.m_error_code

-- isConfirmed() and isResponded()
abbrev pub is_confirmed : DpaTransactionResult → Bool
is_confirmed r = r.m_is_confirmed

abbrev pub is_responded : DpaTransactionResult → Bool
is_responded r = r.m_is_responded

-- setConfirmation(confirmation)
unfoldable pub set_confirmation : DpaTransactionResult → DpaMessage → ℕ → DpaTransactionResult
unfolding Message.assign
set_confirmation r confirmation now = record r {
  m_confirmation_ts = now;
  m_confirmation = Message.assign r.m_confirmation false confirmation;
  m_is_confirmed = true;
}

-- setResponse(response)
unfoldable pub set_response : DpaTransactionResult → DpaMessage → ℕ → DpaTransactionResult
unfolding Message.assign response_code_field
set_response r response now =
    let stored = record r {
      m_response_ts = now;
      m_response = Message.assign r.m_response false response;
    } in
    if ltb 0 (get_length response)
    then record stored {
      m_response_code = pos (response_code_field response);
      m_is_responded = true;
    }
    else record stored { m_is_responded = false }

-- setErrorCode(errorCode)
unfoldable pub set_error_code : DpaTransactionResult → ℤ → DpaTransactionResult
set_error_code r e = record r {
  m_error_code =
      if eqb_ℤ e (value trn_ok) && not (eqb_ℤ r.m_response_code (value trn_ok))
      then r.m_response_code
      else e;
}
