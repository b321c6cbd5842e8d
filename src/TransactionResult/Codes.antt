-- ===== src/TransactionResult/Codes.antt =====
-- What the error code of a result says, and when its text agrees with it.
use clibdpa.Base.{ℕ, suc, ◌<◌, ◌≤◌, ◌≡◌, ◌≢◌, refl, true, arith, if◌then◌else◌}
use clibdpa.Base.Int.{ℤ, pos, eqb_ℤ, eqb_ℤ→eq}
use clibdpa.Message.{DpaMessage, response_code_field, copy}
use clibdpa.ErrorCode.{value, trn_ok, error_string}
use clibdpa.ErrorCode.Roundtrip.{parse_error_string-error_string}
use clibdpa.TransactionResult.{
  DpaTransactionResult, get_error_code, override_error_code, get_error_string, set_response,
  set_error_code,
}

-- The outcome that `set_error_code` records: the given code if it is an error, else the code of the
-- response.
abbrev pub outcome : DpaTransactionResult → ℤ → ℤ
outcome r e = if eqb_ℤ e (pos 0) then r.m_response_code else e

-- The report after an error code was set: the code that the user reads is that code if it is an
-- error and else the code of the response; the text is the name of the same code; and the messages
-- and flags are as before.
record Reported (r : DpaTransactionResult) (e : ℤ) (r' : DpaTransactionResult) : Type 0 where
  pub code : get_error_code r' ≡ outcome r e
  pub text : get_error_string r' ≡ error_string (get_error_code r')
  pub response : r'.m_response ≡ r.m_response
  pub response_code : r'.m_response_code ≡ r.m_response_code
  pub responded : r'.m_is_responded ≡ r.m_is_responded
  pub confirmed : r'.m_is_confirmed ≡ r.m_is_confirmed

-- After a transaction has set its error code, whatever the result held before, the code that the user
-- reads is that code if it is an error and else the code of the response; the text is the name of the
-- same code; and the messages and flags are as before.
set_error_code-Reported : (r : DpaTransactionResult) (e : ℤ) → Reported r e (set_error_code r e)
unfolding set_error_code get_error_code get_error_string
set_error_code-Reported r e = ground (arith, eqb_ℤ→eq e (pos 0), eqb_ℤ→eq r.m_response_code (pos 0))

-- After a response of at least 3 bytes was recorded and the transaction has set the code 0, the user
-- reads the response's code, has a copy of the response, and the result is flagged as responded.
pub responded_code :
    (r : DpaTransactionResult) (received : DpaMessage) (now : ℕ)
    → 3 ≤ received.m_length
    → let r' = set_error_code (set_response r received now) (pos 0) in
      (get_error_code r' ≡ pos (response_code_field received))
      × (r'.m_response ≡ copy received)
      × (r'.m_is_responded ≡ true)
unfolding set_error_code set_response get_error_code copy
responded_code r received now l = (ground arith, ground arith, ground arith)

-- Where the user overrides the error code of a result with 0 although the response carries an error
-- code (from 1 to 255), the text says "ok" and the code is the response's: the two getters disagree.
override_mismatch :
    (r : DpaTransactionResult) (n : ℕ)
    → r.m_response_code ≡ pos (suc n)
    → n < 255
    → let r' = override_error_code r (value trn_ok) in
      (get_error_string r' ≡ error_string (pos 0))
      × (get_error_code r' ≡ pos (suc n))
      × (get_error_string r' ≢ error_string (get_error_code r'))
unfolding override_error_code get_error_string get_error_code
override_mismatch r n e h = (
  refl,
  e,
  λ same. cc (
    parse_error_string-error_string (pos 0) (omega arith) (omega arith),
    parse_error_string-error_string (pos (suc n)) (omega arith) (omega arith),
    e,
    same,
  ),
)
