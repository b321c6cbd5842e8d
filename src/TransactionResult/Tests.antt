-- ===== src/TransactionResult/Tests.antt =====
-- Results of a transaction with a response that carries an error code.
use clibdpa.Base.{◌≡◌, refl, [], ◌∷◌, overwrite}
use clibdpa.Base.Int.{pos}
use clibdpa.Message.{DpaMessage, empty_packet, response_code_field}
use clibdpa.ErrorCode.{value, trn_ok, error_string}
use clibdpa.TransactionResult.{
  DpaTransactionResult, new, set_response, get_error_code, get_error_string, override_error_code,
}

abbrev request : DpaMessage
request = record { buffer = overwrite (1 ∷ 0 ∷ 6 ∷ 9 ∷ 255 ∷ 255 ∷ []) empty_packet; m_length = 6 }

-- The node knows no such command: ERROR_PCMD.
abbrev answer : DpaMessage
answer = record {
  buffer = overwrite (1 ∷ 0 ∷ 6 ∷ 0x89 ∷ 0 ∷ 0 ∷ 2 ∷ 53 ∷ []) empty_packet;
  m_length = 8;
}

abbrev answered : DpaTransactionResult
answered = set_response (new request 7) answer 9

answered_code : answered.m_response_code ≡ pos 2
unfolding set_response response_code_field
answered_code = refl

-- The user's override to TRN_OK, as the two getters see it.
overridden : get_error_code (override_error_code answered (value trn_ok)) ≡ pos 2
unfolding get_error_code override_error_code set_response response_code_field
overridden = refl

overridden_text :
    get_error_string (override_error_code answered (value trn_ok)) ≡ error_string (value trn_ok)
unfolding get_error_string override_error_code
overridden_text = refl
