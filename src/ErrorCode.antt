-- ===== src/ErrorCode.antt =====
-- The error codes of a transaction and their names (include/IDpaTransactionResult2.h). Codes are
-- ints: negative for the transaction handling, the response code of the DPA packet otherwise. Text
-- is a list of code points.
pub mod Roundtrip
mod Tests
use Prim.Native.Char.{code}
use Prim.Native.String.{String}
use clibdpa.Base.{ℕ, zero, suc, ◌+◌, ◌/◌, ◌%◌, List, [], ◌∷◌, ◌++◌, ltb, if◌then◌else◌}
use clibdpa.Base.Int.{ℤ, pos, negsuc, eqb_ℤ, to_u32}

-- enum ErrorCode. The codes from `trn_ok` on are those of the DPA response.
pub data ErrorCode : Type 0 where
  trn_error_iface_exclusive_access trn_error_bad_response trn_error_bad_request : ErrorCode
  trn_error_iface_busy trn_error_iface trn_error_aborted trn_error_iface_queue_full : ErrorCode
  trn_error_timeout trn_ok trn_error_fail trn_error_pcmd trn_error_pnum trn_error_addr : ErrorCode
  trn_error_data_len trn_error_data trn_error_hwpid trn_error_nadr : ErrorCode
  trn_error_iface_custom_handler trn_error_missing_custom_dpa_handler trn_error_user_to : ErrorCode
  trn_status_confirmation trn_error_user_from : ErrorCode

-- The int of an enumerator.
abbrev pub value : ErrorCode → ℤ
value trn_error_iface_exclusive_access = negsuc 7
value trn_error_bad_response = negsuc 6
value trn_error_bad_request = negsuc 5
value trn_error_iface_busy = negsuc 4
value trn_error_iface = negsuc 3
value trn_error_aborted = negsuc 2
value trn_error_iface_queue_full = negsuc 1
value trn_error_timeout = negsuc 0
value trn_ok = pos 0
value trn_error_fail = pos 1
value trn_error_pcmd = pos 2
value trn_error_pnum = pos 3
value trn_error_addr = pos 4
value trn_error_data_len = pos 5
value trn_error_data = pos 6
value trn_error_hwpid = pos 7
value trn_error_nadr = pos 8
value trn_error_iface_custom_handler = pos 9
value trn_error_missing_custom_dpa_handler = pos 10
value trn_error_user_to = pos 0x3f
value trn_status_confirmation = pos 0xff
value trn_error_user_from = pos 0x20

abbrev pub codes : String → List ℕ
codes String.[] = []
codes (String.◌∷◌ c s) = code c ∷ codes s

-- A digit as `std::hex` writes it.
abbrev pub hex_digit : ℕ → ℕ
hex_digit d = if ltb d 10 then b'0' + d else 87 + d

-- `os << std::hex << n`, of at most `fuel` digits; a uint32_t has 8.
unfoldable pub hex : ℕ → ℕ → List ℕ
hex zero n = []
hex (suc fuel) n =
    let rest = hex fuel (n / 16) in
    if ltb n 16 then hex_digit n ∷ [] else rest ++ hex_digit (n % 16) ∷ []

abbrev pub user_prefix : List ℕ
user_prefix = codes "TRN_ERROR_USER_"

-- errorCode(errorCode): the cases of the switch in order, `TRN_ERROR_USER_FROM` falling into the
-- default.
unfoldable pub error_string : ℤ → List ℕ
unfolding hex
error_string c =
    if eqb_ℤ c (negsuc 7)
    then codes "ERROR_IFACE_EXCLUSIVE_ACCESS"
    else if eqb_ℤ c (negsuc 6)
    then codes "BAD_RESPONSE"
    else if eqb_ℤ c (negsuc 5)
    then codes "BAD_REQUEST"
    else if eqb_ℤ c (negsuc 4)
    then codes "ERROR_IFACE_BUSY"
    else if eqb_ℤ c (negsuc 3)
    then codes "ERROR_IFACE"
    else if eqb_ℤ c (negsuc 2)
    then codes "ERROR_ABORTED"
    else if eqb_ℤ c (negsuc 1)
    then codes "ERROR_IFACE_QUEUE_FULL"
    else if eqb_ℤ c (negsuc 0)
    then codes "ERROR_TIMEOUT"
    else if eqb_ℤ c (pos 0)
    then codes "ok"
    else if eqb_ℤ c (pos 1)
    then codes "ERROR_FAIL"
    else if eqb_ℤ c (pos 2)
    then codes "ERROR_PCMD"
    else if eqb_ℤ c (pos 3)
    then codes "ERROR_PNUM"
    else if eqb_ℤ c (pos 4)
    then codes "ERROR_ADDR"
    else if eqb_ℤ c (pos 5)
    then codes "ERROR_DATA_LEN"
    else if eqb_ℤ c (pos 6)
    then codes "ERROR_DATA"
    else if eqb_ℤ c (pos 7)
    then codes "ERROR_HWPID"
    else if eqb_ℤ c (pos 8)
    then codes "ERROR_NADR"
    else if eqb_ℤ c (pos 9)
    then codes "ERROR_IFACE_CUSTOM_HANDLER"
    else if eqb_ℤ c (pos 10)
    then codes "ERROR_MISSING_CUSTOM_DPA_HANDLER"
    else if eqb_ℤ c (pos 0x3f)
    then codes "ERROR_USER_TO"
    else if eqb_ℤ c (pos 0xff)
    then codes "STATUS_CONFIRMATION"
    else user_prefix ++ hex 8 (to_u32 c)
