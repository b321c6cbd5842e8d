-- ===== src/ErrorCode/Tests.antt =====
-- Names of error codes.
use clibdpa.Base.{◌≡◌, refl, some, arith}
use clibdpa.Base.Int.{negsuc, pos}
use clibdpa.ErrorCode.{codes, error_string}
use clibdpa.ErrorCode.Roundtrip.{parse_error_string, parse_error_string-error_string}

pcmd_name : error_string (pos 2) ≡ codes "ERROR_PCMD"
unfolding error_string
pcmd_name = refl

parse_error_string-error_string_example :
    parse_error_string (error_string (negsuc 200)) ≡ some (negsuc 200)
parse_error_string-error_string_example =
    parse_error_string-error_string (negsuc 200) (omega arith) (omega arith)
