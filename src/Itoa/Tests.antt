-- ===== src/Itoa/Tests.antt =====
-- The theorems about `itoa` at concrete inputs.
use api_toolkit.Prelude.{◌≡◌, some, Text, arith}
use api_toolkit.Prelude.Int.{negsuc, parse_int64}
use api_toolkit.Itoa.{itoa}
use api_toolkit.Itoa.Digits.{parse_int64-itoa}

parse_int64-itoa_example :
    (text : Text) × (itoa (negsuc 1203) ≡ some text) × (parse_int64 text ≡ some (negsuc 1203))
parse_int64-itoa_example = parse_int64-itoa (negsuc 1203) (omega arith)
