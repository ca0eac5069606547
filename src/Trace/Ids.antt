-- ===== src/Trace/Ids.antt =====
-- Fresh identifiers of middleware/trace/trace.go.
use api_toolkit.Prelude.{◌*◌, ◌<◌, ◌≡◌, refl, true, [], ◌∷◌, Text, length, All, arith}
use api_toolkit.Trace.{is_lower_hex, all_zero_hex, all_zero, hex_encode}

-- What `rand.Read` puts into an array: bytes.
abbrev pub IsBytes : Text → Type 0
IsBytes = All (λ b. b < 256)

pub length-hex_encode : (bs : Text) → length (hex_encode bs) ≡ 2 * length bs
unfolding hex_encode
length-hex_encode [] = omega arith
length-hex_encode (b ∷ bs) = omega (arith, length-hex_encode bs)

pub is_lower_hex-hex_encode : (bs : Text) → IsBytes bs → is_lower_hex (hex_encode bs) ≡ true
unfolding is_lower_hex hex_encode
is_lower_hex-hex_encode [] h = refl
is_lower_hex-hex_encode (b ∷ bs) (h, hs) = ground (arith, is_lower_hex-hex_encode bs hs)

pub all_zero_hex-hex_encode : (bs : Text) → IsBytes bs → all_zero_hex (hex_encode bs) ≡ all_zero bs
unfolding all_zero_hex all_zero hex_encode
all_zero_hex-hex_encode [] h = refl
all_zero_hex-hex_encode (b ∷ bs) (h, hs) = ground (arith, all_zero_hex-hex_encode bs hs)
