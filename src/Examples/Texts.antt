-- ===== src/Examples/Texts.antt =====
-- Examples for the conversions of texts and bytes.
use headfwd.Common.{◌≡◌, ◌↔◌, true, some, [], ◌∷◌, Text, codes, arith}
use headfwd.Base64.{to_base64, from_base64}
use headfwd.Base64.RoundTrip.{from_base64-to_base64}
use headfwd.Compare.{timing_safe_equal}
use headfwd.Compare.Correct.{timing_safe_equal_iff}
use headfwd.Fingerprint.{extract_fingerprint}
use headfwd.Fingerprint.Hosts.{Carries, extract_fingerprint_iff}
use headfwd.Hex.{buffer_to_hex, hex_to_bytes}
use headfwd.Hex.RoundTrip.{hex_to_bytes-buffer_to_hex}
use headfwd.Platform.Model.{toy_base64}

hex_to_bytes-buffer_to_hex_example :
    hex_to_bytes (buffer_to_hex (0 ∷ 10 ∷ 255 ∷ [])) ≡ 0 ∷ 10 ∷ 255 ∷ []
hex_to_bytes-buffer_to_hex_example =
    hex_to_bytes-buffer_to_hex (0 ∷ 10 ∷ 255 ∷ []) (omega arith, (omega arith, (omega arith, tt)))

timing_safe_equal_iff_example :
    (timing_safe_equal (codes "ab") (codes "abc") ≡ true) ↔ (codes "ab" ≡ codes "abc")
timing_safe_equal_iff_example = timing_safe_equal_iff (codes "ab") (codes "abc")

from_base64-to_base64_example :
    (t : Text) × (to_base64 toy_base64 (1 ∷ 255 ∷ []) ≡ some t)
    × (from_base64 toy_base64 t ≡ some (1 ∷ 255 ∷ []))
from_base64-to_base64_example =
    from_base64-to_base64 toy_base64 (1 ∷ 255 ∷ []) (omega arith, (omega arith, tt))

abbrev label : Text
label = codes "0123456789abcdef0123456789abcdef"

abbrev host : Text
host = codes "0123456789ABCDEF0123456789abcdef.HeadFwd.net"

extract_fingerprint_iff_example : (extract_fingerprint host ≡ some label) ↔ Carries host label
extract_fingerprint_iff_example = extract_fingerprint_iff host label
