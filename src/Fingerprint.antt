-- ===== src/Fingerprint.antt =====
-- `extractFingerprint`, which headfwd-proxy/src/index.ts and headfwd-proxy/src/tunnel-do.ts both
-- declare: the regular expression /^([a-f0-9]{32})\.headfwd\.net$/i on a host name.
pub mod Hosts
use headfwd.Common.{
  ℕ, zero, suc, ◌+◌, Bool, ◌&&◌, ◌||◌, Option, none, some, List, [], ◌∷◌, map, Text, codes, text_eq,
  leb, if◌then◌else◌,
}

-- `toLowerCase` on ASCII. The flag `i` makes no other character match an ASCII letter.
abbrev pub to_lower : ℕ → ℕ
to_lower c = if leb b'A' c && leb c b'Z' then c + 32 else c

-- The class `[a-f0-9]` under the flag `i`.
abbrev pub in_class : ℕ → Bool
in_class c = (leb b'0' c && leb c b'9') || (leb b'a' c && leb c b'f') || (leb b'A' c && leb c b'F')

abbrev push : ℕ → Option (Text × Text) → Option (Text × Text)
push c none = none
push c (some (p, r)) = some (c ∷ p, r)

-- Exactly n characters of the class, and what follows them.
match_class : ℕ → Text → Option (Text × Text)
match_class zero s = some ([], s)
match_class (suc n) [] = none
match_class (suc n) (c ∷ s) = let rest = match_class n s in if in_class c then push c rest else none

abbrev pub domain : Text
domain = codes ".headfwd.net"

-- The rest of the pattern, up to the end of the input.
under_domain : Option (Text × Text) → Option Text
under_domain none = none
under_domain (some (p, rest)) =
    if text_eq (map to_lower rest) domain then some (map to_lower p) else none

unfoldable pub extract_fingerprint : Text → Option Text
unfolding match_class under_domain
extract_fingerprint hostname = under_domain (match_class 32 hostname)
