-- ===== src/Base64.antt =====
-- `toBase64` and `fromBase64` of headfwd-proxy/src/tunnel-do.ts.
pub mod RoundTrip
use headfwd.Common.{
  ℕ, zero, suc, ◌%◌, Option, none, some, [], ◌∷◌, ◌++◌, map, Text, length, take, drop, ◌>>=◌,
}
use headfwd.Hex.{Bytes}
use headfwd.Platform.{Base64}

abbrev chunk_size : ℕ
chunk_size = 0x8000

-- The loop over the chunks, with fuel. A byte is its own character.
join_chunks : ℕ → Bytes → Text → Text
join_chunks zero rest binary = binary
join_chunks (suc fuel) [] binary = binary
join_chunks (suc fuel) (b ∷ rest) binary =
    join_chunks fuel (drop chunk_size (b ∷ rest)) (binary ++ take chunk_size (b ∷ rest))

module _ (c : Base64) where
  -- Each round takes at least one byte.
  unfoldable pub to_base64 : Bytes → Option Text
  unfolding join_chunks
  to_base64 bytes = c.btoa (join_chunks (length bytes) bytes [])

  unfoldable pub from_base64 : Text → Option Bytes
  from_base64 b64 = do binary ← c.atob b64; some (map (λ u. u % 256) binary)
