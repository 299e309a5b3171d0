-- ===== src/Platform.antt =====
-- What headfwd-proxy/src/index.ts and headfwd-proxy/src/tunnel-do.ts use of the Workers runtime
-- and do not implement: Web Crypto, the text encoder, JSON, base64, and the KV namespace `REGISTRY`.
-- The laws are the documented behaviour of these services. A KV entry is read as it was last
-- written, until its time to live has passed.
pub mod Model
use headfwd.Common.{ℕ, ◌+◌, ◌*◌, ◌≤◌, ◌<◌, ◌≡◌, ◌≢◌, Option, none, some, Text, All, length}
use headfwd.Hex.{Bytes, IsByte}
use headfwd.Json.{Value, str}

-- Web Crypto throws (`none`) on a key that it cannot import.
pub record Crypto : Type 1 where
  pub PublicKey : Type 0
  pub PrivateKey : Type 0
  -- The key pair that `generateKey` makes is given by its private half.
  pub public_of : PrivateKey → PublicKey
  pub export_raw : PublicKey → Bytes
  pub import_raw : Bytes → Option PublicKey
  pub export_jwk : PrivateKey → Value
  pub import_jwk : Option Value → Option PrivateKey
  -- `deriveBits` with a public and a private key, 256 bits.
  pub derive_bits : PublicKey → PrivateKey → Option Bytes
  -- `importKey('raw', …)` for HMAC with SHA-256 and `sign`: key, then message.
  pub hmac : Bytes → Bytes → Bytes
  pub digest : Bytes → Bytes
  pub length-hmac : (key message : Bytes) → length (hmac key message) ≡ 32
  pub hmac-IsByte : (key message : Bytes) → All IsByte (hmac key message)
  pub length-digest : (bs : Bytes) → length (digest bs) ≡ 32
  pub digest-IsByte : (bs : Bytes) → All IsByte (digest bs)
  pub export_raw-IsByte : (k : PublicKey) → All IsByte (export_raw k)
  pub import-export_raw : (k : PublicKey) → import_raw (export_raw k) ≡ some k
  pub import-export_jwk : (k : PrivateKey) → import_jwk (some (export_jwk k)) ≡ some k
  pub derive_comm : (a b : PrivateKey) → derive_bits (public_of a) b ≡ derive_bits (public_of b) a

-- `TextEncoder.encode`, the conversion of a value to a string, which throws on an object without
-- one, and the texts that `JSON.stringify` makes.
pub record Texts : Type 1 where
  pub encode : Text → Bytes
  pub to_string : Value → Option Text
  pub Json : Type 0
  pub stringify : Value → Json
  pub parse : Json → Option Value
  pub to_string-str : (s : Text) → to_string (str s) ≡ some s
  pub parse-stringify : (v : Value) → parse (stringify v) ≡ some v

-- The times are in milliseconds, as `Date.now()` gives them, and the time to live in seconds.
pub record Kv (V : Type 0) : Type 1 where
  pub Store : Type 0
  pub get : Store → ℕ → Text → Option V
  pub put : Store → ℕ → Text → V → ℕ → Store
  pub delete : Store → Text → Store
  pub get-put_live :
      (s : Store) (now t : ℕ) (k : Text) (v : V) (ttl : ℕ)
      → t < now + ttl * 1000
      → get (put s now k v ttl) t k ≡ some v
  pub get-put_expired :
      (s : Store) (now t : ℕ) (k : Text) (v : V) (ttl : ℕ)
      → now + ttl * 1000 ≤ t
      → get (put s now k v ttl) t k ≡ none
  pub get-put_ne :
      (s : Store) (now t : ℕ) (k j : Text) (v : V) (ttl : ℕ)
      → k ≢ j
      → get (put s now k v ttl) t j ≡ get s t j
  pub get-delete_self : (s : Store) (t : ℕ) (k : Text) → get (delete s k) t k ≡ none
  pub get-delete_ne : (s : Store) (t : ℕ) (k j : Text) → k ≢ j → get (delete s k) t j ≡ get s t j

-- `btoa` throws on a character beyond U+00FF, and `atob` on what is no base64.
pub record Base64 : Type 0 where
  pub btoa : Text → Option Text
  pub atob : Text → Option Text
  pub btoa_bytes : (s : Text) → All IsByte s → (b : Text) × (btoa s ≡ some b)
  pub atob-btoa : (s b : Text) → btoa s ≡ some b → atob b ≡ some s

pub record Platform : Type 1 where
  pub crypto : Crypto
  pub open crypto use *
  pub texts : Texts
  pub open texts use *
  pub kv : Kv Json
  pub open kv use *
