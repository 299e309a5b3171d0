-- ===== src/Platform/Model.antt =====
-- A small instance of the runtime for the examples: two keys, a digest that adds up the bytes, JSON
-- texts that are the values themselves, and base64 that leaves a byte as it is.
use headfwd.Common.{
  ℕ, zero, suc, ◌+◌, ◌*◌, ◌%◌, ◌<◌, ◌≤◌, ◌≡◌, ◌≢◌, refl, ◌∙◌, ◌==◌, Bool, true, false, ◌&&◌, Option,
  none, some, [], ◌∷◌, ◌++◌, Text, codes, text_eq, text_eq_iff, text_eq_refl, All, length, ltb,
  if◌then◌else◌, arith, le→not_ltb, lt→ltb,
}
use headfwd.Common.Dict.{Dict, lookup, insert, erase, lookup-insert, lookup-erase}
use headfwd.Hex.{Bytes, IsByte}
use headfwd.Json.{Value, null, bool, str}
use headfwd.Platform.{Crypto, Texts, Kv, Base64, Platform}

abbrev pub sum : Bytes → ℕ
sum [] = 0
sum (b ∷ bs) = b + sum bs

abbrev pub zeros : ℕ → Bytes
zeros zero = []
zeros (suc n) = 0 ∷ zeros n

length-zeros : (n : ℕ) → length (zeros n) ≡ n
length-zeros zero = refl
length-zeros (suc n) = omega (arith, length-zeros n)

zeros-IsByte : (n : ℕ) → All IsByte (zeros n)
zeros-IsByte zero = tt
zeros-IsByte (suc n) = (omega arith, zeros-IsByte n)

abbrev pub toy_digest : Bytes → Bytes
toy_digest bs = sum bs % 256 ∷ zeros 31

pub length-toy_digest : (bs : Bytes) → length (toy_digest bs) ≡ 32
length-toy_digest bs = omega (arith, length-zeros 31)

pub toy_digest-IsByte : (bs : Bytes) → All IsByte (toy_digest bs)
toy_digest-IsByte bs = (omega arith, zeros-IsByte 31)

abbrev pub print_key : Bool → Bytes
print_key false = 1 ∷ []
print_key true = 2 ∷ []

abbrev pub read_key : Bytes → Option Bool
read_key (b ∷ []) = if b == 1 then some false else if b == 2 then some true else none
read_key _ = none

abbrev pub read_jwk : Option Value → Option Bool
read_jwk (some (bool b)) = some b
read_jwk _ = none

abbrev pub agree : Bool → Bool → Option Bytes
agree false false = some (3 ∷ [])
agree true true = some (4 ∷ [])
agree _ _ = some (5 ∷ [])

pub agree_comm : (a b : Bool) → agree a b ≡ agree b a
agree_comm false false = refl
agree_comm false true = refl
agree_comm true false = refl
agree_comm true true = refl

pub print_key-IsByte : (k : Bool) → All IsByte (print_key k)
print_key-IsByte false = (omega arith, tt)
print_key-IsByte true = (omega arith, tt)

pub read_key-print_key : (k : Bool) → read_key (print_key k) ≡ some k
read_key-print_key false = refl
read_key-print_key true = refl

abbrev pub toy_crypto : Crypto
toy_crypto = record {
  PublicKey = Bool;
  PrivateKey = Bool;
  public_of = λ k. k;
  export_raw = print_key;
  import_raw = read_key;
  export_jwk = bool;
  import_jwk = read_jwk;
  derive_bits = agree;
  hmac = λ key message. toy_digest (key ++ message);
  digest = toy_digest;
  length-hmac = λ key message. length-toy_digest (key ++ message);
  hmac-IsByte = λ key message. toy_digest-IsByte (key ++ message);
  length-digest = length-toy_digest;
  digest-IsByte = toy_digest-IsByte;
  export_raw-IsByte = print_key-IsByte;
  import-export_raw = read_key-print_key;
  import-export_jwk = λ k. refl;
  derive_comm = agree_comm;
}

abbrev pub print : Value → Option Text
print (str s) = some s
print null = some (codes "null")
print (bool true) = some (codes "true")
print (bool false) = some (codes "false")
print _ = none

abbrev pub toy_texts : Texts
toy_texts = record {
  encode = λ s. s;
  to_string = print;
  Json = Value;
  stringify = λ v. v;
  parse = some;
  to_string-str = λ s. refl;
  parse-stringify = λ v. refl;
}

-- Each entry with the time at which it is no longer read.
abbrev pub live {ℓ} : {V : Type ℓ} → ℕ → Option (V × ℕ) → Option V
live t none = none
live t (some (v, until)) = if ltb t until then some v else none

module _ {V : Type 0} where
  abbrev pub toy_get : Dict (V × ℕ) → ℕ → Text → Option V
  toy_get s t k = live t (lookup k s)

  abbrev pub toy_put : Dict (V × ℕ) → ℕ → Text → V → ℕ → Dict (V × ℕ)
  toy_put s now k v ttl = insert k (v, now + ttl * 1000) s

  toy_get-put :
      (s : Dict (V × ℕ)) (now t : ℕ) (k j : Text) (v : V) (ttl : ℕ)
      → toy_get (toy_put s now k v ttl) t j
        ≡ live t (if text_eq k j then some (v, now + ttl * 1000) else lookup j s)
  toy_get-put s now t k j v ttl = rw (lookup-insert k j (v, now + ttl * 1000) s) refl

  pub toy_get-put_live :
      (s : Dict (V × ℕ)) (now t : ℕ) (k : Text) (v : V) (ttl : ℕ)
      → t < now + ttl * 1000
      → toy_get (toy_put s now k v ttl) t k ≡ some v
  toy_get-put_live s now t k v ttl h =
      toy_get-put s now t k k v ttl ∙ rw (text_eq_refl k, lt→ltb t (now + ttl * 1000) h)

  pub toy_get-put_expired :
      (s : Dict (V × ℕ)) (now t : ℕ) (k : Text) (v : V) (ttl : ℕ)
      → now + ttl * 1000 ≤ t
      → toy_get (toy_put s now k v ttl) t k ≡ none
  toy_get-put_expired s now t k v ttl h =
      toy_get-put s now t k k v ttl ∙ rw (text_eq_refl k, le→not_ltb t (now + ttl * 1000) h)

  pub toy_get-put_ne :
      (s : Dict (V × ℕ)) (now t : ℕ) (k j : Text) (v : V) (ttl : ℕ)
      → k ≢ j
      → toy_get (toy_put s now k v ttl) t j ≡ toy_get s t j
  toy_get-put_ne s now t k j v ttl n =
      toy_get-put s now t k j v ttl ∙ ground (arith, text_eq_iff k j)

  pub toy_get-delete_ne :
      (s : Dict (V × ℕ)) (t : ℕ) (k j : Text) → k ≢ j → toy_get (erase k s) t j ≡ toy_get s t j
  toy_get-delete_ne s t k j n = ground (arith, lookup-erase k j s, text_eq_iff k j)

  pub toy_get-delete_self : (s : Dict (V × ℕ)) (t : ℕ) (k : Text) → toy_get (erase k s) t k ≡ none
  toy_get-delete_self s t k = rw (lookup-erase k k s, text_eq_refl k) refl

abbrev pub toy_kv : Kv toy_texts.Json
toy_kv = record {
  Store = Dict (Value × ℕ);
  get = toy_get;
  put = toy_put;
  delete = λ s k. erase k s;
  get-put_live = toy_get-put_live;
  get-put_expired = toy_get-put_expired;
  get-put_ne = toy_get-put_ne;
  get-delete_self = toy_get-delete_self;
  get-delete_ne = toy_get-delete_ne;
}

abbrev pub toy_platform : Platform
toy_platform = record { crypto = toy_crypto; texts = toy_texts; kv = toy_kv }

abbrev pub all_bytes : Text → Bool
all_bytes [] = true
all_bytes (c ∷ s) = ltb c 256 && all_bytes s

all_bytes-true : (s : Text) → All IsByte s → all_bytes s ≡ true
all_bytes-true [] h = refl
all_bytes-true (c ∷ s) (b, h) = ground (arith, all_bytes-true s h)

abbrev pub toy_btoa : Text → Option Text
toy_btoa s = if all_bytes s then some s else none

pub toy_btoa_bytes : (s : Text) → All IsByte s → toy_btoa s ≡ some s
toy_btoa_bytes s h = rw (all_bytes-true s h) refl

pub toy_atob-btoa : (s b : Text) → toy_btoa s ≡ some b → some b ≡ some s
toy_atob-btoa s b h = ground arith

abbrev pub toy_base64 : Base64
toy_base64 = record {
  btoa = toy_btoa;
  atob = some;
  btoa_bytes = λ s h. (s, toy_btoa_bytes s h);
  atob-btoa = toy_atob-btoa;
}
