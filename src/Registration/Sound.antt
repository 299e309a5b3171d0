-- ===== src/Registration/Sound.antt =====
-- Every public key that is stored for a fingerprint hashes to that fingerprint.
use headfwd.Common.{ℕ, ◌≡◌, refl, Option, none, some, Text, text_eq}
use mathlib.Core.Path.{subst}
use headfwd.Common.Dict.{HasDistinctKeys, insert-HasDistinctKeys, Each, insert-Each}
use headfwd.Json.{str, member}
use headfwd.Platform.{Platform}
use headfwd.Registration.State.{
  State, LocalChallenge, LocalRegistration, compute_fingerprint, challenge_key, challenge_ttl,
}
use headfwd.Registration.Init.{Draw, draw_nonce, challenge_value, store_by}
use headfwd.Registration.Stored.{
  AllStored, put-AllStored, delete-AllStored, Named, Names, IsNamed, challenge-IsNamed,
}

pub some-injective' {ℓ} : {A : Type ℓ} {a b : A} → some a ≡ some b → a ≡ b
some-injective' e = cc

module _ (p : Platform) where
  pub self-Named : (key : Text) → Named p (compute_fingerprint p key) (some (str key))
  self-Named key = record {
    value = str key;
    text = key;
    present = refl;
    printed = p.to_string-str key;
    hashed = refl;
  }

  new-Names :
      (d : Draw p) (key : Text)
      → Names p
          (compute_fingerprint p key)
          (p.stringify (challenge_value key (draw_nonce p d) (p.export_jwk d.ephemeral) d.now))
  unfolding member text_eq
  new-Names d key = record {
    parsed = challenge_value key (draw_nonce p d) (p.export_jwk d.ephemeral) d.now;
    key = some (str key);
    parses = p.parse-stringify _;
    has_key = refl;
    named = self-Named key;
  }

  pub record IsSound (st : State p) : Type 0 where
    pub distinct : HasDistinctKeys st.challenges
    pub stored : (kv : p.Store) → st.registry ≡ some kv → AllStored p (IsNamed p) kv
    pub challenges : Each (λ f (e : LocalChallenge). Named p f e.challenge.public_key) st.challenges
    pub registrations : Each (λ f (e : LocalRegistration). Named p f e.public_key) st.registrations

  -- The namespace takes an entry with a well-named key.
  module _ (st : State p) (sound : IsSound st) (kv : p.Store) (r : st.registry ≡ some kv) where
    pub put-IsSound :
        (now : ℕ) (k : Text) (j : p.Json) (ttl : ℕ)
        → IsNamed p k j
        → IsSound (record st { registry = some (p.put kv now k j ttl) })
    put-IsSound now k j ttl n = record {
      distinct = sound.distinct;
      stored = λ kv' e.
          subst (AllStored p (IsNamed p)) (some-injective' e)
            (put-AllStored p (IsNamed p) kv (sound.stored kv r) now k j ttl n);
      challenges = sound.challenges;
      registrations = sound.registrations;
    }

    pub delete-IsSound : (k : Text) → IsSound (record st { registry = some (p.delete kv k) })
    delete-IsSound k = record {
      distinct = sound.distinct;
      stored = λ kv' e.
          subst (AllStored p (IsNamed p)) (some-injective' e)
            (delete-AllStored p (IsNamed p) kv (sound.stored kv r) k);
      challenges = sound.challenges;
      registrations = sound.registrations;
    }

  -- The first phase.
  pub store_by-IsSound :
      (st : State p) (r : Option p.Store) (d : Draw p) (key : Text)
      → st.registry ≡ r
      → IsSound st
      → IsSound (store_by p r d key st)
  unfolding store_by
  store_by-IsSound st (some kv) d key e s =
      let fp = compute_fingerprint p key in
      put-IsSound st s kv e d.now (challenge_key fp) _ challenge_ttl
        (challenge-IsNamed p fp _ (new-Names d key))
  store_by-IsSound st none d key e s = record {
    distinct = insert-HasDistinctKeys (compute_fingerprint p key) _ st.challenges s.distinct;
    stored = s.stored;
    challenges =
        insert-Each _ (compute_fingerprint p key) _ st.challenges (self-Named key) s.challenges;
    registrations = s.registrations;
  }
