-- ===== src/Registration/Lookup.antt =====
-- What the second phase finds after the first: the challenge for five minutes, then nothing.
use headfwd.Common.{
  ℕ, ◌<◌, ◌≡◌, refl, ◌∙◌, Option, none, some, [], ◌∷◌, Text, text_eq_iff, le→not_ltb, if◌then◌else◌,
  text_eq_refl, ltb, lt→ltb, arith, ◌>>=◌,
}
use headfwd.Common.Dict.{Dict, lookup, lookup-insert, HasDistinctKeys, insert-HasDistinctKeys}
use headfwd.Json.{str}
use headfwd.Platform.{Platform}
use headfwd.Registration.State.{
  State, Challenge, LocalChallenge, compute_fingerprint, cleanup_expired, challenge_key,
  challenge_ttl,
}
use headfwd.Registration.Init.{Draw, draw_nonce, new_challenge, store_by, store_challenge, expiry}
use headfwd.Registration.Verify.{find_challenge, find_by, kv_challenge}
use headfwd.Registration.Keys.{read_challenge-stringify, lookup-cleanup_none}

-- The clean-up drops the expired entries of a map, and no others.
pub lookup-cleanup :
    (now : ℕ) (k : Text) (m : Dict LocalChallenge)
    → HasDistinctKeys m
    → lookup k (cleanup_expired now m)
      ≡ (lookup k m >>= λ e. if ltb e.expires_at now then none else some e)
unfolding lookup cleanup_expired
lookup-cleanup now k [] h = refl
lookup-cleanup now k ((j, x) ∷ m) (n, h) =
    ground (arith, text_eq_iff j k, lookup-cleanup_none now j m n, lookup-cleanup now k m h)

pub cleanup-HasDistinctKeys :
    (now : ℕ) (m : Dict LocalChallenge)
    → HasDistinctKeys m
    → HasDistinctKeys (cleanup_expired now m)
unfolding cleanup_expired
cleanup-HasDistinctKeys now [] h = tt
cleanup-HasDistinctKeys now ((j, x) ∷ m) (n, h) =
    ground (arith, lookup-cleanup_none now j m n, cleanup-HasDistinctKeys now m h)

-- So each entry that is left was there before.
pub lookup_before_cleanup :
    (now : ℕ) (k : Text) (m : Dict LocalChallenge) (e : LocalChallenge)
    → HasDistinctKeys m
    → lookup k (cleanup_expired now m) ≡ some e
    → lookup k m ≡ some e
lookup_before_cleanup now k m e h found = ground (arith, lookup-cleanup now k m h)

-- The look-up without a namespace, in one equation.
abbrev pub live_local : ℕ → Option LocalChallenge → Option Challenge
live_local now none = none
live_local now (some e) = if ltb e.expires_at now then none else some e.challenge

pub find_local :
    (p : Platform) (st : State p) (now : ℕ) (text : Text)
    → HasDistinctKeys st.challenges
    → (find_by p none now (str text) st).1 ≡ some (live_local now (lookup text st.challenges))
unfolding find_by
find_local p st now text h = ground (arith, lookup-cleanup now text st.challenges h)

module _ (p : Platform) (st : State p) (distinct : HasDistinctKeys st.challenges) (d : Draw p)
    (key : Text) (now : ℕ) where
  -- The first phase, over the namespace r.
  abbrev stored : Option p.Store → State p
  stored r = store_by p r d key (record st { registry = r })

  abbrev found : Option p.Store → Option (Option Challenge)
  found r = (find_by p (stored r).registry now (str (compute_fingerprint p key)) (stored r)).1

  found-local :
      found none
      ≡ some (
          live_local now
            (some (record { challenge = new_challenge p d key; expires_at = expiry d.now })))
  unfolding store_by
  found-local =
      let fp = compute_fingerprint p key in
      let entry : LocalChallenge = record {
        challenge = new_challenge p d key;
        expires_at = expiry d.now;
      } in
      find_local p (stored none) now fp (insert-HasDistinctKeys fp entry st.challenges distinct)
      ∙ rw (lookup-insert fp fp entry st.challenges, text_eq_refl fp) refl

  found_fresh :
      (r : Option p.Store) → now < expiry d.now → found r ≡ some (some (new_challenge p d key))
  unfolding find_by store_by kv_challenge
  found_fresh none h = found-local ∙ rw (le→not_ltb (expiry d.now) now (omega arith))
  found_fresh (some kv) h = rw (
    p.to_string-str (compute_fingerprint p key),
    p.get-put_live kv d.now now (challenge_key (compute_fingerprint p key)) _ challenge_ttl
        (omega arith),
    read_challenge-stringify p key (draw_nonce p d) (p.export_jwk d.ephemeral) d.now,
  )

  found_stale : (r : Option p.Store) → expiry d.now < now → found r ≡ some none
  unfolding find_by store_by kv_challenge
  found_stale none h = found-local ∙ rw (lt→ltb (expiry d.now) now h)
  found_stale (some kv) h = rw (
    p.to_string-str (compute_fingerprint p key),
    p.get-put_expired kv d.now now (challenge_key (compute_fingerprint p key)) _ challenge_ttl
        (omega arith),
  )

  -- After the first phase, whatever was stored before, and until the five minutes are over, the
  -- look-up for the key's fingerprint finds the new challenge, if the local map holds each
  -- fingerprint once.
  pub find_challenge_fresh :
      now < expiry d.now
      → (find_challenge p now (str (compute_fingerprint p key)) (store_challenge p st d key)).1
        ≡ some (some (new_challenge p d key))
  unfolding find_challenge store_challenge
  find_challenge_fresh h = found_fresh st.registry h

  -- Afterwards it finds none.
  pub find_challenge_stale :
      expiry d.now < now
      → (find_challenge p now (str (compute_fingerprint p key)) (store_challenge p st d key)).1
        ≡ some none
  unfolding find_challenge store_challenge
  find_challenge_stale h = found_stale st.registry h
