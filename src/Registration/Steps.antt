-- ===== src/Registration/Steps.antt =====
-- Each of the three endpoints keeps the state sound.
use headfwd.Common.{ℕ, ◌≡◌, refl, sym, ◌∙◌, Option, none, some, Text, text_eq, arith}
use mathlib.Core.Path.{subst}
use headfwd.Common.Dict.{lookup, insert-Each, erase-Each, erase-HasDistinctKeys}
use headfwd.Json.{Value, str, member}
use headfwd.Http.{Request, Response}
use headfwd.Platform.{Platform}
use headfwd.Registration.State.{
  State, Challenge, LocalChallenge, cleanup_expired, compute_fingerprint, challenge_key, tunnel_key,
  tunnel_ttl, registration_value,
}
use headfwd.Registration.Init.{Draw, store_challenge, init_body, handle_register_init}
use headfwd.Registration.Legacy.{legacy_by, store_legacy, legacy_body, handle_register}
use headfwd.Registration.Verify.{
  VerifyDraw, forget, find_by, find_challenge, kv_challenge, read_challenge, register_by,
  store_registration, handle_register_verify,
}
use headfwd.Registration.Lookup.{
  lookup_before_cleanup, cleanup-HasDistinctKeys, find_local, live_local,
}
use headfwd.Registration.Outcome.{Outcome, refused, looked, proven, handle_register_verify-Outcome}
use headfwd.Registration.Stored.{Named, Names, tunnel-IsNamed}
use headfwd.Registration.Sound.{
  IsSound, put-IsSound, delete-IsSound, store_by-IsSound, some-injective',
}

module _ (p : Platform) where
  registration-Names :
      (key : Option Value) (f secret : Text) (at : ℕ)
      → Named p f key
      → Names p f (p.stringify (registration_value key secret at))
  unfolding member text_eq
  registration-Names none f secret at n = absurd (cc (n.present))
  registration-Names (some k) f secret at n = record {
    parsed = registration_value (some k) secret at;
    key = some k;
    parses = p.parse-stringify _;
    has_key = refl;
    named = n;
  }

  legacy_by-IsSound :
      (st : State p) (r : Option p.Store) (now : ℕ) (text : Text) (key : Value) (secret : Text)
      → st.registry ≡ r
      → p.to_string key ≡ some text
      → IsSound p st
      → IsSound p (legacy_by p r now (compute_fingerprint p text) key secret st)
  unfolding legacy_by
  legacy_by-IsSound st none now text key secret e k s = s
  legacy_by-IsSound st (some kv) now text key secret e k s =
      let fp = compute_fingerprint p text in
      put-IsSound p st s kv e now (tunnel_key fp) _ tunnel_ttl (
        tunnel-IsNamed p fp _ (
          registration-Names (some key) fp secret now
            (record { value = key; text = text; present = refl; printed = k; hashed = refl })))

  forget-IsSound :
      (o : Option Challenge) (t : Option Text) (st : State p)
      → IsSound p st
      → IsSound p (forget p o t st)
  forget-IsSound none none st s = s
  forget-IsSound none (some t) st s = record {
    distinct = erase-HasDistinctKeys t st.challenges s.distinct;
    stored = s.stored;
    challenges = erase-Each _ t st.challenges s.challenges;
    registrations = s.registrations;
  }
  forget-IsSound (some c) t st s = s

  cleaned-IsSound :
      (st : State p) (now : ℕ)
      → IsSound p st
      → IsSound p (record st { challenges = cleanup_expired now st.challenges })
  cleaned-IsSound st now s = record {
    distinct = cleanup-HasDistinctKeys now st.challenges s.distinct;
    stored = s.stored;
    challenges =
        λ k e h. s.challenges k e (lookup_before_cleanup now k st.challenges e s.distinct h);
    registrations = s.registrations;
  }

  pub find_by-IsSound :
      (st : State p) (r : Option p.Store) (now : ℕ) (f : Value)
      → IsSound p st
      → IsSound p (find_by p r now f st).0
  unfolding find_by
  find_by-IsSound st (some kv) now f s = s
  find_by-IsSound st none now f s = forget-IsSound _ _ _ (cleaned-IsSound st now s)

  -- Where a challenge of the namespace comes from.
  kv_challenge-get :
      (kv : p.Store) (now : ℕ) (f : Value) (text : Text) (c : Challenge)
      → p.to_string f ≡ some text
      → kv_challenge p kv now f ≡ some (some c)
      → (j : p.Json) × (p.get kv now (challenge_key text) ≡ some j) × (read_challenge p j ≡ some c)
  unfolding kv_challenge
  kv_challenge-get kv now f text c k h = ground arith

  read_challenge-Named :
      (j : p.Json) (c : Challenge) (text : Text)
      → read_challenge p j ≡ some c
      → Names p text j
      → Named p text c.public_key
  unfolding read_challenge
  read_challenge-Named j c text h n =
      subst (Named p text) (ground (arith, n.parses, n.has_key)) n.named

  live_local-entry :
      (now : ℕ) (o : Option LocalChallenge) (c : Challenge)
      → live_local now o ≡ some c
      → (e : LocalChallenge) × (o ≡ some e) × (e.challenge ≡ c)
  live_local-entry now none c h = cc
  live_local-entry now (some e) c h = (e, refl, ground arith)

  -- A challenge that is found names its fingerprint.
  found-Named :
      (st : State p) (r : Option p.Store) (now : ℕ) (f : Value) (text : Text) (c : Challenge)
      → st.registry ≡ r
      → p.to_string f ≡ some text
      → (find_by p r now f st).1 ≡ some (some c)
      → IsSound p st
      → Named p text c.public_key
  unfolding find_by
  found-Named st (some kv) now f text c e k found s =
      let (j, got, read) = kv_challenge-get kv now f text c k found in
      read_challenge-Named j c text read
        ((s.stored kv e now (challenge_key text) j got).challenge text refl)
  found-Named st none now (str t) text c e k found s =
      let (entry, kept, same) =
        live_local-entry now (lookup t st.challenges) c
          (some-injective' (sym (find_local p st now t s.distinct) ∙ found)) in
      let printed : t ≡ text = some-injective' (sym (p.to_string-str t) ∙ k) in
      subst (λ x. Named p x c.public_key) printed
        (subst (λ x. Named p t x.public_key) same (s.challenges t entry kept))
  found-Named st none now f text c e k found s = cc

  register_by-IsSound :
      (st : State p) (r : Option p.Store) (v : VerifyDraw p) (f : Value) (text secret : Text)
      (key : Option Value)
      → st.registry ≡ r
      → p.to_string f ≡ some text
      → Named p text key
      → IsSound p st
      → IsSound p (register_by p r v f text key secret st)
  unfolding register_by
  register_by-IsSound st (some kv) v f text secret key e k n s =
      let put =
        put-IsSound p st s kv e v.later (tunnel_key text) _ tunnel_ttl
          (tunnel-IsNamed p text _ (registration-Names key text secret v.later n)) in
      delete-IsSound p _ put _ refl (challenge_key text)
  register_by-IsSound st none v (str t) text secret key e k n s = record {
    distinct = erase-HasDistinctKeys t st.challenges s.distinct;
    stored = s.stored;
    challenges = erase-Each _ t st.challenges s.challenges;
    registrations =
        insert-Each _ t _ st.registrations
          (subst (λ x. Named p x key) (some-injective' (sym k ∙ p.to_string-str t)) n)
          s.registrations;
  }
  register_by-IsSound st none v f text secret key e k n s = s

  -- Each endpoint keeps the state sound.
  pub handle_register-IsSound :
      (secret : Text) (now : ℕ) (req : Request) (st : State p)
      → IsSound p st
      → IsSound p (handle_register p secret now req st).0
  unfolding handle_register legacy_body store_legacy
  handle_register-IsSound secret now req st s =
      let step = λ (key : Value) (text : Text) (k : p.to_string key ≡ some text).
        legacy_by-IsSound st st.registry now text key secret refl k s in
      grind (arith, step)

  pub handle_register_init-IsSound :
      (d : Draw p) (req : Request) (st : State p)
      → IsSound p st
      → IsSound p (handle_register_init p d req st).0
  unfolding handle_register_init init_body store_challenge
  handle_register_init-IsSound d req st s =
      let step = λ (key : Text). store_by-IsSound p st st.registry d key refl s in
      grind (arith, step)

  Outcome-IsSound :
      (v : VerifyDraw p) (req : Request) (st s' : State p) (r : Response)
      → Outcome p v req st s' r
      → IsSound p st
      → IsSound p s'
  unfolding find_challenge store_registration
  Outcome-IsSound v req st s' r (refused e _) s = subst (IsSound p) (sym e) s
  Outcome-IsSound v req st s' r (looked f e _) s =
      subst (IsSound p) (sym e) (find_by-IsSound st st.registry v.now f s)
  Outcome-IsSound v req st s' r (proven f text proof c read printed found expected e _) s =
      subst (IsSound p) (sym e) (
        register_by-IsSound _ _ v f text _ c.public_key refl printed
          (found-Named st st.registry v.now f text c refl printed found s)
          (find_by-IsSound st st.registry v.now f s))

  pub handle_register_verify-IsSound :
      (v : VerifyDraw p) (req : Request) (st : State p)
      → IsSound p st
      → IsSound p (handle_register_verify p v req st).0
  handle_register_verify-IsSound v req st s =
      Outcome-IsSound v req st _ _ (handle_register_verify-Outcome p v req st) s
