-- ===== src/Registration/Outcome.antt =====
-- What the second phase does on every branch.
use headfwd.Common.{
  ℕ, suc, ◌≡◌, refl, sym, ap, ◌∙◌, ◌≢◌, Bool, true, false, inl, inr, Option, none, some, Text,
  length, Bool-cases, >>=-eq-some, not, ◌||◌, if◌then◌else◌, arith,
}
use headfwd.Compare.Correct.{timing_safe_equal_iff}
use headfwd.Hex.{buffer_to_hex, generate_secret, Bytes}
use headfwd.Hex.RoundTrip.{length-buffer_to_hex}
use headfwd.Json.{Value, null, bool, num, str, arr, obj, truthy}
use headfwd.Http.{Request, Response}
use headfwd.Platform.{Platform}
use headfwd.Registration.State.{State, Challenge, registered, caught}
use headfwd.Registration.Verify.{
  VerifyDraw, expected_proof, find_challenge, store_registration, check_proof, same_proof, accept,
  after_lookup, read_fields, with_fields, handle_register_verify, invalid_proof,
}

same_proof-true :
    (v : Value) (e : Text) (n : ℕ) → length e ≡ suc n → same_proof v e ≡ some true → v ≡ str e
unfolding same_proof
same_proof-true null e n l h = cc
same_proof-true (bool b) e n l h = cc
same_proof-true (num k) e n l h = cc
same_proof-true (str s) e n l h = ap str ((timing_safe_equal_iff s e).0 (ground arith))
same_proof-true (arr vs) e n l h = ground arith
same_proof-true (obj fs) e n l h = ground arith

module _ (p : Platform) where
  length-hmac_hex : (key message : Bytes) → length (buffer_to_hex (p.hmac key message)) ≡ 64
  length-hmac_hex key message = omega (
    arith,
    length-buffer_to_hex (p.hmac key message) (p.hmac-IsByte key message),
    p.length-hmac key message,
  )

  length-expected_proof : (c : Challenge) (e : Text) → expected_proof p c ≡ some e → length e ≡ 64
  unfolding expected_proof
  length-expected_proof c e h = grind (arith, length-hmac_hex)

  module _ (v : VerifyDraw p) (req : Request) (st : State p) where
    -- A refusal leaves the state as it was or as the look-up left it. A registration is stored for a
    -- fingerprint for which a challenge is found, on the proof that this challenge expects.
    pub data Outcome (s : State p) (r : Response) : Type 0 where
      refused : s ≡ st → r.status ≢ 200 → Outcome s r
      looked :
          (fingerprint : Value)
          → s ≡ (find_challenge p v.now fingerprint st).0
          → r.status ≢ 200
          → Outcome s r
      proven :
          (fingerprint : Value) (text proof : Text) (c : Challenge)
          → read_fields p req ≡ some (some fingerprint, some (str proof))
          → p.to_string fingerprint ≡ some text
          → (find_challenge p v.now fingerprint st).1 ≡ some (some c)
          → expected_proof p c ≡ some proof
          → s
            ≡ store_registration p v fingerprint text c.public_key
                (generate_secret v.secret_bytes)
                (find_challenge p v.now fingerprint st).0
          → r ≡ registered req fingerprint text (generate_secret v.secret_bytes)
          → Outcome s r

    module _ (f proof : Value) (c : Challenge)
        (read : read_fields p req ≡ some (some f, some proof))
        (found : (find_challenge p v.now f st).1 ≡ some (some c)) where
      abbrev left : State p
      left = (find_challenge p v.now f st).0

      compared :
          (e : Text) (same : Bool) (r : State p × Response)
          → expected_proof p c ≡ some e
          → same_proof proof e ≡ some same
          → (if same then accept p v req f c left else some (left, invalid_proof)) ≡ some r
          → Outcome r.0 r.1
      unfolding accept
      compared e false r he hs k = looked f (ground arith) (λ h. ground arith)
      compared e true r he hs k =
          let (text, ht, done) = >>=-eq-some (p.to_string f) _ k in
          proven f text e c
            (read
              ∙ ap (λ x. some (some f, some x))
                  (same_proof-true proof e 63 (length-expected_proof c e he) hs))
            ht found he (ground arith) (ground arith)

      -- The proof is checked against a challenge that the look-up found.
      checked :
          (o : Option (State p × Response))
          → check_proof p v req f proof c left ≡ o
          → Outcome (caught left o).0 (caught left o).1
      unfolding check_proof
      checked none k = looked f refl (λ e. omega (arith, e))
      checked (some r) k =
          let (e, he, k1) = >>=-eq-some (expected_proof p c) _ k in
          let (same, hs, k2) = >>=-eq-some (same_proof proof e) _ k1 in compared e same r he hs k2

    looked_up :
        (fingerprint proof : Value)
        → read_fields p req ≡ some (some fingerprint, some proof)
        → (s : State p) (o : Option (Option Challenge))
        → s ≡ (find_challenge p v.now fingerprint st).0
        → o ≡ (find_challenge p v.now fingerprint st).1
        → Outcome
            (after_lookup p v req fingerprint proof (s, o)).0
            (after_lookup p v req fingerprint proof (s, o)).1
    unfolding after_lookup
    looked_up f proof read s none es eo = looked f es (λ e. omega (arith, e))
    looked_up f proof read s (some none) es eo = looked f es (λ e. omega (arith, e))
    looked_up f proof read s (some (some c)) es eo = rw es (checked f proof c read (sym eo) _ refl)

    -- Every run of the second phase is a refusal that leaves the state as it was, a refusal that leaves
    -- it as the look-up did, or a registration for a fingerprint for which a challenge is found, on
    -- the proof that this challenge expects.
    pub handle_register_verify-Outcome :
        Outcome (handle_register_verify p v req st).0 (handle_register_verify p v req st).1
    unfolding handle_register_verify with_fields
    handle_register_verify-Outcome = by_fields (read_fields p req) refl
      where
        by_fields :
            (o : Option (Option Value × Option Value))
            → read_fields p req ≡ o
            → Outcome (with_fields p v req st o).0 (with_fields p v req st o).1
        by_fields none e = refused refl (λ e. omega (arith, e))
        by_fields (some (none, g)) e = refused refl (λ e. omega (arith, e))
        by_fields (some (some f, none)) e = refused refl (λ e. omega (arith, e))
        by_fields (some (some f, some g)) e =
            elim (Bool-cases (not (truthy (some f)) || not (truthy (some g)))) [
              | inl missing ↦ rw missing (refused refl (λ e. omega (arith, e)))
              | inr both ↦ rw both (looked_up f g e _ _ refl refl)
            ]
