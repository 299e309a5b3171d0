-- ===== src/Registration/Stored.antt =====
-- What the namespace holds: predicates on all its entries, and how `put` and `delete` keep them.
use headfwd.Common.{
  ℕ, ◌+◌, ◌*◌, ◌≡◌, sym, ap, ◌∙◌, ◌≢◌, inl, inr, Option, some, Text, text_cases, text_eq,
  text_eq_iff, false, arith, codes,
}
use mathlib.Core.Path.{subst}
use native.Mathlib.Decide.{dec_lt}
use headfwd.Json.{Value, member}
use headfwd.Platform.{Platform}
use headfwd.Registration.State.{challenge_key, tunnel_key, compute_fingerprint}
use headfwd.Registration.Keys.{
  challenge-ne-tunnel_key, tunnel-ne-challenge_key, tunnel_key-injective, challenge_key-injective,
}

ne_of_test : (s t : Text) → text_eq s t ≡ false → s ≢ t
ne_of_test s t h e = ground (arith, text_eq_iff s t)

module _ (p : Platform) where
  abbrev pub AllStored : (Text → p.Json → Type 0) → p.Store → Type 0
  AllStored Q kv = (t : ℕ) (k : Text) (j : p.Json) → p.get kv t k ≡ some j → Q k j

  module _ (Q : Text → p.Json → Type 0) (kv : p.Store) (old : AllStored Q kv) where
    pub put-AllStored :
        (now : ℕ) (k : Text) (j : p.Json) (ttl : ℕ) → Q k j → AllStored Q (p.put kv now k j ttl)
    put-AllStored now k j ttl q t k' j' e = elim (text_cases k k') [
      | inl (same, _) ↦ elim (dec_lt t (now + ttl * 1000)) [
        | yes live ↦
            let e' = ap (p.get (p.put kv now k j ttl) t) same ∙ e in
            let read : j ≡ j' = cc (p.get-put_live kv now t k j ttl live, e') in
            subst (λ x. Q x j') same (subst (Q k) read q)
        | no late ↦
            let e' = ap (p.get (p.put kv now k j ttl) t) same ∙ e in
            cc (e', p.get-put_expired kv now t k j ttl (omega arith))
      ]
      | inr differ ↦
          old t k' j' (sym (p.get-put_ne kv now t k k' j ttl (ne_of_test k k' differ)) ∙ e)
    ]

    pub delete-AllStored : (k : Text) → AllStored Q (p.delete kv k)
    delete-AllStored k t k' j' e = elim (text_cases k k') [
      | inl (same, _) ↦
          let e' = ap (p.get (p.delete kv k) t) same ∙ e in cc (e', p.get-delete_self kv t k)
      | inr differ ↦ old t k' j' (sym (p.get-delete_ne kv t k k' (ne_of_test k k' differ)) ∙ e)
    ]

  -- The public key hashes to the fingerprint.
  pub record Named (f : Text) (key : Option Value) : Type 0 where
    pub value : Value
    pub text : Text
    pub present : key ≡ some value
    pub printed : p.to_string value ≡ some text
    pub hashed : compute_fingerprint p text ≡ f

  -- So does the one in a stored text.
  pub record Names (f : Text) (j : p.Json) : Type 0 where
    pub parsed : Value
    pub key : Option Value
    pub parses : p.parse j ≡ some parsed
    pub has_key : member (codes "publicKey") parsed ≡ some key
    pub named : Named f key

  -- An entry for a fingerprint, of either kind, holds a public key with that fingerprint.
  pub record IsNamed (k : Text) (j : p.Json) : Type 0 where
    pub tunnel : (f : Text) → k ≡ tunnel_key f → Names f j
    pub challenge : (f : Text) → k ≡ challenge_key f → Names f j

  pub tunnel-IsNamed : (f : Text) (j : p.Json) → Names f j → IsNamed (tunnel_key f) j
  tunnel-IsNamed f j n = record {
    tunnel = λ g e. subst (λ h. Names h j) (tunnel_key-injective f g e) n;
    challenge = λ g e. absurd (tunnel-ne-challenge_key f g e);
  }

  pub challenge-IsNamed : (f : Text) (j : p.Json) → Names f j → IsNamed (challenge_key f) j
  challenge-IsNamed f j n = record {
    tunnel = λ g e. absurd (challenge-ne-tunnel_key f g e);
    challenge = λ g e. subst (λ h. Names h j) (challenge_key-injective f g e) n;
  }
