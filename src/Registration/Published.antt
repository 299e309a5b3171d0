-- ===== src/Registration/Published.antt =====
-- The addresses that the reply to a registration names.
use headfwd.Common.{◌≡◌, sym, ap, ◌∙◌, false, Option, none, some, ◌++◌, Text, codes, text_eq, ◌>>=◌}
use mathlib.Core.List.{append_assoc}
use mathlib.Core.Path.{subst}
use headfwd.Fingerprint.{domain, extract_fingerprint}
use headfwd.Fingerprint.Hosts.{extract_fingerprint-domain}
use headfwd.Hex.{generate_secret}
use headfwd.Json.{Value, str, member, as_string}
use headfwd.Http.{Request, Response, Content, json}
use headfwd.Platform.{Platform}
use headfwd.Registration.State.{
  State, compute_fingerprint, is_local, public_url, tunnel_url, registered,
}
use headfwd.Registration.Keys.{compute_fingerprint-IsFingerprint}
use headfwd.Registration.Verify.{VerifyDraw, read_fields, handle_register_verify}
use headfwd.Registration.Outcome.{Outcome, refused, looked, proven, handle_register_verify-Outcome}

-- The text under a name in a JSON body.
abbrev in_body : Text → Content → Option Text
in_body k (json v) = member k v >>= λ found. as_string found
in_body k _ = none

abbrev pub address : Text → Response → Option Text
address k r = in_body k r.content

dotted : (f : Text) → f ++ codes "." ++ codes "headfwd.net" ≡ f ++ domain
dotted f = append_assoc f (codes ".") (codes "headfwd.net")

public_address : (f : Text) → public_url false f ≡ codes "https://" ++ (f ++ domain)
public_address f = ap (λ x. codes "https://" ++ x) (dotted f)

tunnel_address :
    (f secret : Text)
    → tunnel_url false f secret
      ≡ codes "wss://" ++ ((f ++ domain) ++ (codes "/tunnel?auth=" ++ secret))
tunnel_address f secret =
    ap (λ x. codes "wss://" ++ x)
      (append_assoc (f ++ codes "." ++ codes "headfwd.net") (codes "/tunnel?auth=") secret
        ∙ ap (λ x. x ++ (codes "/tunnel?auth=" ++ secret)) (dotted f))

module _ (req : Request) (remote : is_local req.hostname ≡ false) (f : Text) (v : Value)
    (secret : Text) where
  names_public :
      address (codes "publicUrl") (registered req v f secret)
      ≡ some (codes "https://" ++ (f ++ domain))
  unfolding registered member text_eq
  names_public = ap (λ b. some (public_url b f)) remote ∙ ap some (public_address f)

  names_tunnel :
      address (codes "tunnelUrl") (registered req v f secret)
      ≡ some (codes "wss://" ++ ((f ++ domain) ++ (codes "/tunnel?auth=" ++ secret)))
  unfolding registered member text_eq
  names_tunnel = ap (λ b. some (tunnel_url b f secret)) remote ∙ ap some (tunnel_address f secret)

-- A reply names a host: as the public address, and with the secret as that of the tunnel.
pub record Names (r : Response) (host secret : Text) : Type 0 where
  pub public : address (codes "publicUrl") r ≡ some (codes "https://" ++ host)
  pub tunnel :
      address (codes "tunnelUrl") r
      ≡ some (codes "wss://" ++ (host ++ (codes "/tunnel?auth=" ++ secret)))

module _ (p : Platform) (v : VerifyDraw p) (req : Request) (st : State p) (key : Text) (g : Value)
    (remote : is_local req.hostname ≡ false)
    (read : read_fields p req ≡ some (some (str (compute_fingerprint p key)), some g)) where
  by_outcome :
      (s : State p) (r : Response)
      → r.status ≡ 200
      → Outcome p v req st s r
      → Names r (compute_fingerprint p key ++ domain) (generate_secret v.secret_bytes)
  by_outcome s r ok (refused _ bad) = absurd (bad ok)
  by_outcome s r ok (looked _ _ bad) = absurd (bad ok)
  by_outcome s r ok (proven posted text proof c read' printed _ _ _ replied) =
      let f : Text = compute_fingerprint p key in
      let same : posted ≡ str f = cc in
      let named : text ≡ f = cc (printed, same, p.to_string-str f) in
      subst (λ x. Names x (f ++ domain) (generate_secret v.secret_bytes)) (sym replied)
        (subst
          (λ x.
            Names (registered req posted x (generate_secret v.secret_bytes)) (f ++ domain)
              (generate_secret v.secret_bytes))
          (sym named)
          (record {
            public = names_public req remote f posted _;
            tunnel = names_tunnel req remote f posted _;
          }))

  -- Where a request to a host that is not local is registered for the fingerprint of a public key,
  -- the reply names one host in its public address and, with the drawn secret, in that of the
  -- tunnel, and this host name leads back to the fingerprint.
  pub registered_host :
      (handle_register_verify p v req st).1.status ≡ 200
      → (host : Text) × Names
          (handle_register_verify p v req st).1
          host
          (generate_secret v.secret_bytes)
        × (extract_fingerprint host ≡ some (compute_fingerprint p key))
  registered_host ok = (
    compute_fingerprint p key ++ domain,
    by_outcome _ _ ok (handle_register_verify-Outcome p v req st),
    extract_fingerprint-domain (compute_fingerprint p key)
        (compute_fingerprint-IsFingerprint p key),
  )
