-- ===== src/Portal/Client/Replies.antt =====
-- Which replies reach the caller as a value.
use headfwd.Common.{
  ◌≤◌, ◌≡◌, ◌≢◌, ◌↔◌, refl, sym, ap, ◌∙◌, Bool, true, false, inl, inr, Option, none, some, Text,
  Bool-cases, arith, codes,
}
use headfwd.Json.{Value, null, arr, nil}
use headfwd.Portal.Client.{
  Outcome, done, thrown, Reply, is_ok, is_empty, receive, Call, list_users, list_nodes, list_admins,
  result, property, or_empty, then_, bad_status, defined,
}

-- The reply arrived with a status from 200 to 299, and the value is `undefined` for a reply without
-- content, or else what its JSON is.
pub data Delivers (o : Outcome Reply) (v : Option Value) : Type 0 where
  without_content :
      (r : Reply)
      → o ≡ done r
      → 200 ≤ r.status
      → r.status ≤ 299
      → is_empty r ≡ true
      → v ≡ none
      → Delivers o v
  with_content :
      (r : Reply) (x : Value)
      → o ≡ done r
      → 200 ≤ r.status
      → r.status ≤ 299
      → is_empty r ≡ false
      → r.json ≡ done x
      → v ≡ some x
      → Delivers o v

-- The branches of `request` for a reply.
module _ (r : Reply) where
  receive-bad : is_ok r.status ≡ false → (m : Option Text) × (receive (done r) ≡ thrown m)
  unfolding receive
  receive-bad bad = rw bad (text_cases r.text)
    where
      text_cases : (o : Outcome Text) → (m : Option Text) × (bad_status r.status o ≡ thrown m)
      text_cases (done s) = (_, refl)
      text_cases (thrown m) = (m, refl)

  receive-empty : is_ok r.status ≡ true → is_empty r ≡ true → receive (done r) ≡ done none
  unfolding receive
  receive-empty ok empty = rw (ok, empty) refl

  receive-full : is_ok r.status ≡ true → is_empty r ≡ false → receive (done r) ≡ defined r.json
  unfolding receive
  receive-full ok full = rw (ok, full) refl

  ok_bounds : is_ok r.status ≡ true → (200 ≤ r.status) × (r.status ≤ 299)
  unfolding is_ok
  ok_bounds ok = ground arith

  bounds_ok : 200 ≤ r.status → r.status ≤ 299 → is_ok r.status ≡ true
  unfolding is_ok
  bounds_ok lo hi = ground arith

defined-done :
    (o : Outcome Value) (v : Option Value)
    → defined o ≡ done v
    → (x : Value) × (o ≡ done x) × (v ≡ some x)
defined-done (done x) v h = (x, refl, ground arith)
defined-done (thrown m) v h = cc

delivers : (o : Outcome Reply) (v : Option Value) → receive o ≡ done v → Delivers o v
delivers (thrown m) v h = unfold receive in cc
delivers (done r) v h = elim (Bool-cases (is_ok r.status)) [
  | inl ok ↦
      let (lo, hi) = ok_bounds r ok in
      elim (Bool-cases (is_empty r)) [
        | inl empty ↦ without_content r refl lo hi empty (ground (arith, receive-empty r ok empty))
        | inr full ↦
            let (x, e, same) = defined-done r.json v (sym (receive-full r ok full) ∙ h) in
            with_content r x refl lo hi full e same
      ]
  | inr bad ↦ let (m, e) = receive-bad r bad in cc
]

delivered : (o : Outcome Reply) (v : Option Value) → Delivers o v → receive o ≡ done v
delivered o v (without_content r e lo hi empty same) =
    rw (e, same) (receive-empty r (bounds_ok r lo hi) empty)
delivered o v (with_content r x e lo hi full read same) =
    rw (e, same) (receive-full r (bounds_ok r lo hi) full ∙ ap defined read)

-- `request` gives a value exactly for these replies; every other one is an exception.
pub receive_done_iff : (o : Outcome Reply) (v : Option Value) → (receive o ≡ done v) ↔ Delivers o v
receive_done_iff o v = (delivers o v, delivered o v)

abbrev pub is_list : Call → Bool
is_list list_users = true
is_list list_nodes = true
is_list list_admins = true
is_list _ = false

module _ (type_error : Text → Option Value → Text) where
  or_empty-done :
      (o : Outcome (Option Value)) (v : Option Value)
      → or_empty o ≡ done v
      → (x : Value) × (v ≡ some x) × (x ≢ null)
  or_empty-done (done none) v h = (arr nil, ground arith, λ e. cc)
  or_empty-done (done (some null)) v h = (arr nil, ground arith, λ e. cc)
  or_empty-done (done (some x)) v h = (x, ground arith, λ e. cc)
  or_empty-done (thrown m) v h = cc

  kept :
      (k : Text) (o : Outcome (Option Value)) (v : Option Value)
      → or_empty (then_ o (property type_error k)) ≡ done v
      → (x : Value) × (o ≢ done none) × (v ≡ some x) × (x ≢ null)
  kept k (done none) v h = cc
  kept k (done (some y)) v h =
      let (x, e, n) = or_empty-done (property type_error k (some y)) v h in (x, (λ e'. cc), e, n)
  kept k (thrown m) v h = cc

  -- The lists of users, devices and admins are never `undefined` or `null`: where the property is
  -- missing or null the caller gets an empty list, and where the reply has no content, an exception.
  pub result-list :
      (c : Call) (o : Outcome (Option Value)) (v : Option Value)
      → is_list c ≡ true
      → result type_error c o ≡ done v
      → (x : Value) × (o ≢ done none) × (v ≡ some x) × (x ≢ null)
  unfolding result
  result-list list_users o v l h = kept (codes "users") o v h
  result-list list_nodes o v l h = kept (codes "nodes") o v h
  result-list list_admins o v l h = kept (codes "admins") o v h
  result-list _ o v l h = cc
