-- ===== src/Portal/Client/Lists.antt =====
-- What the pages get for the lists of users, devices and administrators.
use headfwd.Common.{
  ◌≤◌, ◌≡◌, ◌≢◌, ◌↔◌, ◌⊎◌, refl, sym, ap, ◌∙◌, true, false, inl, inr, Option, none, some, Text,
  text_eq, text_eq_iff, arith, codes,
}
use headfwd.Json.{Value, null, arr, nil, member}
use headfwd.Portal.Client.{
  Outcome, done, thrown, Reply, is_empty, receive, Call, list_users, list_nodes, list_admins,
  result, property, or_empty, then_,
}
use headfwd.Portal.Client.Replies.{Delivers, without_content, with_content, receive_done_iff}

-- The property of the reply that has the list.
abbrev pub key_of : Call → Option Text
key_of list_users = some (codes "users")
key_of list_nodes = some (codes "nodes")
key_of list_admins = some (codes "admins")
key_of _ = none

-- The reply arrived with a status from 200 to 299 and with content, whose JSON has a property of
-- this name, and the value is this property; or the property is missing or null, and the value is an
-- empty list.
abbrev pub Content : Reply → Value → Type 0
Content r x =
    (200 ≤ r.status)
    × (r.status ≤ 299)
    × (r.status ≢ 204)
    × (r.content_length ≢ some (codes "0"))
    × (r.json ≡ done x)

pub data Arrives (key : Text) (o : Outcome Reply) (v : Option Value) : Type 0 where
  present :
      (r : Reply) (x y : Value)
      → o ≡ done r
      → Content r x
      → member key x ≡ some (some y)
      → y ≢ null
      → v ≡ some y
      → Arrives key o v
  absent :
      (r : Reply) (x : Value)
      → o ≡ done r
      → Content r x
      → (member key x ≡ some none) ⊎ (member key x ≡ some (some null))
      → v ≡ some (arr nil)
      → Arrives key o v

text_injective : (a b : Text) → some a ≡ some b → a ≡ b
text_injective a b e = cc

injective : (a b : Option Value) → done a ≡ done b → a ≡ b
injective a b e = cc

has_content_of :
    (o : Option Text) (r : Reply)
    → (is_empty (record r { content_length = o }) ≡ false)
      ↔ ((r.status ≢ 204) × (o ≢ some (codes "0")))
unfolding is_empty
has_content_of none r = (λ h. (ground arith, λ e. cc), λ (a, b). ground arith)
has_content_of (some s) r =
    let (same, back) = text_eq_iff s (codes "0") in
    (
      λ h. (ground arith, λ e. ground (arith, h, back (text_injective s (codes "0") e))),
      λ (a, b). ground (arith, λ (e : text_eq s (codes "0") ≡ true). b (ap some (same e))),
    )

has_content :
    (r : Reply) → (is_empty r ≡ false) ↔ ((r.status ≢ 204) × (r.content_length ≢ some (codes "0")))
has_content r = has_content_of r.content_length r

module _ (type_error : Text → Option Value → Text) where
  -- What becomes of the JSON of a reply.
  read : Text → Option Value → Outcome (Option Value)
  read key w = or_empty (property type_error key w)

  by_member : Text → Value → Option (Option Value) → Outcome (Option Value)
  by_member key x none = thrown (some (type_error key (some x)))
  by_member key x (some found) = or_empty (done found)

  read_by_member :
      (key : Text) (x : Value) (m : Option (Option Value))
      → member key x ≡ m
      → read key (some x) ≡ by_member key x m
  unfolding read by_member
  read_by_member key x none e =
      ap
        (λ m.
          or_empty
            (elim m [ none ↦ thrown (some (type_error key (some x))) | some found ↦ done found ]))
        e
  read_by_member key x (some f) e =
      ap
        (λ m.
          or_empty
            (elim m [ none ↦ thrown (some (type_error key (some x))) | some found ↦ done found ]))
        e

  kept : (key : Text) (x y : Value) → y ≢ null → by_member key x (some (some y)) ≡ done (some y)
  unfolding by_member
  kept key x null n = absurd (n refl)
  kept key x y n = refl

  arrives :
      (key : Text) (o : Outcome Reply) (v : Option Value) (r : Reply) (x : Value)
      (m : Option (Option Value))
      → o ≡ done r
      → Content r x
      → member key x ≡ m
      → by_member key x m ≡ done v
      → Arrives key o v
  unfolding by_member
  arrives key o v r x none e c h k = cc
  arrives key o v r x (some none) e c h k = absent r x e c (inl h) (sym (injective _ _ k))
  arrives key o v r x (some (some null)) e c h k = absent r x e c (inr h) (sym (injective _ _ k))
  arrives key o v r x (some (some y)) e c h k =
      present r x y e c h (λ n. cc) (sym (injective _ _ k))

  read_done :
      (key : Text) (o : Outcome Reply) (v w : Option Value)
      → Delivers o w
      → read key w ≡ done v
      → Arrives key o v
  unfolding read
  read_done key o v w (without_content r e lo hi empty same) k = cc
  read_done key o v w (with_content r x e lo hi full json same) k =
      let (other, unzero) = (has_content r).0 full in
      arrives key o v r x (member key x) e (lo, hi, other, unzero, json) refl
        (sym (read_by_member key x (member key x) refl) ∙ ap (read key) (sym same) ∙ k)

  -- The function of the API, for a list.
  list_result :
      (c : Call) (key : Text) (o : Outcome (Option Value))
      → key_of c ≡ some key
      → result type_error c o ≡ or_empty (then_ o (property type_error key))
  unfolding result
  list_result list_users key o e =
      ap (λ k. or_empty (then_ o (property type_error k))) (text_injective _ _ e)
  list_result list_nodes key o e =
      ap (λ k. or_empty (then_ o (property type_error k))) (text_injective _ _ e)
  list_result list_admins key o e =
      ap (λ k. or_empty (then_ o (property type_error k))) (text_injective _ _ e)
  list_result _ key o e = cc

  of_received :
      (key : Text) (o : Outcome Reply) (v : Option Value) (received : Outcome (Option Value))
      → receive o ≡ received
      → or_empty (then_ received (property type_error key)) ≡ done v
      → Arrives key o v
  unfolding read
  of_received key o v (done w) e h = read_done key o v w ((receive_done_iff o w).0 e) h
  of_received key o v (thrown m) e h = cc

  received_content :
      (o : Outcome Reply) (r : Reply) (x : Value)
      → o ≡ done r
      → Content r x
      → receive o ≡ done (some x)
  received_content o r x e (lo, hi, other, unzero, json) =
      (receive_done_iff o (some x)).1
        (with_content r x e lo hi ((has_content r).1 (other, unzero)) json refl)

  gives :
      (key : Text) (o : Outcome Reply) (v : Option Value)
      → Arrives key o v
      → or_empty (then_ (receive o) (property type_error key)) ≡ done v
  unfolding read by_member
  gives key o v (present r x y e content found set same) =
      ap (λ w. or_empty (then_ w (property type_error key))) (received_content o r x e content)
      ∙ read_by_member key x (some (some y)) found
      ∙ kept key x y set
      ∙ ap done (sym same)
  gives key o v (absent r x e content missing same) =
      ap (λ w. or_empty (then_ w (property type_error key))) (received_content o r x e content)
      ∙ by_missing missing
      ∙ ap done (sym same)
    where
      by_missing :
          (member key x ≡ some none) ⊎ (member key x ≡ some (some null))
          → read key (some x) ≡ done (some (arr nil))
      by_missing (inl h) = read_by_member key x (some none) h
      by_missing (inr h) = read_by_member key x (some (some null)) h

  -- A page gets a list of users, devices or administrators exactly where the request gave a reply
  -- with a status from 200 to 299 that has content (the status is not 204 and the length is not
  -- given as 0) and whose JSON can be read and is not null: the property that has the list, or an
  -- empty list where this is missing or null. Everything else reaches the page as an exception.
  pub lists_arrive_iff :
      (c : Call) (key : Text) (o : Outcome Reply) (v : Option Value)
      → key_of c ≡ some key
      → (result type_error c (receive o) ≡ done v) ↔ Arrives key o v
  lists_arrive_iff c key o v e = (
    λ h. of_received key o v (receive o) refl (sym (list_result c key (receive o) e) ∙ h),
    λ a. list_result c key (receive o) e ∙ gives key o v a,
  )
