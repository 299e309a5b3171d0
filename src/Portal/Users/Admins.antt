-- ===== src/Portal/Users/Admins.antt =====
-- The rows of the page and the rights of administrators.
use headfwd.Common.{
  ◌≡◌, refl, false, ◌⊎◌, if_both, text_eq_iff, Option, [], ◌∷◌, Text, text_eq, text_eq_refl,
  is_none, Bool-cases, inl, inr, arith,
}
use headfwd.Portal.Client.{User}
use headfwd.Portal.Layout.{CurrentUser}
use headfwd.Portal.Users.{Users}
use headfwd.Portal.Users.Page.{row}
use headfwd.Portal.UserRow.{UserRow, badge_disabled_reason}
use headfwd.Portal.UserRow.View.{open_admin, clickable}
use headfwd.Portal.UserRow.Guards.{clickable-open_admin}

last_admin_disabled :
    (me : CurrentUser) (s : Users) (u : User)
    → s.admin_names ≡ u.name ∷ []
    → is_none (badge_disabled_reason (row me s u).props) ≡ false
unfolding row badge_disabled_reason
last_admin_disabled me s u e = rw e (
    rw (text_eq_refl u.name) (
      if_both (λ (o : Option Text). is_none o ≡ false) (text_eq u.name me.user_name) _ _ refl refl))

self_disabled :
    (me : CurrentUser) (s : Users) (u : User)
    → u.name ≡ me.user_name
    → is_none (badge_disabled_reason (row me s u).props) ≡ false
unfolding row badge_disabled_reason
self_disabled me s u e = rw ((text_eq_iff u.name me.user_name).1 e) refl

-- A row that the page shows never lets a click open the question about the rights of the only
-- administrator, nor that about the user's own rights.
pub own_and_last_rights_are_safe :
    (me : CurrentUser) (s : Users) (u : User) (r : UserRow)
    → (s.admin_names ≡ u.name ∷ []) ⊎ (u.name ≡ me.user_name)
    → clickable (row me s u).props r open_admin ≡ false
own_and_last_rights_are_safe me s u r e =
    elim (Bool-cases (clickable (row me s u).props r open_admin)) [
      | inl h ↦
          let (_, _, free) = clickable-open_admin (row me s u).props r h in
          elim e [
            | inl last ↦ absurd (ground (arith, free, last_admin_disabled me s u last))
            | inr self ↦ absurd (ground (arith, free, self_disabled me s u self))
          ]
      | inr h ↦ h
    ]
