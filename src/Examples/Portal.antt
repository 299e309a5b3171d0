-- ===== src/Examples/Portal.antt =====
-- The calls of the portal, its frame and its countdown.
use headfwd.Common.{
  length, ap, ◌≡◌, ◌↔◌, refl, true, false, none, some, List, [], ◌∷◌, codes, text_eq, arith,
}
use headfwd.Portal.Client.{
  Reply, HelloResponse, MeResponse, done, receive, delete_user, hello, me, Sent, sent, requested,
  result, list_users,
}
use headfwd.Portal.Client.Lists.{Arrives, lists_arrive_iff}
use headfwd.Portal.Client.Paths.{IsCall}
use headfwd.Portal.Client.Requests.{IsItem, requested_injective}
use headfwd.Portal.Url.{parse_path}
use headfwd.Json.{null, arr, nil, obj, field, end}
use headfwd.Portal.Uri.{encode_uri_component}
use headfwd.Portal.Countdown.{remaining}
use headfwd.Portal.Countdown.Label.{Shows, remaining-Shows}
use headfwd.Portal.Layout.{new_layout, hello_ends, me_ends, badge_clicked, run, main, children}
use headfwd.Portal.App
use headfwd.Portal.App.Admission.{outsider_sends_nothing}
use headfwd.Portal.Users.Steps
use headfwd.Portal.Layout.Access.{children_iff, first_me, admits}

-- A user whose name has a slash is deleted.
abbrev deletion : Sent
deletion = record { method = codes "DELETE"; path = codes "/api/users/a%2Fb"; body = none }

slash-IsCall : IsCall (delete_user (codes "a/b"))
slash-IsCall = (omega arith, (omega arith, (omega arith, tt)))

slash-IsItem : IsItem (codes "a/b")
slash-IsItem = (λ e. absurd (omega (arith, ap length e)), λ e. absurd (omega (arith, ap length e)))

requested_injective_example : delete_user (codes "a/b") ≡ delete_user (codes "a/b")
unfolding requested sent encode_uri_component parse_path text_eq
requested_injective_example =
    requested_injective (delete_user (codes "a/b")) (delete_user (codes "a/b")) deletion
      slash-IsCall slash-IsCall slash-IsItem slash-IsItem refl refl

-- A list of users that is null.
abbrev no_users : Reply
no_users = record {
  status = 200;
  content_length = some (codes "14");
  text = done [];
  json = done (obj (field (codes "users") null end));
}

lists_arrive_iff_example :
    (result (λ k v. k) list_users (receive (done no_users)) ≡ done (some (arr nil)))
    ↔ Arrives (codes "users") (done no_users) (some (arr nil))
lists_arrive_iff_example =
    lists_arrive_iff (λ k v. k) list_users (codes "users") (done no_users) (some (arr nil)) refl

-- An administrator opens the portal over the tailnet.
abbrev admin : MeResponse
admin = record { user_name = codes "ann"; is_admin = true; is_local_access = false }

abbrev over_tailnet : HelloResponse
over_tailnet = record {
  message = codes "hello";
  your_ip = codes "100.64.0.7";
  is_tailnet = true;
  timestamp = codes "now";
  node_name = some (codes "phone");
  user_name = some (codes "ann");
}

children_iff_example :
    (main (
        run new_layout (
          hello_ends (done (some over_tailnet)) ∷ badge_clicked ∷ me_ends (done (some admin)) ∷ []))
      ≡ children)
    ↔ (admits (
          first_me (
            hello_ends (done (some over_tailnet))
            ∷ badge_clicked
            ∷ me_ends (done (some admin))
            ∷ []))
        ≡ true)
children_iff_example =
    children_iff
      (hello_ends (done (some over_tailnet)) ∷ badge_clicked ∷ me_ends (done (some admin)) ∷ [])

remaining-Shows_example : Shows 3600000 3000500 (remaining 3600000 3000500)
remaining-Shows_example = remaining-Shows 3600000 3000500

-- Someone who is no administrator opens the portal, and a page that is not there is clicked.
abbrev visits : List App.Event
visits =
    App.in_layout (me_ends (done (some (record admin { is_admin = false }))))
    ∷ App.in_users (Steps.regenerated (codes "ann"))
    ∷ App.in_layout (hello_ends (done (some over_tailnet)))
    ∷ []

outsider_sends_nothing_example : App.calls (App.run App.new_app visits) ≡ hello ∷ me ∷ []
outsider_sends_nothing_example = outsider_sends_nothing visits refl
