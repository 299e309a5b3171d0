-- ===== src/Portal/Panel.antt =====
-- `OnboardPanel` and `KeyField` of headfwd-sidecar/portal/frontend/src/components/Users.tsx. Its
-- countdown is given: whether the key has expired and the label. The timers fire as events.
pub mod Polls
pub mod Buttons
use headfwd.Common.{
  ℕ, zero, suc, ◌-◌, Bool, true, false, ◌&&◌, ◌||◌, not, Option, none, some, List, [], ◌∷◌, ◌++◌,
  Text, codes, text_eq, ◌==◌, is_some, if◌then◌else◌,
}
use headfwd.Portal.Client.{User, Node, CreateKeyResponse, Outcome, done, thrown, Call, list_nodes}
use headfwd.Portal.Countdown.{Countdown}
use headfwd.Portal.Widgets.{Widget, text, badge, hint, button, when, offers}

pub record Props : Type 0 where
  pub key_data : Option CreateKeyResponse
  pub loading : Bool
  pub user_name : Text
  pub current_node_ids : List Text
  pub countdown : Countdown

pub data Output : Type 0 where
  called : Call → Output
  copied_text : Text → Output
  reports_registered asks_regenerate asks_cancel : Output

-- `baseline_ids` is set once the panel has been rendered; `polling` says whether the interval runs.
pub record Panel : Type 0 where
  pub copied : Bool
  pub baseline_ids : Option (List Text)
  pub polling : Bool
  pub polls_in_flight : ℕ
  pub copy_timers : ℕ
  pub outputs : List Output

unfoldable pub new_panel : Panel
new_panel = record {
  copied = false;
  baseline_ids = none;
  polling = false;
  polls_in_flight = 0;
  copy_timers = 0;
  outputs = [];
}

abbrev pub emit : Output → Panel → Panel
emit o s = record s { outputs = s.outputs ++ o ∷ [] }

abbrev pub or_current : Option (List Text) → List Text → List Text
or_current none ids = ids
or_current (some base) ids = base

-- A rendering, and the effect after it.
unfoldable pub render : Props → Panel → Panel
render p s = record s {
  baseline_ids = some (or_current s.baseline_ids p.current_node_ids);
  polling = is_some p.key_data && not p.countdown.expired;
}

abbrev pub has_id : List Text → Text → Bool
has_id [] id = false
has_id (x ∷ xs) id = text_eq x id || has_id xs id

abbrev pub of_user : Text → Option User → Bool
of_user name none = false
of_user name (some u) = text_eq u.name name

abbrev pub is_new : Text → List Text → Node → Bool
is_new name base n = of_user name n.user && not (has_id base n.id)

-- `nodes.find(…)`.
unfoldable pub find_new : Text → List Text → List Node → Option Node
find_new name base [] = none
find_new name base (n ∷ ns) = if is_new name base n then some n else find_new name base ns

-- The body of the interval, up to its `await`, and its rest.
unfoldable pub poll : Panel → Panel
poll s = emit (called list_nodes) (record s { polls_in_flight = suc s.polls_in_flight })

abbrev report_if : Option Node → Panel → Panel
report_if none s = s
report_if (some n) s = emit reports_registered s

unfoldable pub poll_settled : Text → Outcome (List Node) → Panel → Panel
unfolding find_new
poll_settled name (done nodes) s =
    report_if (find_new name (or_current s.baseline_ids []) nodes)
      (record s { polls_in_flight = s.polls_in_flight - 1 })
poll_settled name (thrown m) s = record s { polls_in_flight = s.polls_in_flight - 1 }

-- `copy`, and the timer that it starts.
unfoldable pub copy : Text → Panel → Panel
copy value s =
    emit (copied_text value) (record s { copied = true; copy_timers = suc s.copy_timers })

unfoldable pub copy_timer_ends : Panel → Panel
copy_timer_ends s = record s { copied = false; copy_timers = s.copy_timers - 1 }

pub data Action : Type 0 where
  regenerate cancel copy_key : Action

abbrev code_of : Action → ℕ
code_of regenerate = 0
code_of cancel = 1
code_of copy_key = 2

abbrev pub same_action : Action → Action → Bool
same_action a b = code_of a == code_of b

-- `KeyField`: with a button if it can be copied.
abbrev pub key_field : Text → Text → Option (Action × Bool) → List (Widget Action)
key_field label value none = text label ∷ text value ∷ []
key_field label value (some (a, copied)) =
    text label ∷ text value ∷ button a true (if copied then 0x2713 ∷ [] else codes "Copy") ∷ []

abbrev pub fields : CreateKeyResponse → Countdown → Bool → List (Widget Action)
fields k c copied =
    if c.expired
    then text (codes "Key expired.")
      ∷ button regenerate true (codes "Regenerate?")
      ∷ button cancel true (codes "Cancel")
      ∷ []
    else key_field (codes "Preauth key") k.key (some (copy_key, copied))
      ++ (key_field (codes "Expires in") c.label none
          ++ button regenerate true (codes "Regenerate") ∷ button cancel true (codes "Cancel") ∷ [])

-- The image of the QR code stands as a hint with its data.
abbrev pub key_area : Bool → Option CreateKeyResponse → Countdown → Bool → List (Widget Action)
key_area loading none c copied = []
key_area loading (some k) c copied = when (not loading) (hint k.qr_data ∷ fields k c copied)

unfoldable pub view : Props → Panel → List (Widget Action)
view p s =
    text (codes "New device for " ++ p.user_name)
      ∷ when p.loading (text (codes "Generating key...") ∷ [])
    ++ key_area p.loading p.key_data p.countdown s.copied

unfoldable pub clickable : Props → Panel → Action → Bool
unfolding view
clickable p s a = offers same_action a (view p s)

abbrev key_of : Option CreateKeyResponse → Text
key_of none = []
key_of (some k) = k.key

unfoldable pub press : Props → Action → Panel → Panel
unfolding copy
press p regenerate s = emit asks_regenerate s
press p cancel s = emit asks_cancel s
press p copy_key s = copy (key_of p.key_data) s

pub data Event : Type 0 where
  rendered : Props → Event
  clicked : Props → Action → Event
  interval_fired copy_timer_fired : Event
  poll_ends : Outcome (List Node) → Event

abbrev pub if_waiting : ℕ → Panel → Panel → Panel
if_waiting zero s' s = s
if_waiting (suc n) s' s = s'

-- The user of a panel does not change while it is mounted.
unfoldable pub step : Text → Panel → Event → Panel
unfolding render press poll poll_settled copy_timer_ends
step name s (rendered p) = render p s
step name s (clicked p a) = if clickable p s a then press p a s else s
step name s interval_fired = if s.polling then poll s else s
step name s copy_timer_fired = if_waiting s.copy_timers (copy_timer_ends s) s
step name s (poll_ends o) = if_waiting s.polls_in_flight (poll_settled name o s) s

unfoldable pub run : Text → Panel → List Event → Panel
run name s [] = s
run name s (e ∷ es) = run name (step name s e) es
