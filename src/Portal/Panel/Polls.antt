-- ===== src/Portal/Panel/Polls.antt =====
-- When a panel reports a new device.
use headfwd.Common.{
  ℕ, zero, suc, ◌+◌, ◌<◌, ◌≡◌, refl, ap, ◌∙◌, Bool, false, ◌||◌, Option, none, some, List, [], ◌∷◌,
  ◌++◌, Text, is_some, if◌then◌else◌, if_both, arith,
}
use headfwd.Portal.Client.{Node, done, thrown}
use headfwd.Portal.Panel.{
  Props, Panel, Output, reports_registered, new_panel, render, is_new, find_new, poll, poll_settled,
  report_if, press, clickable, copy, copy_timer_ends, or_current, regenerate, cancel, copy_key,
  Action, Event, rendered, clicked, interval_fired, copy_timer_fired, poll_ends, step, run,
  if_waiting,
}

-- How often a panel has reported one.
abbrev pub count_reports : List Output → ℕ
count_reports [] = 0
count_reports (reports_registered ∷ os) = suc (count_reports os)
count_reports (_ ∷ os) = count_reports os

-- Nothing that a panel does changes the devices that it began with.
press_keeps : (p : Props) (a : Action) (s : Panel) → (press p a s).baseline_ids ≡ s.baseline_ids
unfolding press copy
press_keeps p regenerate s = refl
press_keeps p cancel s = refl
press_keeps p copy_key s = refl

report_keeps : (o : Option Node) (s : Panel) → (report_if o s).baseline_ids ≡ s.baseline_ids
report_keeps none s = refl
report_keeps (some n) s = refl

waiting_keeps :
    (n : ℕ) (s' s : Panel) (base : List Text)
    → s'.baseline_ids ≡ some base
    → s.baseline_ids ≡ some base
    → (if_waiting n s' s).baseline_ids ≡ some base
waiting_keeps zero s' s base h' h = h
waiting_keeps (suc n) s' s base h' h = h'

step_keeps :
    (name : Text) (s : Panel) (e : Event) (base : List Text)
    → s.baseline_ids ≡ some base
    → (step name s e).baseline_ids ≡ some base
unfolding step render poll poll_settled copy_timer_ends
step_keeps name s (rendered p) base h = rw h refl
step_keeps name s (clicked p a) base h =
    if_both (λ (x : Panel). x.baseline_ids ≡ some base) (clickable p s a) _ s
      (press_keeps p a s ∙ h) h
step_keeps name s interval_fired base h =
    if_both (λ (x : Panel). x.baseline_ids ≡ some base) s.polling _ s h h
step_keeps name s copy_timer_fired base h = waiting_keeps s.copy_timers _ s base h h
step_keeps name s (poll_ends (done nodes)) base h =
    waiting_keeps s.polls_in_flight _ s base (report_keeps (find_new name _ nodes) _ ∙ h) h
step_keeps name s (poll_ends (thrown m)) base h = waiting_keeps s.polls_in_flight _ s base h h

run_keeps :
    (name : Text) (es : List Event) (s : Panel) (base : List Text)
    → s.baseline_ids ≡ some base
    → (run name s es).baseline_ids ≡ some base
unfolding run
run_keeps name [] s base h = h
run_keeps name (e ∷ es) s base h =
    run_keeps name es (step name s e) base (step_keeps name s e base h)

-- Whether one of the devices is the user's and not among the given ones.
abbrev pub any_new : Text → List Text → List Node → Bool
any_new name base [] = false
any_new name base (n ∷ ns) = is_new name base n || any_new name base ns

find_new-any_new :
    (name : Text) (base : List Text) (ns : List Node)
    → is_some (find_new name base ns) ≡ any_new name base ns
unfolding find_new
find_new-any_new name base [] = refl
find_new-any_new name base (n ∷ ns) = ground (arith, find_new-any_new name base ns)

count_reports-append :
    (os : List Output) → count_reports (os ++ reports_registered ∷ []) ≡ suc (count_reports os)
count_reports-append [] = refl
count_reports-append (reports_registered ∷ os) = ap suc (count_reports-append os)
count_reports-append (_ ∷ os) = count_reports-append os

count_reports-report_if :
    (o : Option Node) (s : Panel)
    → count_reports (report_if o s).outputs ≡ count_reports s.outputs + (if is_some o then 1 else 0)
count_reports-report_if none s = omega arith
count_reports-report_if (some n) s = omega (arith, count_reports-append s.outputs)

if_waiting-waits : (n : ℕ) (s' s : Panel) → 0 < n → if_waiting n s' s ≡ s'
if_waiting-waits zero s' s h = absurd (omega arith)
if_waiting-waits (suc n) s' s h = refl

settled :
    (name : Text) (s : Panel) (base : List Text) (nodes : List Node)
    → s.baseline_ids ≡ some base
    → 0 < s.polls_in_flight
    → count_reports (step name s (poll_ends (done nodes))).outputs
      ≡ count_reports s.outputs + (if any_new name base nodes then 1 else 0)
unfolding step poll_settled
settled name s base nodes known waits =
    ap (λ (x : Panel). count_reports x.outputs) (if_waiting-waits s.polls_in_flight _ s waits)
    ∙ count_reports-report_if (find_new name (or_current s.baseline_ids []) nodes) _
    ∙ ap
        (λ b.
          count_reports s.outputs
          + (if is_some (find_new name (or_current b []) nodes) then 1 else 0))
        known
    ∙ ap (λ b. count_reports s.outputs + (if b then 1 else 0)) (find_new-any_new name base nodes)

-- In every history of a panel after its first rendering, the end of a request for the devices that
-- waits makes the panel report once if a device of its user is in the reply that was not among the
-- devices of the first rendering, and not at all otherwise.
pub reports_new_devices :
    (name : Text) (p : Props) (es : List Event) (nodes : List Node)
    → 0 < (run name (step name new_panel (rendered p)) es).polls_in_flight
    → count_reports
        (step name
          (run name (step name new_panel (rendered p)) es)
          (poll_ends (done nodes))).outputs
      ≡ count_reports (run name (step name new_panel (rendered p)) es).outputs
        + (if any_new name p.current_node_ids nodes then 1 else 0)
unfolding new_panel render step
reports_new_devices name p es nodes waits =
    settled name (run name (step name new_panel (rendered p)) es) p.current_node_ids nodes
      (run_keeps name es (step name new_panel (rendered p)) p.current_node_ids refl) waits
