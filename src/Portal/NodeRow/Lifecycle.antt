-- ===== src/Portal/NodeRow/Lifecycle.antt =====
-- The deletion of a device as its reader sees it: four phases, and what is done between them.
use headfwd.Common.{Option, ℕ, zero, suc, ◌≡◌, Bool, true, false, List, [], ◌∷◌, ◌++◌, Text}
use headfwd.Portal.Client.{done, thrown, delete_node}
use headfwd.Portal.NodeRow.{
  Props, NodeRow, Output, called, reports_deleted, open_delete, delete_yes, delete_no, Event,
  clicked, delete_ends,
}

pub data Phase : Type 0 where
  idle asking waiting deleted : Phase

-- Each event with what it does: a call is made only on a confirmation, for the device that the row
-- then shows, a report only when the call has succeeded, and after that nothing happens any more.
pub data Next : Event → Phase → List Output → Phase → Type 0 where
  ask : {p : Props} → Next (clicked p open_delete) idle [] asking
  answer_no : {p : Props} → Next (clicked p delete_no) asking [] idle
  answer_yes :
      {p : Props} → Next (clicked p delete_yes) asking (called (delete_node p.node.id) ∷ []) waiting
  failed : {m : Option Text} → Next (delete_ends (thrown m)) waiting [] idle
  succeeded : {x : Unit {0}} → Next (delete_ends (done x)) waiting (reports_deleted ∷ []) deleted
  stay : {e : Event} {p : Phase} → Next e p [] p

abbrev pub phase_of : ℕ → Bool → Bool → Phase
phase_of (suc n) deleting confirm = waiting
phase_of zero true confirm = deleted
phase_of zero false true = asking
phase_of zero false false = idle

abbrev pub phase : NodeRow → Phase
phase r = phase_of r.in_flight r.deleting r.confirm_delete

-- A step of a row does what one step of the lifecycle does.
pub record Follows (e : Event) (r r' : NodeRow) : Type 0 where
  pub doing : List Output
  pub done_more : r'.outputs ≡ r.outputs ++ doing
  pub moved : Next e (phase r) doing (phase r')
