-- ===== src/Node/Changes.antt =====
-- The update methods of src/veluxnode.rs: what they report, and what they leave alone.
use velux2mqtt.Response.Nodes.{
  NodeInformationChanged, NodeStatePosition, StatusNotification, StatusNotificationDetail, main,
  CommandRunStatus,
}
use mathlib.Core.Bool.{false≢true}
use velux2mqtt.Node.Cover.{StatusSource, CoverEndpoint, Availability, available, unavailable}
use velux2mqtt.Prelude.{
  false, ◌↔◌, ◌≡◌, Bool, if_cases, refl, if◌then◌else◌, if_both, sym, true, ◌∙◌, ap, ◌&&◌, ◌==◌, ℕ,
}
use velux2mqtt.Node.State.{
  differs, VeluxNode, VeluxNode-discrete, is_no, changed, apply_information_changed,
  apply_state_position, apply_status_detail, apply_status, apply_run_status, mark_status_unknown,
  mark_command_accepted, set_available, availability_eq, apply_command_confirmation,
}
use velux2mqtt.Response.States.{RunStatus}
use velux2mqtt.Response.{Response, command_accepted}

true-false {ℓ} : {A : Type ℓ} → true ≡ false → A
true-false e = absurd (false≢true (sym e))

availability_eq_self : (a : Availability) → availability_eq a a ≡ true
availability_eq_self available = refl
availability_eq_self unavailable = refl

is_no_iff {ℓ} : {A : Type ℓ} (d : Dec A) → (is_no d ≡ false) ↔ A
unfolding is_no
is_no_iff (yes a) = (λ _. a, λ _. refl)
is_no_iff (no na) = (λ e. true-false e, λ a. absurd (na a))

pub differs-false_iff : (a b : VeluxNode) → (differs a b ≡ false) ↔ (a ≡ b)
unfolding differs
differs-false_iff a b = is_no_iff (VeluxNode-discrete a b)

-- An update of a node: it keeps what identifies the node, and it reports no change exactly when the
-- node is as before.
pub record IsUpdate (node : VeluxNode) (result : VeluxNode × Bool) : Type 0 where
  pub reports : (result.1 ≡ false) ↔ (result.0 ≡ node)
  pub id-keeps : result.0.id ≡ node.id
  pub actuator_type-keeps : result.0.actuator_type ≡ node.actuator_type
  pub cover_strategy-keeps : result.0.cover_strategy ≡ node.cover_strategy

-- An update that leaves the node.
unchanged-IsUpdate : (node : VeluxNode) → IsUpdate node (node, false)
unchanged-IsUpdate node = record {
  reports = (λ _. refl, λ _. refl);
  id-keeps = refl;
  actuator_type-keeps = refl;
  cover_strategy-keeps = refl;
}

-- An update that rewrites it.
changed-IsUpdate :
    (node next : VeluxNode)
    → next.id ≡ node.id
    → next.actuator_type ≡ node.actuator_type
    → next.cover_strategy ≡ node.cover_strategy
    → IsUpdate node (changed node next)
changed-IsUpdate node next i a c = record {
  reports = differs-false_iff next node;
  id-keeps = i;
  actuator_type-keeps = a;
  cover_strategy-keeps = c;
}

-- An update behind a guard.
guarded-IsUpdate :
    (guard : Bool) (node : VeluxNode) (result : VeluxNode × Bool)
    → IsUpdate node result
    → IsUpdate node (if guard then (node, false) else result)
guarded-IsUpdate guard node result h = if_both (IsUpdate node) guard (unchanged-IsUpdate node) h

pub apply_information_changed-IsUpdate :
    (node : VeluxNode) (information : NodeInformationChanged)
    → IsUpdate node (apply_information_changed node information)
unfolding apply_information_changed
apply_information_changed-IsUpdate node information =
    guarded-IsUpdate _ node _ (changed-IsUpdate node _ refl refl refl)

pub apply_state_position-IsUpdate :
    (node : VeluxNode) (report : NodeStatePosition) (source : StatusSource)
    → IsUpdate node (apply_state_position node report source)
unfolding apply_state_position
apply_state_position-IsUpdate node report source =
    guarded-IsUpdate _ node _ (changed-IsUpdate node _ refl refl refl)

apply_status_detail-IsUpdate :
    (node : VeluxNode) (r : RunStatus) (source : StatusSource) (d : StatusNotificationDetail)
    → IsUpdate node (apply_status_detail node r source d)
unfolding apply_status_detail
apply_status_detail-IsUpdate node r source (main _ _ _ _ _) = changed-IsUpdate node _ refl refl refl
apply_status_detail-IsUpdate node r source _ = unchanged-IsUpdate node

pub apply_status-IsUpdate :
    (node : VeluxNode) (status : StatusNotification) (source : StatusSource)
    → IsUpdate node (apply_status node status source)
unfolding apply_status
apply_status-IsUpdate node status source =
    guarded-IsUpdate _ node _
      (apply_status_detail-IsUpdate node status.run_status source status.detail)

pub apply_run_status-IsUpdate :
    (node : VeluxNode) (status : CommandRunStatus) → IsUpdate node (apply_run_status node status)
unfolding apply_run_status
apply_run_status-IsUpdate node status =
    guarded-IsUpdate _ node _ (changed-IsUpdate node _ refl refl refl)

pub mark_status_unknown-IsUpdate : (node : VeluxNode) → IsUpdate node (mark_status_unknown node)
unfolding mark_status_unknown
mark_status_unknown-IsUpdate node = changed-IsUpdate node _ refl refl refl

pub mark_command_accepted-IsUpdate :
    (node : VeluxNode) (endpoint : CoverEndpoint)
    → IsUpdate node (mark_command_accepted node endpoint)
unfolding mark_command_accepted
mark_command_accepted-IsUpdate node endpoint = changed-IsUpdate node _ refl refl refl

-- A node that keeps its availability does not fail the test on it.
availability_eq_apart :
    {node : VeluxNode} {a : Availability}
    → record node { availability = a } ≡ node
    → availability_eq node.availability a ≡ false
    → true ≡ false
availability_eq_apart {node} {a} e h =
    sym (availability_eq_self a) ∙ ap (λ n. availability_eq (VeluxNode.availability n) a) e ∙ h

pub set_available-IsUpdate : (node : VeluxNode) (b : Bool) → IsUpdate node (set_available node b)
unfolding set_available
set_available-IsUpdate node b =
    if_cases (IsUpdate node)
      (availability_eq node.availability (if b then available else unavailable))
      (λ _. unchanged-IsUpdate node)
      (λ h. record {
        reports = (λ e. true-false e, λ e. availability_eq_apart e h);
        id-keeps = refl;
        actuator_type-keeps = refl;
        cover_strategy-keeps = refl;
      })

-- A confirmation changes the node only when it accepts the command of this session.
pub apply_command_confirmation-IsUpdate :
    (node : VeluxNode) (response : Response) (session_id : ℕ) (endpoint : CoverEndpoint)
    → IsUpdate node (apply_command_confirmation node response session_id endpoint)
unfolding apply_command_confirmation
apply_command_confirmation-IsUpdate node (command_accepted confirmed s) session_id endpoint =
    if_both (IsUpdate node) (s == 1 && confirmed == session_id)
      (mark_command_accepted-IsUpdate node endpoint) (unchanged-IsUpdate node)
apply_command_confirmation-IsUpdate node _ session_id endpoint = unchanged-IsUpdate node

-- Each update method, whatever it is told, makes an update of the node.
pub record IsUpdatedBy (node : VeluxNode) : Type 0 where
  pub by_information :
      (information : NodeInformationChanged)
      → IsUpdate node (apply_information_changed node information)
  pub by_position :
      (report : NodeStatePosition) (source : StatusSource)
      → IsUpdate node (apply_state_position node report source)
  pub by_status :
      (status : StatusNotification) (source : StatusSource)
      → IsUpdate node (apply_status node status source)
  pub by_run_status : (status : CommandRunStatus) → IsUpdate node (apply_run_status node status)
  pub by_confirmation :
      (response : Response) (session_id : ℕ) (endpoint : CoverEndpoint)
      → IsUpdate node (apply_command_confirmation node response session_id endpoint)
  pub by_availability : (b : Bool) → IsUpdate node (set_available node b)
  pub by_unknown : IsUpdate node (mark_status_unknown node)

-- Every update method of a node reports `false` exactly if the node is as before, and keeps its
-- id, its actuator type and its strategy.
pub updates-IsUpdate : (node : VeluxNode) → IsUpdatedBy node
updates-IsUpdate node = record {
  by_information = apply_information_changed-IsUpdate node;
  by_position = apply_state_position-IsUpdate node;
  by_status = apply_status-IsUpdate node;
  by_run_status = apply_run_status-IsUpdate node;
  by_confirmation = apply_command_confirmation-IsUpdate node;
  by_availability = set_available-IsUpdate node;
  by_unknown = mark_status_unknown-IsUpdate node;
}
