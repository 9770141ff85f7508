-- ===== src/Review.antt =====
-- src/merchant-review/experiment-review.ts: the life of an action that a merchant reviews. A schema
-- that parses gives the record, and the other way the issues that its refinement adds.
mod Tests
pub mod Lifecycle
pub mod Decisions
pub mod Submission
pub mod Preferences
pub mod Events
use data_dyna.Base.{
  String, Option, none, some, List, [], ◌∷◌, ◌++◌, Bool, true, false, not, ◌&&◌, ◌||◌, truthy,
  if◌then◌else◌, any, nat_eq, ◌==◌, nat_beq, ℕ, Eq, ◌↔◌, ◌≡◌, arith, Outcome, ok, thrown,
}
use data_dyna.Contract.{EventName}

pub data ActionLifecycleState : Type 0 where
  suggested drafted accepted rejected applied measured : ActionLifecycleState
  kept reverted extended retest_needed : ActionLifecycleState

-- The place of a state in its declaration, for comparisons.
abbrev state_index : ActionLifecycleState → ℕ
state_index suggested = 0
state_index drafted = 1
state_index accepted = 2
state_index rejected = 3
state_index applied = 4
state_index measured = 5
state_index kept = 6
state_index reverted = 7
state_index extended = 8
state_index retest_needed = 9

abbrev state_beq : ActionLifecycleState → ActionLifecycleState → Bool
state_beq a b = nat_beq (state_index a) (state_index b)

pub state_beq_iff : (a b : ActionLifecycleState) → (state_beq a b ≡ true) ↔ (a ≡ b)
state_beq_iff a b = ground arith

instance abbrev pub state_eq : Eq ActionLifecycleState
state_eq = record { beq = state_beq; beq_iff = state_beq_iff }

-- The table `allowed`.
unfoldable pub allowed : ActionLifecycleState → List ActionLifecycleState
allowed suggested = drafted ∷ []
allowed drafted = accepted ∷ rejected ∷ []
allowed accepted = applied ∷ []
allowed applied = measured ∷ []
allowed measured = kept ∷ reverted ∷ extended ∷ retest_needed ∷ []
allowed _ = []

unfoldable pub can_transition_action_lifecycle : ActionLifecycleState → ActionLifecycleState → Bool
unfolding allowed
can_transition_action_lifecycle from_state to_state = any (λ s. s == to_state) (allowed from_state)

pub data MerchantReviewActorType : Type 0 where
  merchant employee system : MerchantReviewActorType

pub record MerchantReviewActor : Type 0 where
  pub actor_type : MerchantReviewActorType
  pub actor_id : String
  pub display_name : Option String

pub record ActionLifecycleInput : Type 0 where
  pub lifecycle_record_id : String
  pub review_id : String
  pub experiment_plan_id : String
  pub brand_id : String
  pub store_id : String
  pub event_name : Option EventName
  pub occurred_at : String
  pub actor : MerchantReviewActor
  pub from_state : ActionLifecycleState
  pub to_state : ActionLifecycleState
  pub acceptance_decision_id : Option String
  pub rollback_ref : Option String
  pub evidence_refs : List String

-- The issues of the refinement of `ActionLifecycleRecordSchema`, by their place.
pub data LifecycleIssue : Type 0 where
  invalid_transition missing_acceptance missing_rollback : LifecycleIssue
  wrong_applied_event wrong_reverted_event : LifecycleIssue

abbrev pub is_applied_event : Option EventName → Bool
is_applied_event (some EventName.experiment_applied_recorded) = true
is_applied_event _ = false

abbrev pub is_reverted_event : Option EventName → Bool
is_reverted_event (some EventName.experiment_reverted_recorded) = true
is_reverted_event _ = false

abbrev pub issue_if : Bool → LifecycleIssue → List LifecycleIssue
issue_if b i = if b then i ∷ [] else []

-- The five tests of the refinement.
unfoldable pub moves_wrongly : ActionLifecycleInput → Bool
unfolding can_transition_action_lifecycle
moves_wrongly r = not (can_transition_action_lifecycle r.from_state r.to_state)

unfoldable pub lacks_acceptance : ActionLifecycleInput → Bool
lacks_acceptance r = r.to_state == applied && not (truthy r.acceptance_decision_id)

unfoldable pub lacks_rollback : ActionLifecycleInput → Bool
lacks_rollback r = (r.to_state == applied || r.to_state == reverted) && not (truthy r.rollback_ref)

unfoldable pub misnames_application : ActionLifecycleInput → Bool
misnames_application r = r.to_state == applied && not (is_applied_event r.event_name)

unfoldable pub misnames_reversion : ActionLifecycleInput → Bool
misnames_reversion r = r.to_state == reverted && not (is_reverted_event r.event_name)

unfoldable pub lifecycle_issues : ActionLifecycleInput → List LifecycleIssue
unfolding moves_wrongly lacks_acceptance lacks_rollback misnames_application misnames_reversion
lifecycle_issues r =
    issue_if (moves_wrongly r) invalid_transition
    ++ issue_if (lacks_acceptance r) missing_acceptance
    ++ issue_if (lacks_rollback r) missing_rollback
    ++ issue_if (misnames_application r) wrong_applied_event
    ++ issue_if (misnames_reversion r) wrong_reverted_event

-- What `parse` throws: the plain schema of the object rejects it, or its refinement does.
pub data ParseFailure : Type 0 where
  base_rejected : ParseFailure
  refined : List LifecycleIssue → ParseFailure

abbrev pub refinement_result :
    ActionLifecycleInput → List LifecycleIssue → Outcome ParseFailure ActionLifecycleInput
refinement_result r [] = ok r
refinement_result r (i ∷ is) = thrown (refined (i ∷ is))

-- `base` is zod's check of the plain object.
unfoldable pub record_action_lifecycle_transition :
    (ActionLifecycleInput → Bool) → ActionLifecycleInput → Outcome ParseFailure ActionLifecycleInput
unfolding lifecycle_issues
record_action_lifecycle_transition base r =
    if base r then refinement_result r (lifecycle_issues r) else thrown base_rejected
