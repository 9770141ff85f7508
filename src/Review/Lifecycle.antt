-- ===== src/Review/Lifecycle.antt =====
-- The records that `recordActionLifecycleTransition` of experiment-review.ts accepts, and the
-- histories that they make up.
use data_dyna.Base.{
  ℕ, suc, ◌+◌, ◌≤◌, List, [], ◌∷◌, ◌++◌, Bool, true, false, not, ◌&&◌, ◌||◌, ◌≡◌, ◌↔◌, inl, inr,
  Option, some, none, truthy, arith, refl, any, length, ok, Bool-cases, ◌==◌, leb, ap,
}
use data_dyna.Contract.{EventName}
use data_dyna.Review.{
  ActionLifecycleState, suggested, drafted, accepted, rejected, applied, measured, kept, reverted,
  extended, retest_needed, state_eq, state_beq_iff, allowed, can_transition_action_lifecycle,
  ActionLifecycleInput, LifecycleIssue, lifecycle_issues, invalid_transition, missing_acceptance,
  missing_rollback, wrong_applied_event, wrong_reverted_event, moves_wrongly, lacks_acceptance,
  lacks_rollback, misnames_application, misnames_reversion, is_applied_event, is_reverted_event,
  issue_if, refinement_result, record_action_lifecycle_transition,
}

-- One step of an action's life.
pub data Step : ActionLifecycleState → ActionLifecycleState → Type 0 where
  drafts : Step suggested drafted
  accepts : Step drafted accepted
  rejects : Step drafted rejected
  applies : Step accepted applied
  measures : Step applied measured
  keeps : Step measured kept
  reverts : Step measured reverted
  extends : Step measured extended
  retests : Step measured retest_needed

-- How many steps lead to a state.
abbrev pub rank : ActionLifecycleState → ℕ
rank suggested = 0
rank drafted = 1
rank accepted = 2
rank rejected = 2
rank applied = 3
rank measured = 4
rank _ = 5

Step-of : (a b : ActionLifecycleState) → can_transition_action_lifecycle a b ≡ true → Step a b
unfolding can_transition_action_lifecycle allowed
Step-of suggested drafted h = drafts
Step-of drafted accepted h = accepts
Step-of drafted rejected h = rejects
Step-of accepted applied h = applies
Step-of applied measured h = measures
Step-of measured kept h = keeps
Step-of measured reverted h = reverts
Step-of measured extended h = extends
Step-of measured retest_needed h = retests
Step-of _ _ h = cc

of-Step : {a b : ActionLifecycleState} → Step a b → can_transition_action_lifecycle a b ≡ true
unfolding can_transition_action_lifecycle allowed
of-Step drafts = refl
of-Step accepts = refl
of-Step rejects = refl
of-Step applies = refl
of-Step measures = refl
of-Step keeps = refl
of-Step reverts = refl
of-Step extends = refl
of-Step retests = refl

Step-rank : {a b : ActionLifecycleState} → Step a b → rank b ≡ suc (rank a)
Step-rank drafts = refl
Step-rank accepts = refl
Step-rank rejects = refl
Step-rank applies = refl
Step-rank measures = refl
Step-rank keeps = refl
Step-rank reverts = refl
Step-rank extends = refl
Step-rank retests = refl

-- What a record must carry.
pub record IsPermitted (r : ActionLifecycleInput) : Type 0 where
  pub step : Step r.from_state r.to_state
  pub application :
      r.to_state ≡ applied
      → (truthy r.acceptance_decision_id ≡ true)
        × (truthy r.rollback_ref ≡ true)
        × (r.event_name ≡ some EventName.experiment_applied_recorded)
  pub reversion :
      r.to_state ≡ reverted
      → (truthy r.rollback_ref ≡ true)
        × (r.event_name ≡ some EventName.experiment_reverted_recorded)

is_applied_event_iff :
    (e : Option EventName)
    → (is_applied_event e ≡ true) ↔ (e ≡ some EventName.experiment_applied_recorded)
is_applied_event_iff (some EventName.experiment_applied_recorded) = (λ _. refl, λ _. refl)
is_applied_event_iff none = ground arith
is_applied_event_iff (some e) = ground arith

is_reverted_event_iff :
    (e : Option EventName)
    → (is_reverted_event e ≡ true) ↔ (e ≡ some EventName.experiment_reverted_recorded)
is_reverted_event_iff (some EventName.experiment_reverted_recorded) = (λ _. refl, λ _. refl)
is_reverted_event_iff none = ground arith
is_reverted_event_iff (some e) = ground arith

-- No issue is found: none of the five tests holds.
abbrev IsClean : ActionLifecycleInput → Type 0
IsClean r =
    (moves_wrongly r ≡ false)
    × (lacks_acceptance r ≡ false)
    × (lacks_rollback r ≡ false)
    × (misnames_application r ≡ false)
    × (misnames_reversion r ≡ false)

lifecycle_issues_nil : (r : ActionLifecycleInput) → (lifecycle_issues r ≡ []) ↔ IsClean r
unfolding lifecycle_issues
lifecycle_issues_nil r =
    five (moves_wrongly r) (lacks_acceptance r) (lacks_rollback r) (misnames_application r)
      (misnames_reversion r)
  where
    five :
        (a b c d e : Bool)
        → (issue_if a invalid_transition
              ++ issue_if b missing_acceptance
              ++ issue_if c missing_rollback
              ++ issue_if d wrong_applied_event
              ++ issue_if e wrong_reverted_event
            ≡ [])
          ↔ ((a ≡ false) × (b ≡ false) × (c ≡ false) × (d ≡ false) × (e ≡ false))
    five false false false false false = (λ _. (refl, refl, refl, refl, refl), λ _. refl)
    five true b c d e = (λ h. cc, λ h. cc)
    five false true c d e = (λ h. cc, λ h. cc)
    five false false true d e = (λ h. cc, λ h. cc)
    five false false false true e = (λ h. cc, λ h. cc)
    five false false false false true = (λ h. cc, λ h. cc)

clean-IsPermitted : (r : ActionLifecycleInput) → IsClean r → IsPermitted r
unfolding moves_wrongly lacks_acceptance lacks_rollback misnames_application misnames_reversion
clean-IsPermitted r (moves, acceptance, rollback, applied_event, reverted_event) = record {
  step = Step-of r.from_state r.to_state (ground arith);
  application = λ is_applied.
      let e = (state_beq_iff r.to_state applied).1 is_applied in
      (ground arith, ground arith, (is_applied_event_iff r.event_name).0 (ground arith));
  reversion = λ is_reverted.
      let e = (state_beq_iff r.to_state reverted).1 is_reverted in
      (ground arith, (is_reverted_event_iff r.event_name).0 (ground arith));
}

guarded : (b t : Bool) → (b ≡ true → t ≡ true) → (b && not t) ≡ false
guarded true t h = ap not (h refl)
guarded false t h = refl

permitted-IsClean : (r : ActionLifecycleInput) → IsPermitted r → IsClean r
unfolding moves_wrongly lacks_acceptance lacks_rollback misnames_application misnames_reversion
permitted-IsClean r p = (
  ap not (of-Step p.step),
  guarded (r.to_state == applied) (truthy r.acceptance_decision_id) (λ h. (applies_to h).0),
  guarded (r.to_state == applied || r.to_state == reverted) (truthy r.rollback_ref) rollback,
  guarded (r.to_state == applied) (is_applied_event r.event_name)
      (λ h. let (_, _, named) = applies_to h in (is_applied_event_iff r.event_name).1 named),
  guarded (r.to_state == reverted) (is_reverted_event r.event_name)
      (λ h. (is_reverted_event_iff r.event_name).1 (reverts_to h).1),
)
  where
    applies_to :
        (r.to_state == applied) ≡ true
        → (truthy r.acceptance_decision_id ≡ true)
          × (truthy r.rollback_ref ≡ true)
          × (r.event_name ≡ some EventName.experiment_applied_recorded)
    applies_to h = p.application ((state_beq_iff r.to_state applied).0 h)

    reverts_to :
        (r.to_state == reverted) ≡ true
        → (truthy r.rollback_ref ≡ true)
          × (r.event_name ≡ some EventName.experiment_reverted_recorded)
    reverts_to h = p.reversion ((state_beq_iff r.to_state reverted).0 h)

    rollback :
        (r.to_state == applied || r.to_state == reverted) ≡ true → truthy r.rollback_ref ≡ true
    rollback h = elim (Bool-cases (r.to_state == applied)) [
      | inl here ↦ let (_, reference, _) = applies_to here in reference
      | inr other ↦
          let reversed : (r.to_state == reverted) ≡ true = rw other at h in (reverts_to reversed).0
    ]

result_ok :
    (r : ActionLifecycleInput) (issues : List LifecycleIssue)
    → (refinement_result r issues ≡ ok r) ↔ (issues ≡ [])
result_ok r [] = (λ _. refl, λ _. refl)
result_ok r (i ∷ is) = (λ h. cc, λ h. cc)

-- A transition is recorded exactly if the plain object passes, the step is one of the life of an
-- action, an application names a merchant's acceptance and a rollback and has the applied event,
-- and a reversion names a rollback and has the reverted event.
pub record_action_lifecycle_transition_iff :
    (base : ActionLifecycleInput → Bool) (r : ActionLifecycleInput)
    → (record_action_lifecycle_transition base r ≡ ok r) ↔ ((base r ≡ true) × IsPermitted r)
unfolding record_action_lifecycle_transition
record_action_lifecycle_transition_iff base r = elim (Bool-cases (base r)) [
  | inl passes ↦ rw passes (
    (λ h. (refl, clean-IsPermitted r ((lifecycle_issues_nil r).0 ((result_ok r _).0 h)))),
    (λ (_, p). (result_ok r _).1 ((lifecycle_issues_nil r).1 (permitted-IsClean r p))),
  )
  | inr fails ↦ rw fails (λ h. cc, λ (h, _). cc)
]

rank_bounded : (s : ActionLifecycleState) → rank s ≤ 5
rank_bounded s = ground arith

-- An application that was recorded with a merchant's acceptance and a rollback.
abbrev pub is_consented : ActionLifecycleInput → Bool
is_consented r = r.to_state == applied && truthy r.acceptance_decision_id && truthy r.rollback_ref

Step-to_applied : (a b : ActionLifecycleState) → Step a b → rank a ≤ 2 → 3 ≤ rank b → b ≡ applied
Step-to_applied a b applies h k = refl
Step-to_applied a b drafts h k = absurd (omega arith)
Step-to_applied a b accepts h k = absurd (omega arith)
Step-to_applied a b rejects h k = absurd (omega arith)
Step-to_applied a b measures h k = absurd (omega arith)
Step-to_applied a b keeps h k = absurd (omega arith)
Step-to_applied a b reverts h k = absurd (omega arith)
Step-to_applied a b extends h k = absurd (omega arith)
Step-to_applied a b retests h k = absurd (omega arith)

module _ (base : ActionLifecycleInput → Bool) where
  -- The records of one action, in order: each was accepted, and starts where the last one ended.
  unfoldable pub IsTrail :
      ActionLifecycleState → ActionLifecycleState → List ActionLifecycleInput → Type 0
  unfolding record_action_lifecycle_transition
  IsTrail s t [] = s ≡ t
  IsTrail s t (r ∷ rs) =
      (record_action_lifecycle_transition base r ≡ ok r)
      × (s ≡ r.from_state)
      × IsTrail r.to_state t rs

  recorded_rank :
      (r : ActionLifecycleInput)
      → record_action_lifecycle_transition base r ≡ ok r
      → rank r.to_state ≡ suc (rank r.from_state)
  recorded_rank r h = Step-rank ((record_action_lifecycle_transition_iff base r).0 h).1.step

  trail_rank :
      (s t : ActionLifecycleState) (rs : List ActionLifecycleInput)
      → IsTrail s t rs
      → length rs + rank s ≡ rank t
  unfolding IsTrail
  trail_rank s t [] h = let same = ap rank h in omega arith
  trail_rank s t (r ∷ rs) (recorded, here, rest) =
      let later = trail_rank r.to_state t rs rest in
      let one = recorded_rank r recorded in let same = ap rank here in omega arith

  -- A chain of recorded transitions has no more than five records.
  pub trail_bounded :
      (s t : ActionLifecycleState) (rs : List ActionLifecycleInput) → IsTrail s t rs → length rs ≤ 5
  trail_bounded s t rs h = omega (arith, trail_rank s t rs h, rank_bounded t)

  -- A chain of recorded transitions from a state before the application (suggested, drafted,
  -- accepted or rejected) to applied or a state after it has a record of the application that
  -- names a merchant's acceptance and a rollback.
  pub trail_consented :
      (s t : ActionLifecycleState) (rs : List ActionLifecycleInput)
      → IsTrail s t rs
      → rank s ≤ 2
      → 3 ≤ rank t
      → any is_consented rs ≡ true
  unfolding IsTrail
  trail_consented s t [] h low high = absurd (omega (arith, ap rank h))
  trail_consented s t (r ∷ rs) (recorded, here, rest) low high =
      elim (Bool-cases (leb (rank r.to_state) 2)) [
        | inl still_low ↦ ground (arith, trail_consented r.to_state t rs rest (ground arith) high)
        | inr reached ↦
            let p = ((record_action_lifecycle_transition_iff base r).0 recorded).1 in
            let same = ap rank here in
            let is_applied =
              Step-to_applied r.from_state r.to_state p.step (omega arith) (ground arith) in
            let (acceptance, rollback, _) = p.application is_applied in
            let e = (state_beq_iff r.to_state applied).1 is_applied in ground arith
      ]
