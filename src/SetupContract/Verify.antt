-- ===== src/SetupContract/Verify.antt =====
-- `VerifyExpectedResults` and `ExecutionResult.Validate` of internal/setupcontract/validate.go.
use ai_engineer_workflow.Prelude.{
  String, ◌||◌, not, Option, none, some, List, [], ◌∷◌, ◌==◌, ltb, str_eq, if◌then◌else◌,
}
use ai_engineer_workflow.SetupContract.Checks.{◌⊳◌, refuse, each, contains_semantic}
use ai_engineer_workflow.SetupContract.Model.{
  Effect, Plan, EffectResult, ExecutionResult, schema_version,
}
use ai_engineer_workflow.SetupContract.Text.{matches_identifier, matches_hex}
use ai_engineer_workflow.SetupContract.Effects.{
  Problem, unsatisfied_effect, bad_result_identity, bad_timestamps, bad_status, bad_effect_identity,
  duplicate_effect_result, bad_effect_status,
}
use ai_engineer_workflow.SetupContract.Validate.{validate_binding}

-- `statuses[effect.ID]`: the last result of an effect is in the map, "" where there is none.
abbrev pub status_of? : List EffectResult → String → Option String
status_of? [] id = none
status_of? (r ∷ rs) id = elim (status_of? rs id) [
  | some s ↦ some s
  | none ↦ if str_eq r.effect_id id then some r.status else none
]

abbrev pub status_of : List EffectResult → String → String
status_of rs id = elim (status_of? rs id) [ none ↦ "" | some s ↦ s ]

abbrev pub satisfied : String
satisfied = "satisfied"

unfoldable pub check_satisfied : List EffectResult → Effect → Option Problem
check_satisfied rs e = refuse (not (str_eq (status_of rs e.id) satisfied)) (unsatisfied_effect e.id)

-- The switch of the second loop is the one of `validateExpectedResultBinding`.
unfoldable pub verify_expected_results : Plan → List EffectResult → Option Problem
verify_expected_results p rs =
    each (check_satisfied rs) p.effects ⊳ each (validate_binding p.effects) p.expected_results

-- the loop over the results; the first argument is the set `seen`
unfoldable pub check_results : List String → List EffectResult → Option Problem
check_results seen [] = none
check_results seen (r ∷ rs) =
    refuse (not (matches_identifier r.effect_id)) (bad_effect_identity r.effect_id)
    ⊳ refuse (contains_semantic seen r.effect_id) (duplicate_effect_result r.effect_id)
    ⊳ refuse
        (not
          (contains_semantic ("satisfied" ∷ "required" ∷ "conflicting" ∷ "failed" ∷ []) r.status))
        (bad_effect_status r.effect_id)
    ⊳ check_results (r.effect_id ∷ seen) rs

-- `ExecutionResult.Validate`
unfoldable pub validate_result : ExecutionResult → Option Problem
validate_result r =
    refuse
      (not (r.schema_version == schema_version)
        || not (matches_identifier r.plan_id)
        || not (matches_identifier r.attempt_id)
        || not (matches_hex 64 r.plan_digest))
      bad_result_identity
    ⊳ refuse (r.started_at == 0 || ltb r.finished_at r.started_at) bad_timestamps
    ⊳ refuse
        (not (contains_semantic ("succeeded" ∷ "incomplete" ∷ "drifted" ∷ "blocked" ∷ []) r.status))
        bad_status
    ⊳ check_results [] r.effects
