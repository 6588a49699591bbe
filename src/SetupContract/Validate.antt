-- ===== src/SetupContract/Validate.antt =====
-- `Plan.Validate` of internal/setupcontract/validate.go. What the source takes from the standard
-- library is in `Library`: JSON, `strings.EqualFold`, and the JSON value that a plan is encoded to.
use ai_engineer_workflow.Prelude.{
  String, Bool, true, false, ◌&&◌, ◌||◌, not, Option, none, some, List, [], ◌∷◌, map, ◌==◌, str_eq,
  if◌then◌else◌,
}
use Prim.Native.String.{◌++◌ as str_append}
use ai_engineer_workflow.SetupContract.Checks.{◌⊳◌, refuse, each, contains_semantic}
use ai_engineer_workflow.SetupContract.Secrets.{Texts, Value, find_secret}
use ai_engineer_workflow.SetupContract.Registry.{repository_onboarding}
use ai_engineer_workflow.SetupContract.Model.{
  Precondition, Effect, ExpectedResult, Plan, schema_version, parameter,
}
use ai_engineer_workflow.SetupContract.Text.{
  is_blank, matches_identifier, matches_github_repository, is_absolute_local_windows_path,
  before_hash,
}
use ai_engineer_workflow.SetupContract.Effects.{
  Problem, unsupported_schema, bad_plan_id, bad_repository_path, bad_workflow_home, bad_repository,
  missing_parts, unknown_plan_kind, incomplete_precondition, unsupported_precondition,
  incomplete_effect, no_target, other_repository, other_local_repository, not_onboarding,
  other_creation, other_source, no_creation, no_baseline, bad_baseline, incomplete_result,
  unsupported_result, unbound_result, secret, Json, stable_ids, validate_effect,
  approved_repository,
}

pub record Library : Type 0 where
  pub json : Json
  pub equal_fold : String → String → Bool
  pub texts : Texts
  pub semantic : Plan → Value

-- `preconditionPlanKinds`: "" allows every kind of plan
abbrev pub precondition_plan_kind : String → Option String
precondition_plan_kind kind =
    if str_eq kind "platform_release"
    then some ""
    else if contains_semantic
        ("git_head" ∷ "onboarding_snapshot" ∷ "github_policy" ∷ "github_default_head" ∷ []) kind
    then some repository_onboarding
    else none

-- `expectedResultPlanKinds`
abbrev pub expected_result_plan_kind : String → Option String
expected_result_plan_kind kind =
    if str_eq kind "repository_admission" then some repository_onboarding else none

unfoldable pub check_identity : Plan → Option Problem
check_identity p =
    refuse (not (p.schema_version == schema_version)) (unsupported_schema p.schema_version)
    ⊳ refuse (not (matches_identifier p.plan_id)) bad_plan_id
    ⊳ (if str_eq p.kind repository_onboarding
        then refuse (not (is_absolute_local_windows_path p.target.repository_path))
            bad_repository_path
          ⊳ refuse (not (is_absolute_local_windows_path p.target.workflow_home)) bad_workflow_home
          ⊳ refuse
              (not (str_eq p.target.github_repository "")
                && not (matches_github_repository p.target.github_repository))
              bad_repository
        else some (unknown_plan_kind p.kind))

abbrev pub is_nil : {A : Type 0} → List A → Bool
is_nil [] = true
is_nil (x ∷ xs) = false

unfoldable pub check_parts : Plan → Option Problem
check_parts p =
    refuse (is_nil p.preconditions || is_nil p.effects || is_nil p.expected_results) missing_parts
    ⊳ stable_ids [] (map (λ v. v.id) p.preconditions)
    ⊳ stable_ids [] (map (λ v. v.id) p.effects)
    ⊳ stable_ids [] (map (λ v. v.id) p.expected_results)

unfoldable pub check_precondition : String → Precondition → Option Problem
check_precondition plan_kind c =
    refuse
      (is_blank c.kind
        || is_blank c.subject
        || (not (str_eq c.kind "git_head") && is_blank c.expected))
      (incomplete_precondition c.id)
    ⊳ elim (precondition_plan_kind c.kind) [
      | none ↦ some (unsupported_precondition c.id)
      | some allowed ↦
          refuse (not (str_eq allowed "") && not (str_eq allowed plan_kind))
            (unsupported_precondition c.id)
    ]

abbrev pub has_parameters : Effect → Bool
has_parameters e = elim e.parameters [ none ↦ false | some ps ↦ true ]

unfoldable pub check_effect : Library → String → Effect → Option Problem
check_effect lib plan_kind e =
    refuse (is_blank e.kind || is_blank e.subject || is_blank e.action || not (has_parameters e))
      (incomplete_effect e.id)
    ⊳ validate_effect lib.json plan_kind e

-- the repository that an effect is on, in `validateRepositoryOnboardingIdentity`
pub data Site : Type 0 where
  repository : String → Site
  local : String → Site
  outside : Site

abbrev pub site_of : Effect → Site
site_of e =
    if contains_semantic
      ("create_repository" ∷ "publish_history" ∷ "repository_features" ∷ "repository_contract_pr"
        ∷ "repository_admission" ∷ [])
      e.kind
    then repository e.subject
    else if str_eq e.kind "github_label"
    then repository (before_hash e.subject)
    else if str_eq e.kind "initial_baseline" || str_eq e.kind "local_fast_forward"
    then local (parameter e "repository")
    else outside

abbrev pub check_repository : Library → String → Effect → String → Option Problem
check_repository lib target e name =
    refuse (not (lib.equal_fold name target)) (other_repository e.id)

unfoldable pub check_site : Library → String → String → Effect → Option Problem
check_site lib path target e = elim (site_of e) [
  | outside ↦ some (not_onboarding e.id)
  | repository name ↦ check_repository lib target e name
  | local name ↦
      refuse (not (lib.equal_fold e.subject path)) (other_local_repository e.id)
      ⊳ check_repository lib target e name
]

unfoldable pub check_target : Library → String → String → Effect → Option Problem
check_target lib path target e =
    check_site lib path target e
    ⊳ refuse
        (str_eq e.kind "create_repository" && not (lib.equal_fold (approved_repository e) target))
        (other_creation e.id)
    ⊳ refuse
        ((str_eq e.kind "initial_baseline" || str_eq e.kind "repository_contract_pr")
          && not (
              lib.equal_fold (parameter e "source_url")
                (str_append "https://github.com/" (str_append target ".git"))))
        (other_source e.id)

-- `validateRepositoryOnboardingIdentity`
unfoldable pub validate_onboarding_identity : Library → Plan → Option Problem
validate_onboarding_identity lib p =
    let target = p.target.github_repository in
    refuse (not (matches_github_repository target)) no_target
    ⊳ each
        (λ c.
          refuse
            ((str_eq c.kind "github_policy" || str_eq c.kind "github_default_head")
              && not (lib.equal_fold c.subject target))
            (other_repository c.id))
        p.preconditions
    ⊳ each (check_target lib p.target.repository_path target) p.effects
    ⊳ each (λ r. refuse (not (lib.equal_fold r.subject target)) (other_repository r.id))
        p.expected_results

-- `created[effect.Subject]`, over the effects up to here, the last one first
abbrev pub is_created : List Effect → String → Bool
is_created [] subject = false
is_created (e ∷ es) subject =
    if str_eq e.kind "create_repository" && str_eq e.subject subject
    then true
    else is_created es subject

-- `effectIndexes[id]`, and the effect there
abbrev pub indexed : List Effect → String → Option Effect
indexed [] id = none
indexed (e ∷ es) id = if str_eq e.id id then some e else indexed es id

abbrev pub is_baseline_of : Effect → Effect → Bool
is_baseline_of baseline e =
    str_eq baseline.kind "initial_baseline" && str_eq (parameter baseline "repository") e.subject

abbrev pub check_baseline : List Effect → Effect → Option Problem
check_baseline earlier e =
    if str_eq e.id (parameter e "base_head_effect_id")
    then some (no_baseline e.id)
    else elim (indexed earlier (parameter e "base_head_effect_id")) [
      | none ↦ some (no_baseline e.id)
      | some baseline ↦ refuse (not (is_baseline_of baseline e)) (bad_baseline e.id)
    ]

unfoldable pub check_history : List Effect → Effect → Option Problem
check_history earlier e =
    refuse
      (str_eq e.kind "publish_history"
        && str_eq (parameter e "new_repository") "true"
        && not (is_created earlier e.subject))
      (no_creation e.id)

unfoldable pub check_contract : List Effect → Effect → Option Problem
check_contract earlier e =
    if str_eq e.kind "repository_contract_pr" && str_eq (parameter e "base_head") ""
    then check_baseline earlier e
    else none

-- the loop over the effects; the first argument has the effects before, the last one first
unfoldable pub check_order : List Effect → List Effect → Option Problem
check_order earlier [] = none
check_order earlier (e ∷ es) =
    check_history (e ∷ earlier) e ⊳ check_contract earlier e ⊳ check_order (e ∷ earlier) es

abbrev pub is_bound_to : ExpectedResult → Effect → Bool
is_bound_to r e =
    str_eq e.kind "repository_admission"
    && str_eq e.subject r.subject
    && str_eq (parameter e "manifest_digest") r.expected

abbrev pub is_bound : List Effect → ExpectedResult → Bool
is_bound [] r = false
is_bound (e ∷ es) r = if is_bound_to r e then true else is_bound es r

-- `validateExpectedResultBinding`
unfoldable pub validate_binding : List Effect → ExpectedResult → Option Problem
validate_binding effects r =
    if str_eq r.kind "repository_admission"
    then refuse (not (is_bound effects r)) (unbound_result r.id)
    else some (unsupported_result r.kind)

unfoldable pub check_expected : Plan → ExpectedResult → Option Problem
check_expected p r =
    refuse (is_blank r.kind || is_blank r.subject || is_blank r.expected) (incomplete_result r.id)
    ⊳ elim (expected_result_plan_kind r.kind) [
      | none ↦ some (unsupported_result r.id)
      | some allowed ↦ refuse (not (str_eq allowed p.kind)) (unsupported_result r.id)
    ]
    ⊳ validate_binding p.effects r

unfoldable pub check_secret : Option String → Option Problem
check_secret none = none
check_secret (some path) = some (secret path)

-- `Plan.Validate`, `none` for nil
unfoldable pub validate : Library → Plan → Option Problem
validate lib p =
    check_identity p
    ⊳ check_parts p
    ⊳ each (check_precondition p.kind) p.preconditions
    ⊳ each (check_effect lib p.kind) p.effects
    ⊳ (if str_eq p.kind repository_onboarding
        then validate_onboarding_identity lib p ⊳ check_order [] p.effects
        else none)
    ⊳ each (check_expected p) p.expected_results
    ⊳ check_secret (find_secret lib.texts (lib.semantic p) "$")

-- `ValidatePreconditionForExecution`
unfoldable pub validate_precondition_for_execution : Precondition → Option Problem
validate_precondition_for_execution c = elim (precondition_plan_kind c.kind) [
  | none ↦ some (unsupported_precondition c.id)
  | some allowed ↦ none
]
