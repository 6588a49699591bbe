-- ===== src/SetupContract/Effects.antt =====
-- `validateEffect` and `validateStableIDs` of internal/setupcontract/validate.go. The JSON of the
-- standard library is a parameter, `Json`. App ids are natural numbers; where a negative one comes from
-- the JSON, it counts as 0, which the same test refuses.
use ai_engineer_workflow.Prelude.{
  ℕ, String, Bool, true, false, ◌&&◌, ◌||◌, not, Option, none, some, List, [], ◌∷◌, ◌++◌, ◌==◌,
  str_eq, if◌then◌else◌,
}
use Prim.Native.String.{◌++◌ as str_append}
use ai_engineer_workflow.SetupContract.Checks.{◌⊳◌, refuse, each, contains_semantic}
use ai_engineer_workflow.SetupContract.Registry.{Descriptor, lookup}
use ai_engineer_workflow.SetupContract.Model.{Effect, entries, parameter?, parameter}
use ai_engineer_workflow.SetupContract.Text.{is_blank, matches_identifier, matches_hex}

pub data Problem : Type 0 where
  unsupported_schema : ℕ → Problem
  bad_plan_id bad_repository_path bad_workflow_home bad_repository missing_parts : Problem
  unknown_plan_kind : String → Problem
  bad_id duplicate_id : String → Problem
  incomplete_precondition unsupported_precondition : String → Problem
  incomplete_effect : String → Problem
  unknown_effect_kind : String → Problem
  unsupported_effect_kind unsupported_action : Problem
  unknown_parameter required_parameter bad_digest bad_commit bad_boolean bad_json : String → Problem
  unbound_creation two_bases bad_actions_policy : Problem
  bad_checks unidentified_check conflicting_checks unapproved_check : Problem
  no_target : Problem
  other_repository other_local_repository not_onboarding : String → Problem
  other_creation other_source : String → Problem
  no_creation no_baseline bad_baseline : String → Problem
  incomplete_result unsupported_result unbound_result : String → Problem
  secret : String → Problem
  unsatisfied_effect : String → Problem
  bad_result_identity bad_timestamps bad_status : Problem
  bad_effect_identity duplicate_effect_result bad_effect_status : String → Problem

pub record RequiredCheck : Type 0 where
  pub context : String
  pub app_id : ℕ

-- what the source takes from encoding/json: `json.Valid`, and the decoding of a list of required
-- checks, `none` for an error or nil
pub record Json : Type 0 where
  pub valid : String → Bool
  pub required_checks : String → Option (List RequiredCheck)

abbrev pub required_check_name : String
required_check_name = "workflow-contract"

abbrev pub git_hub_actions_app_id : ℕ
git_hub_actions_app_id = 15368

-- `validateStableIDs`; the first argument is the set `seen`
unfoldable pub stable_ids : List String → List String → Option Problem
stable_ids seen [] = none
stable_ids seen (id ∷ ids) =
    refuse (not (matches_identifier id)) (bad_id id)
    ⊳ refuse (contains_semantic seen id) (duplicate_id id)
    ⊳ stable_ids (id ∷ seen) ids

-- the value under a key, when there is one, meets the test
abbrev pub when_present : Effect → (String → Bool) → (String → Problem) → String → Option Problem
when_present e test problem key = elim (parameter? e key) [
  | none ↦ none
  | some value ↦ refuse (not (test value)) (problem key)
]

abbrev pub allow_empty : String → String → Bool
allow_empty kind key =
    (str_eq kind "repository_contract_pr" && str_eq key "base_head")
    || (str_eq kind "local_fast_forward" && str_eq key "pre_merge_head")

abbrev pub required_value : Effect → String → Option String → Option Problem
required_value e key none = some (required_parameter key)
required_value e key (some value) =
    refuse (not (allow_empty e.kind key) && is_blank value) (required_parameter key)

abbrev pub check_required : Effect → String → Option Problem
check_required e key = required_value e key (parameter? e key)

-- `identities[check.Context]`, 0 where the map has no such key
abbrev pub identity_of : List (String × ℕ) → String → ℕ
identity_of [] context = 0
identity_of ((c, id) ∷ rest) context = if str_eq c context then id else identity_of rest context

abbrev pub has_identity : List (String × ℕ) → String → Bool
has_identity [] context = false
has_identity ((c, id) ∷ rest) context = if str_eq c context then true else has_identity rest context

-- the loop over the required checks, and the test of the map behind it
unfoldable pub check_identities : List (String × ℕ) → List RequiredCheck → Option Problem
check_identities identities [] =
    refuse
      (has_identity identities required_check_name
        && not (identity_of identities required_check_name == git_hub_actions_app_id))
      unapproved_check
check_identities identities (c ∷ cs) =
    let existing = identity_of identities c.context in
    refuse (str_eq c.context "" || c.app_id == 0) unidentified_check
    ⊳ refuse (not (existing == 0) && not (existing == c.app_id)) conflicting_checks
    ⊳ check_identities ((c.context, c.app_id) ∷ identities) cs

abbrev pub is_boolean : String → Bool
is_boolean v = str_eq v "true" || str_eq v "false"

-- the parts of `validateEffect` behind the look-up of the schema
unfoldable pub check_schema : String → Descriptor → Effect → Option Problem
check_schema plan_kind schema e =
    refuse (not (str_eq schema.plan_kind plan_kind)) unsupported_effect_kind
    ⊳ refuse (not (contains_semantic schema.actions e.action)) unsupported_action
    ⊳ each
        (λ entry.
          refuse (not (contains_semantic (schema.required ++ schema.optional) entry.0))
            (unknown_parameter entry.0))
        (entries e)
    ⊳ each (check_required e) schema.required

unfoldable pub check_values : Effect → Option Problem
check_values e =
    when_present e (matches_hex 64) bad_digest "manifest_digest"
    ⊳ each (when_present e (λ v. str_eq v "" || matches_hex 40 v) bad_commit)
        ("head" ∷ "base_head" ∷ "pre_merge_head" ∷ [])
    ⊳ each (when_present e is_boolean bad_boolean) ("private" ∷ "issues" ∷ "actions" ∷ [])

abbrev pub approved_repository : Effect → String
approved_repository e = str_append (parameter e "owner") (str_append "/" (parameter e "name"))

unfoldable pub check_kind : Effect → Option Problem
check_kind e =
    refuse
      (str_eq e.kind "create_repository"
        && (not (str_eq (parameter e "approval_absent_repository") (approved_repository e))
            || not (str_eq e.subject (approved_repository e))))
      unbound_creation
    ⊳ refuse
        (str_eq e.kind "repository_contract_pr"
          && not (str_eq (parameter e "base_head") "")
          && not (str_eq (parameter e "base_head_effect_id") ""))
        two_bases
    ⊳ refuse
        (str_eq e.kind "repository_features"
          && not (
              contains_semantic ("all" ∷ "local_only" ∷ "selected" ∷ [])
                (parameter e "allowed_actions")))
        bad_actions_policy

unfoldable pub check_checks : Json → Effect → Option Problem
check_checks json e =
    if str_eq e.kind "repository_contract_pr"
    then elim (json.required_checks (parameter e "required_checks_json")) [
      | none ↦ some bad_checks
      | some checks ↦ check_identities [] checks
    ]
    else none

-- `validateEffect`, with the schema that was looked up
unfoldable pub validate_with : Json → String → Descriptor → Effect → Option Problem
validate_with json plan_kind schema e =
    check_schema plan_kind schema e
    ⊳ check_values e
    ⊳ check_kind e
    ⊳ each (when_present e json.valid bad_json) (
        "files_json" ∷ "bootstrap_files_json" ∷ "before_files_json" ∷ "required_checks_json"
        ∷ "labels_json" ∷ [])
    ⊳ check_checks json e

-- `validateEffect`
unfoldable pub validate_effect : Json → String → Effect → Option Problem
validate_effect json plan_kind e = elim (lookup e.kind) [
  | none ↦ some (unknown_effect_kind e.kind)
  | some schema ↦ validate_with json plan_kind schema e
]

-- `ValidateEffectForExecution`
unfoldable pub validate_effect_for_execution : Json → Effect → Option Problem
validate_effect_for_execution json e = elim (lookup e.kind) [
  | none ↦ some (unknown_effect_kind e.kind)
  | some schema ↦ validate_effect json schema.plan_kind e
]
