-- ===== src/SetupContract/Tests.antt =====
-- A Setup Plan that creates a repository, publishes its history and admits it, and the theorems at
-- this plan.
use ai_engineer_workflow.Prelude.{
  String, true, false, none, some, List, [], ◌∷◌, ◌++◌, map, ◌≡◌, refl, str_eq, Elem, inl, ◌↔◌, ◌⊎◌,
  ◌≢◌, All, Distinct,
}
use ai_engineer_workflow.SetupContract.Registry.{Descriptor, lookup}
use ai_engineer_workflow.SetupContract.Model.{
  Effect, Plan, EffectResult, ExecutionResult, entries, parameter?, parameter,
}
use ai_engineer_workflow.SetupContract.Secrets.{
  Texts, Value, object, string, member, no_member, array, value, no_value, other, find_secret,
  IsClean, find_secret_iff,
}
use ai_engineer_workflow.SetupContract.Text.{is_blank}
use ai_engineer_workflow.SetupContract.Effects.{
  Json, RequiredCheck, validate_effect, stable_ids, required_check_name, git_hub_actions_app_id,
  allow_empty,
}
use ai_engineer_workflow.SetupContract.Validate.{Library, validate}
use ai_engineer_workflow.SetupContract.Verify.{
  verify_expected_results, status_of, satisfied, validate_result,
}
use ai_engineer_workflow.SetupContract.Admitted.{validate-verify_iff, validate-kinds}
use ai_engineer_workflow.SetupContract.Ordered.{validate-InOrder, IsCreationOf, IsBaselineOf}
use ai_engineer_workflow.SetupContract.Results.{
  stable_ids_iff, validate_result_iff, IsWellFormed, IsId,
}
use ai_engineer_workflow.SetupContract.Checked.{validate_effect-checks, validate_effect-Within}

abbrev checks : List RequiredCheck
checks = record { context = "workflow-contract"; app_id = 15368 } ∷ []

abbrev library : Library
library = record {
  json = record { valid = λ s. true; required_checks = λ s. some checks };
  equal_fold = str_eq;
  texts = record { to_lower = λ s. s; itoa = λ n. "0" };
  semantic = λ p. object (member "plan_id" (string p.plan_id) no_member);
}

abbrev digest : String
digest = "0123456789abcdef0123456789abcdef0123456789abcdef0123456789abcdef"

abbrev head : String
head = "0123456789abcdef0123456789abcdef01234567"

abbrev create : Effect
create = record {
  id = "create";
  kind = "create_repository";
  subject = "o/n";
  action = "create";
  parameters = some (
      ("owner", "o")
      ∷ ("authenticated_login", "o")
      ∷ ("name", "n")
      ∷ ("private", "true")
      ∷ ("approval_absent_repository", "o/n")
      ∷ []);
}

abbrev publish : Effect
publish = record {
  id = "publish";
  kind = "publish_history";
  subject = "o/n";
  action = "push";
  parameters = some (("branch", "main") ∷ ("head", head) ∷ ("new_repository", "true") ∷ []);
}

abbrev contract : Effect
contract = record {
  id = "contract";
  kind = "repository_contract_pr";
  subject = "o/n";
  action = "create_check_merge";
  parameters = some (
      ("base_branch", "main")
      ∷ ("base_head", head)
      ∷ ("source_url", "https://github.com/o/n.git")
      ∷ ("before_files_json", "{}")
      ∷ ("files_json", "{}")
      ∷ ("manifest_digest", digest)
      ∷ ("required_checks_json", "[]")
      ∷ ("merge_method", "squash")
      ∷ []);
}

abbrev admit : Effect
admit = record {
  id = "admit";
  kind = "repository_admission";
  subject = "o/n";
  action = "verify_and_record";
  parameters =
      some
        (("default_branch", "main") ∷ ("manifest_digest", digest) ∷ ("contract_version", "1") ∷ []);
}

abbrev onboarding : Plan
onboarding = record {
  schema_version = 1;
  plan_id = "p1";
  kind = "repository_onboarding";
  target = record {
    workflow_home = "C:/home";
    repository_path = "C:/work";
    github_repository = "o/n";
  };
  preconditions = record { id = "c"; kind = "git_head"; subject = "C:/work"; expected = "" } ∷ [];
  effects = create ∷ publish ∷ contract ∷ admit ∷ [];
  expected_results =
      record { id = "r"; kind = "repository_admission"; subject = "o/n"; expected = digest } ∷ [];
}

abbrev results : List EffectResult
results =
    map (λ e. record { effect_id = e.id; status = "satisfied"; evidence = "" }) onboarding.effects

onboards : validate library onboarding ≡ none
unfolding validate ai_engineer_workflow.SetupContract.Validate.check_identity
    ai_engineer_workflow.SetupContract.Validate.check_parts
    ai_engineer_workflow.SetupContract.Validate.check_precondition
    ai_engineer_workflow.SetupContract.Validate.check_effect
    ai_engineer_workflow.SetupContract.Validate.check_contract
    ai_engineer_workflow.SetupContract.Validate.check_expected
    ai_engineer_workflow.SetupContract.Validate.check_history
    ai_engineer_workflow.SetupContract.Validate.check_order
    ai_engineer_workflow.SetupContract.Validate.check_secret
    ai_engineer_workflow.SetupContract.Validate.check_site
    ai_engineer_workflow.SetupContract.Validate.check_target
    ai_engineer_workflow.SetupContract.Validate.validate_binding
    ai_engineer_workflow.SetupContract.Validate.validate_onboarding_identity
    ai_engineer_workflow.SetupContract.Text.matches_identifier
    ai_engineer_workflow.SetupContract.Text.is_absolute_local_windows_path
    ai_engineer_workflow.SetupContract.Text.matches_github_repository
    ai_engineer_workflow.SetupContract.Text.all_chars
    ai_engineer_workflow.SetupContract.Text.before_hash
    ai_engineer_workflow.SetupContract.Text.matches_names
    ai_engineer_workflow.SetupContract.Text.matches_rest stable_ids validate_effect lookup
    ai_engineer_workflow.SetupContract.Effects.validate_with
    ai_engineer_workflow.SetupContract.Effects.check_schema
    ai_engineer_workflow.SetupContract.Effects.check_values
    ai_engineer_workflow.SetupContract.Effects.check_kind
    ai_engineer_workflow.SetupContract.Effects.check_checks
    ai_engineer_workflow.SetupContract.Effects.check_identities is_blank
    ai_engineer_workflow.SetupContract.Text.matches_hex find_secret
    ai_engineer_workflow.SetupContract.Secrets.find_member
    ai_engineer_workflow.SetupContract.Secrets.find_element
    ai_engineer_workflow.SetupContract.Secrets.is_forbidden
    ai_engineer_workflow.SetupContract.Secrets.is_secret
    ai_engineer_workflow.SetupContract.Text.contains_text
    ai_engineer_workflow.SetupContract.Text.trim_space
    ai_engineer_workflow.SetupContract.Text.with_underscores
onboards = refl

checks_contract : validate_effect library.json "repository_onboarding" contract ≡ none
unfolding validate_effect lookup ai_engineer_workflow.SetupContract.Effects.validate_with
    ai_engineer_workflow.SetupContract.Effects.check_schema
    ai_engineer_workflow.SetupContract.Effects.check_values
    ai_engineer_workflow.SetupContract.Effects.check_kind
    ai_engineer_workflow.SetupContract.Effects.check_checks
    ai_engineer_workflow.SetupContract.Effects.check_identities is_blank
    ai_engineer_workflow.SetupContract.Text.matches_hex
checks_contract = refl

validate-verify_iff_example :
    (verify_expected_results onboarding results ≡ none)
    ↔ ((e : Effect) → Elem e onboarding.effects → status_of results e.id ≡ satisfied)
validate-verify_iff_example = validate-verify_iff library onboarding results onboards

validate-InOrder_example :
    (publish.kind ≡ "publish_history"
      → parameter publish "new_repository" ≡ "true"
      → (c : Effect) × Elem c (create ∷ []) × IsCreationOf publish c)
    × (publish.kind ≡ "repository_contract_pr"
        → parameter publish "base_head" ≡ ""
        → (b : Effect) × Elem b (create ∷ []) × IsBaselineOf publish b)
validate-InOrder_example =
    validate-InOrder library onboarding (create ∷ []) publish (contract ∷ admit ∷ []) onboards refl

validate-kinds_example : ¬ (create.kind ≡ "repository_variable")
validate-kinds_example = validate-kinds library onboarding create onboards (inl refl)

abbrev ids : List String
ids = "a" ∷ "b" ∷ []

stable_ids_iff_example : (stable_ids [] ids ≡ none) ↔ (All IsId ids × Distinct ids)
stable_ids_iff_example = stable_ids_iff ids

abbrev execution : ExecutionResult
execution = record {
  schema_version = 1;
  plan_id = "p1";
  plan_digest = digest;
  attempt_id = "a1";
  started_at = 5;
  finished_at = 9;
  status = "succeeded";
  effects = results;
  blocker = "";
}

records : validate_result execution ≡ none
unfolding validate_result ai_engineer_workflow.SetupContract.Verify.check_results
    ai_engineer_workflow.SetupContract.Text.matches_identifier
    ai_engineer_workflow.SetupContract.Text.matches_hex
    ai_engineer_workflow.SetupContract.Text.all_chars
records = refl

validate_result_iff_example : (validate_result execution ≡ none) ↔ IsWellFormed execution
validate_result_iff_example = validate_result_iff execution

validate_effect-checks_example :
    ((c : RequiredCheck)
      → Elem c checks
      → (c.context ≢ "")
        × (c.app_id ≢ 0)
        × (c.context ≡ required_check_name → c.app_id ≡ git_hub_actions_app_id))
    × ((c d : RequiredCheck)
        → Elem c checks
        → Elem d checks
        → c.context ≡ d.context
        → c.app_id ≡ d.app_id)
validate_effect-checks_example =
    validate_effect-checks library.json "repository_onboarding" contract checks checks_contract refl
      refl

validate_effect-Within_example :
    (schema : Descriptor) × (lookup contract.kind ≡ some schema)
    × (schema.plan_kind ≡ "repository_onboarding")
    × Elem contract.action schema.actions
    × ((entry : String × String)
        → Elem entry (entries contract)
        → Elem entry.0 (schema.required ++ schema.optional))
    × ((key : String)
        → Elem key schema.required
        → (value : String) × (parameter? contract key ≡ some value)
          × ((allow_empty contract.kind key ≡ true) ⊎ (is_blank value ≡ false)))
validate_effect-Within_example =
    validate_effect-Within library.json "repository_onboarding" contract checks_contract

abbrev leak : Value
leak = object (member "notes" (array (value (string "ghp_1") no_value)) no_member)

leaks : find_secret library.texts leak "$" ≡ some "$.notes[0]"
unfolding find_secret ai_engineer_workflow.SetupContract.Secrets.find_member
    ai_engineer_workflow.SetupContract.Secrets.find_element
    ai_engineer_workflow.SetupContract.Secrets.is_forbidden
    ai_engineer_workflow.SetupContract.Secrets.is_secret
    ai_engineer_workflow.SetupContract.Text.contains_text
    ai_engineer_workflow.SetupContract.Text.trim_space
    ai_engineer_workflow.SetupContract.Text.with_underscores is_blank
leaks = refl

find_secret_iff_example : (find_secret library.texts leak "$" ≡ none) ↔ IsClean library.texts leak
find_secret_iff_example = find_secret_iff library.texts leak "$"
