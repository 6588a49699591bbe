-- ===== src/SetupContract/Registry.antt =====
-- internal/setupeffect/registry.go: the vocabulary of effect kinds. The start of the program
-- refuses two descriptors of one kind, so that a search of the list is the look-up in the map.
use ai_engineer_workflow.Prelude.{String, true, false, Option, none, some, List, [], ◌∷◌, str_eq}

pub data EngineSemantics : Type 0 where
  standard_effect admission_effect : EngineSemantics

pub record Descriptor : Type 0 where
  pub kind : String
  pub plan_kind : String
  pub actions : List String
  pub required : List String
  pub optional : List String
  pub engine : EngineSemantics

abbrev pub repository_onboarding : String
repository_onboarding = "repository_onboarding"

abbrev descriptor : String → String → List String → List String → EngineSemantics → Descriptor
descriptor kind action required optional engine = record {
  kind = kind;
  plan_kind = repository_onboarding;
  actions = action ∷ [];
  required = required;
  optional = optional;
  engine = engine;
}

unfoldable pub descriptors : List Descriptor
descriptors =
    descriptor "create_repository" "create"
      ("owner" ∷ "authenticated_login" ∷ "name" ∷ "private" ∷ "approval_absent_repository" ∷ []) []
      standard_effect
    ∷ descriptor "initial_baseline" "commit_and_push"
        ("branch" ∷ "files_json" ∷ "repository" ∷ "source_url" ∷ []) ("bootstrap_files_json" ∷ [])
        standard_effect
    ∷ descriptor "publish_history" "push" ("branch" ∷ "head" ∷ []) ("new_repository" ∷ [])
        standard_effect
    ∷ descriptor "github_label" "reconcile" ("name" ∷ "color" ∷ "description" ∷ []) []
        standard_effect
    ∷ descriptor "repository_features" "enable" ("issues" ∷ "actions" ∷ "allowed_actions" ∷ []) []
        standard_effect
    ∷ descriptor "repository_variable" "reconcile" ("name" ∷ "value" ∷ []) [] standard_effect
    ∷ descriptor "repository_contract_pr" "create_check_merge"
        ("base_branch" ∷ "base_head" ∷ "source_url" ∷ "before_files_json" ∷ "files_json"
          ∷ "manifest_digest" ∷ "required_checks_json" ∷ "merge_method" ∷ [])
        ("base_head_effect_id" ∷ []) standard_effect
    ∷ descriptor "repository_admission" "verify_and_record"
        ("default_branch" ∷ "manifest_digest" ∷ "contract_version" ∷ [])
        ("labels_json" ∷ "actions_allowed" ∷ []) admission_effect
    ∷ descriptor "local_fast_forward" "fast_forward_if_safe"
        ("repository" ∷ "branch" ∷ "pre_merge_head" ∷ "merge_head_effect_id" ∷ [])
        ("pre_merge_head_effect_id" ∷ []) standard_effect
    ∷ []

abbrev pub find_kind : List Descriptor → String → Option Descriptor
find_kind [] kind = none
find_kind (d ∷ ds) kind = elim (str_eq d.kind kind) [ true ↦ some d | false ↦ find_kind ds kind ]

unfoldable pub lookup : String → Option Descriptor
unfolding descriptors
lookup kind = find_kind descriptors kind
