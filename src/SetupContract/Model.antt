-- ===== src/SetupContract/Model.antt =====
-- internal/setupcontract/model.go: the Setup Plan and the record of an execution. Times are natural
-- numbers, with 0 for Go's zero time. A map is the list of its entries, `none` for nil.
use ai_engineer_workflow.Prelude.{
  ℕ, String, Option, none, some, List, [], ◌∷◌, str_eq, if◌then◌else◌,
}

abbrev pub schema_version : ℕ
schema_version = 1

pub record Target : Type 0 where
  pub workflow_home : String
  pub repository_path : String
  pub github_repository : String

pub record Precondition : Type 0 where
  pub id : String
  pub kind : String
  pub subject : String
  pub expected : String

pub record Effect : Type 0 where
  pub id : String
  pub kind : String
  pub subject : String
  pub action : String
  pub parameters : Option (List (String × String))

pub record ExpectedResult : Type 0 where
  pub id : String
  pub kind : String
  pub subject : String
  pub expected : String

pub record Plan : Type 0 where
  pub schema_version : ℕ
  pub plan_id : String
  pub kind : String
  pub target : Target
  pub preconditions : List Precondition
  pub effects : List Effect
  pub expected_results : List ExpectedResult

pub record EffectResult : Type 0 where
  pub effect_id : String
  pub status : String
  pub evidence : String

pub record ExecutionResult : Type 0 where
  pub schema_version : ℕ
  pub plan_id : String
  pub plan_digest : String
  pub attempt_id : String
  pub started_at : ℕ
  pub finished_at : ℕ
  pub status : String
  pub effects : List EffectResult
  pub blocker : String

abbrev pub entries : Effect → List (String × String)
entries e = elim e.parameters [ none ↦ [] | some ps ↦ ps ]

abbrev pub find : List (String × String) → String → Option String
find [] key = none
find ((k, v) ∷ rest) key = if str_eq k key then some v else find rest key

-- `value, exists := effect.Parameters[key]`
abbrev pub parameter? : Effect → String → Option String
parameter? e key = find (entries e) key

-- `effect.Parameters[key]`
abbrev pub parameter : Effect → String → String
parameter e key = elim (parameter? e key) [ none ↦ "" | some v ↦ v ]
