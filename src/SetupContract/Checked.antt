-- ===== src/SetupContract/Checked.antt =====
-- What `validateEffect` of internal/setupcontract/validate.go promises of an effect that it accepts:
-- its parameters against the registry, and the identities of its required checks.
use ai_engineer_workflow.Prelude.{
  String, Bool, true, false, ◌&&◌, not, none, some, List, [], ◌++◌, ◌≡◌, refl, str_eq, eq_iff, Elem,
  inl, inr, arith, ◌⊎◌, ◌≢◌, subst, Option-cases,
}
use ai_engineer_workflow.SetupContract.Checks.{
  refuse, each, ⊳-none, refuse-none, refuse-none-not, each-none, contains_semantic,
  contains_semantic-Elem,
}
use ai_engineer_workflow.SetupContract.Registry.{Descriptor, lookup}
use ai_engineer_workflow.SetupContract.Model.{Effect, entries, parameter?, parameter}
use ai_engineer_workflow.SetupContract.Text.{is_blank}
use ai_engineer_workflow.SetupContract.Effects.{
  Problem, RequiredCheck, Json, check_identities, required_check_name, git_hub_actions_app_id,
  validate_effect, check_schema, check_required, required_value, allow_empty,
  unsupported_effect_kind, unsupported_action, unknown_parameter, check_values, check_kind,
  check_checks, validate_with, required_parameter,
}
use ai_engineer_workflow.SetupContract.Identities.{check_identities-agree, check_identities-one}

-- the parts of the answer on an effect whose kind the registry has
record Passed (json : Json) (plan_kind : String) (e : Effect) : Type 0 where
  schema : Descriptor
  found : lookup e.kind ≡ some schema
  by_schema : check_schema plan_kind schema e ≡ none
  checks : check_checks json e ≡ none

validate_effect-Passed :
    (json : Json) (plan_kind : String) (e : Effect)
    → validate_effect json plan_kind e ≡ none
    → Passed json plan_kind e
unfolding validate_effect validate_with
validate_effect-Passed json plan_kind e h = elim (Option-cases (lookup e.kind)) [
  | inl missing ↦ absurd (ground (arith, h, missing))
  | inr (schema, found) ↦
      let all : validate_with json plan_kind schema e ≡ none = ground (arith, h, found) in
      let (a, h1) = ⊳-none (check_schema plan_kind schema e) _ all in
      let (b, h2) = ⊳-none (check_values e) _ h1 in
      let (c, h3) = ⊳-none (check_kind e) _ h2 in
      let (d, checks) = ⊳-none _ (check_checks json e) h3 in
      record { schema = schema; found = found; by_schema = a; checks = checks }
]

check_checks-identities :
    (json : Json) (e : Effect) (cs : List RequiredCheck)
    → check_checks json e ≡ none
    → e.kind ≡ "repository_contract_pr"
    → json.required_checks (parameter e "required_checks_json") ≡ some cs
    → check_identities [] cs ≡ none
unfolding check_checks
check_checks-identities json e cs h kind read =
    ground (arith, h, kind, read, eq_iff e.kind "repository_contract_pr")

-- The required checks of a repository contract that `validateEffect` accepts have a context and an
-- App each, checks of one context have the same App, and `workflow-contract` has GitHub Actions.
pub validate_effect-checks :
    (json : Json) (plan_kind : String) (e : Effect) (cs : List RequiredCheck)
    → validate_effect json plan_kind e ≡ none
    → e.kind ≡ "repository_contract_pr"
    → json.required_checks (parameter e "required_checks_json") ≡ some cs
    → ((c : RequiredCheck)
        → Elem c cs
        → (c.context ≢ "")
          × (c.app_id ≢ 0)
          × (c.context ≡ required_check_name → c.app_id ≡ git_hub_actions_app_id))
      × ((c d : RequiredCheck)
          → Elem c cs
          → Elem d cs
          → c.context ≡ d.context
          → c.app_id ≡ d.app_id)
validate_effect-checks json plan_kind e cs h kind read =
    let passed = validate_effect-Passed json plan_kind e h in
    let ids = check_checks-identities json e cs passed.checks kind read in
    (
      (λ c m.
          let (context, app, existing, approved) = check_identities-agree [] cs ids c m in
          (context, app, approved)),
      check_identities-one [] cs ids,
    )

refused : {p : Problem} → some p ≡ none → ⊥
refused e = cc

allowed_or_text : (a b : Bool) → (not a && b) ≡ false → (a ≡ true) ⊎ (b ≡ false)
allowed_or_text true b h = inl refl
allowed_or_text false b h = inr h

check_required-present :
    (e : Effect) (key : String)
    → check_required e key ≡ none
    → (value : String) × (parameter? e key ≡ some value)
      × ((allow_empty e.kind key ≡ true) ⊎ (is_blank value ≡ false))
check_required-present e key h = elim (Option-cases (parameter? e key)) [
  | inl missing ↦ absurd (refused (subst (λ o. required_value e key o ≡ none) missing h))
  | inr (value, found) ↦
      let allowed : refuse (not (allow_empty e.kind key) && is_blank value) (required_parameter key)
          ≡ none =
        subst (λ o. required_value e key o ≡ none) found h in
      (
        value,
        found,
        allowed_or_text (allow_empty e.kind key) (is_blank value) (refuse-none _ _ allowed),
      )
]

-- An effect that `validateEffect` accepts has a descriptor for the kind of plan, an action of it, no
-- parameter that it does not name, and all parameters that it requires, none of them blank but the
-- two that may be empty.
pub validate_effect-Within :
    (json : Json) (plan_kind : String) (e : Effect)
    → validate_effect json plan_kind e ≡ none
    → (schema : Descriptor) × (lookup e.kind ≡ some schema)
      × (schema.plan_kind ≡ plan_kind)
      × Elem e.action schema.actions
      × ((entry : String × String)
          → Elem entry (entries e)
          → Elem entry.0 (schema.required ++ schema.optional))
      × ((key : String)
          → Elem key schema.required
          → (value : String) × (parameter? e key ≡ some value)
            × ((allow_empty e.kind key ≡ true) ⊎ (is_blank value ≡ false)))
unfolding check_schema
validate_effect-Within json plan_kind e h =
    let passed = validate_effect-Passed json plan_kind e h in
    let schema = passed.schema in
    let (kind, h1) =
      ⊳-none (refuse (not (str_eq schema.plan_kind plan_kind)) unsupported_effect_kind) _
        passed.by_schema in
    let (action, h2) =
      ⊳-none (refuse (not (contains_semantic schema.actions e.action)) unsupported_action) _ h1 in
    let (named, required) =
      ⊳-none
        (each
          (λ entry.
            refuse (not (contains_semantic (schema.required ++ schema.optional) entry.0))
              (unknown_parameter entry.0))
          (entries e))
        _ h2 in
    (
      schema,
      passed.found,
      (eq_iff _ _).0 (refuse-none-not _ _ kind),
      contains_semantic-Elem _ _ (refuse-none-not _ _ action),
      (λ entry m.
          contains_semantic-Elem _ _ (refuse-none-not _ _ (each-none _ (entries e) named entry m))),
      (λ key m.
          check_required-present e key
            (each-none (check_required e) schema.required required key m)),
    )
