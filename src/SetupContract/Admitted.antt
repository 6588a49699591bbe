-- ===== src/SetupContract/Admitted.antt =====
-- What a Setup Plan that `Plan.Validate` accepts promises: the kinds of effects in it, and that the verification after its execution has nothing left to refuse.
use ai_engineer_workflow.Prelude.{
  String, Bool, true, Option, none, some, List, [], ◌≡◌, refl, str_eq, eq_iff, Elem, arith,
  if◌then◌else◌, ◌↔◌,
}
use ai_engineer_workflow.SetupContract.Checks.{each, ⊳-none, none-⊳, each-none, none-each}
use ai_engineer_workflow.SetupContract.Registry.{repository_onboarding}
use ai_engineer_workflow.SetupContract.Model.{Effect, ExpectedResult, Plan, EffectResult}
use ai_engineer_workflow.SetupContract.Effects.{Problem, not_onboarding}
use ai_engineer_workflow.SetupContract.Validate.{
  Library, validate, check_identity, check_parts, check_precondition, check_effect,
  validate_onboarding_identity, check_target, check_site, site_of, outside, check_order,
  check_expected, validate_binding,
}
use ai_engineer_workflow.SetupContract.Verify.{
  verify_expected_results, check_satisfied, status_of, satisfied,
}

-- Each part of the plan passed its check.
pub record Passed (lib : Library) (p : Plan) : Type 0 where
  pub identity : check_identity p ≡ none
  pub effects : each (check_effect lib p.kind) p.effects ≡ none
  pub target : validate_onboarding_identity lib p ≡ none
  pub order : check_order [] p.effects ≡ none
  pub results : each (check_expected p) p.expected_results ≡ none

check_identity-kind :
    (p : Plan) → check_identity p ≡ none → str_eq p.kind repository_onboarding ≡ true
unfolding check_identity
check_identity-kind p e = ground (arith, e)

onboards : {b : Bool} → {e : Option Problem} → b ≡ true → (if b then e else none) ≡ none → e ≡ none
onboards {b = b} {e = e} t h = ground (arith, t, h)

pub validate-Passed : (lib : Library) (p : Plan) → validate lib p ≡ none → Passed lib p
unfolding validate
validate-Passed lib p e =
    let (identity, e1) = ⊳-none (check_identity p) _ e in
    let (parts, e2) = ⊳-none (check_parts p) _ e1 in
    let (preconditions, e3) = ⊳-none (each (check_precondition p.kind) p.preconditions) _ e2 in
    let (effects, e4) = ⊳-none (each (check_effect lib p.kind) p.effects) _ e3 in
    let (onboarding, e5) = ⊳-none _ _ e4 in
    let (results, secrets) = ⊳-none (each (check_expected p) p.expected_results) _ e5 in
    let kind = check_identity-kind p identity in
    let (target, order) =
      ⊳-none (validate_onboarding_identity lib p) (check_order [] p.effects)
        (onboards kind onboarding) in
    record {
      identity = identity;
      effects = effects;
      target = target;
      order = order;
      results = results;
    }

check_expected-binding :
    (p : Plan) (r : ExpectedResult)
    → check_expected p r ≡ none
    → validate_binding p.effects r ≡ none
unfolding check_expected
check_expected-binding p r e =
    let (x, e1) = ⊳-none _ _ e in let (y, e2) = ⊳-none _ (validate_binding p.effects r) e1 in e2

check_satisfied-eq :
    (rs : List EffectResult) (e : Effect)
    → check_satisfied rs e ≡ none
    → status_of rs e.id ≡ satisfied
unfolding check_satisfied
check_satisfied-eq rs e h = ground (arith, h, eq_iff (status_of rs e.id) satisfied)

eq-check_satisfied :
    (rs : List EffectResult) (e : Effect)
    → status_of rs e.id ≡ satisfied
    → check_satisfied rs e ≡ none
unfolding check_satisfied
eq-check_satisfied rs e h = ground (arith, h, eq_iff (status_of rs e.id) satisfied)

-- For a plan that `Plan.Validate` accepts, `VerifyExpectedResults` finds nothing to refuse exactly
-- when the last result of every effect of the plan is satisfied: no expected result is left to
-- chance.
pub validate-verify_iff :
    (lib : Library) (p : Plan) (rs : List EffectResult)
    → validate lib p ≡ none
    → (verify_expected_results p rs ≡ none)
      ↔ ((e : Effect) → Elem e p.effects → status_of rs e.id ≡ satisfied)
unfolding verify_expected_results
validate-verify_iff lib p rs accepted =
    let passed = validate-Passed lib p accepted in
    let bound : each (validate_binding p.effects) p.expected_results ≡ none =
      none-each (validate_binding p.effects) p.expected_results (λ r m.
        check_expected-binding p r
          (each-none (check_expected p) p.expected_results passed.results r m)) in
    (
      (λ h e m. check_satisfied-eq rs e (
          each-none (check_satisfied rs) p.effects
            (⊳-none (each (check_satisfied rs) p.effects) _ h).0 e m)),
      (λ h.
          none-⊳ (each (check_satisfied rs) p.effects) _
            (none-each (check_satisfied rs) p.effects (λ e m. eq-check_satisfied rs e (h e m)))
            bound),
    )

site_of-variable : (e : Effect) → e.kind ≡ "repository_variable" → site_of e ≡ outside
site_of-variable e kind = simp kind refl

check_site-outside :
    (lib : Library) (path target : String) (e : Effect)
    → site_of e ≡ outside
    → check_site lib path target e ≡ none
    → ⊥
unfolding check_site
check_site-outside lib path target e there h =
    let refused : check_site lib path target e ≡ some (not_onboarding e.id) =
      rw (check_site, there) refl in
    cc

check_site-kind :
    (lib : Library) (path target : String) (e : Effect)
    → check_site lib path target e ≡ none
    → e.kind ≡ "repository_variable"
    → ⊥
unfolding check_site
check_site-kind lib path target e h kind =
    check_site-outside lib path target e (site_of-variable e kind) h

-- No plan that `Plan.Validate` accepts has an effect of the kind `repository_variable`, although
-- the registry has a descriptor of this kind for Repository Onboarding.
pub validate-kinds :
    (lib : Library) (p : Plan) (e : Effect)
    → validate lib p ≡ none
    → Elem e p.effects
    → ¬ (e.kind ≡ "repository_variable")
unfolding validate_onboarding_identity check_target
validate-kinds lib p e accepted m kind =
    let passed = validate-Passed lib p accepted in
    let (a, e1) = ⊳-none _ _ passed.target in
    let (b, e2) = ⊳-none _ _ e1 in
    let (targets, c) = ⊳-none _ _ e2 in
    let one =
      each-none (check_target lib p.target.repository_path p.target.github_repository) p.effects
        targets e m in
    check_site-kind lib p.target.repository_path p.target.github_repository e (⊳-none _ _ one).0
      kind
