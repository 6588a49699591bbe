-- ===== src/SetupContract/Ordered.antt =====
-- The order of the effects in a Setup Plan that `Plan.Validate` of
-- internal/setupcontract/validate.go accepts.
use ai_engineer_workflow.Prelude.{
  String, true, ◌&&◌, none, some, List, [], ◌∷◌, ◌++◌, ◌≡◌, refl, sym, ap, ◌∙◌, str_eq, eq_iff,
  Elem, inl, inr, arith, Bool-cases, Option-cases, ◌⊎◌, ◌≢◌, subst,
}
use ai_engineer_workflow.SetupContract.Checks.{⊳-none}
use ai_engineer_workflow.SetupContract.Model.{Effect, Plan, parameter}
use ai_engineer_workflow.SetupContract.Validate.{
  Library, validate, check_order, check_history, check_contract, is_created, indexed,
  is_baseline_of,
}
use ai_engineer_workflow.SetupContract.Admitted.{validate-Passed}

-- At each place of the list the checks were made against effects that stand before it.
check_order-at :
    (earlier before : List Effect) (e : Effect) (after : List Effect)
    → check_order earlier (before ++ e ∷ after) ≡ none
    → (seen : List Effect) × (check_history (e ∷ seen) e ≡ none)
      × (check_contract seen e ≡ none)
      × ((x : Effect) → Elem x seen → Elem x before ⊎ Elem x earlier)
unfolding check_order
check_order-at earlier [] e after h =
    let (history, h1) = ⊳-none (check_history (e ∷ earlier) e) _ h in
    let (contract, h2) = ⊳-none (check_contract earlier e) _ h1 in
    (earlier, history, contract, λ x m. inr m)
check_order-at earlier (b ∷ before) e after h =
    let (history, h1) = ⊳-none (check_history (b ∷ earlier) b) _ h in
    let (contract, h2) = ⊳-none (check_contract earlier b) _ h1 in
    let (seen, now, bound, from) = check_order-at (b ∷ earlier) before e after h2 in
    (
      seen,
      now,
      bound,
      λ x m. elim (from x m) [
        | inl l ↦ inl (inr l)
        | inr (inl same) ↦ inl (inl same)
        | inr (inr l) ↦ inr l
      ],
    )

is_created-Elem :
    (es : List Effect) (subject : String)
    → is_created es subject ≡ true
    → (c : Effect) × Elem c es × (c.kind ≡ "create_repository") × (c.subject ≡ subject)
is_created-Elem [] subject h = absurd cc
is_created-Elem (e ∷ es) subject h =
    elim (Bool-cases (str_eq e.kind "create_repository" && str_eq e.subject subject)) [
      | inl here ↦ (
        e,
        inl refl,
        ground (arith, here, eq_iff e.kind "create_repository"),
        ground (arith, here, eq_iff e.subject subject),
      )
      | inr there ↦
          let (c, m, k, s) = is_created-Elem es subject (ground (arith, h, there)) in
          (c, inr m, k, s)
    ]

indexed-Elem :
    (es : List Effect) (id : String) (b : Effect) → indexed es id ≡ some b → Elem b es × (b.id ≡ id)
indexed-Elem [] id b h = absurd cc
indexed-Elem (e ∷ es) id b h = ground (arith, h, eq_iff e.id id, indexed-Elem es id b)

check_history-created :
    (seen : List Effect) (e : Effect)
    → check_history seen e ≡ none
    → e.kind ≡ "publish_history"
    → parameter e "new_repository" ≡ "true"
    → is_created seen e.subject ≡ true
unfolding check_history
check_history-created seen e h kind new = ground (
  arith,
  h,
  kind,
  new,
  eq_iff e.kind "publish_history",
  eq_iff (parameter e "new_repository") "true",
)

check_contract-baseline :
    (seen : List Effect) (e : Effect)
    → check_contract seen e ≡ none
    → e.kind ≡ "repository_contract_pr"
    → parameter e "base_head" ≡ ""
    → (b : Effect) × (indexed seen (parameter e "base_head_effect_id") ≡ some b)
      × (is_baseline_of b e ≡ true)
unfolding check_contract
check_contract-baseline seen e h kind no_base =
    elim (Option-cases (indexed seen (parameter e "base_head_effect_id"))) [
      | inl missing ↦ absurd (
          ground (
            arith,
            h,
            kind,
            no_base,
            missing,
            eq_iff e.kind "repository_contract_pr",
            eq_iff (parameter e "base_head") "",
          ))
      | inr (b, found) ↦ (
        b,
        found,
        ground (
          arith,
          h,
          kind,
          no_base,
          found,
          eq_iff e.kind "repository_contract_pr",
          eq_iff (parameter e "base_head") "",
        ),
      )
    ]

abbrev publish_history : String
publish_history = "publish_history"

abbrev create_repository : String
create_repository = "create_repository"

publish≢create : publish_history ≢ create_repository
publish≢create e = ground (arith, e, eq_iff "publish_history" "create_repository")

-- the effect that a later one rests on
abbrev pub IsCreationOf : Effect → Effect → Type 0
IsCreationOf e c = (c.kind ≡ "create_repository") × (c.subject ≡ e.subject)

abbrev pub IsBaselineOf : Effect → Effect → Type 0
IsBaselineOf e b =
    (b.id ≡ parameter e "base_head_effect_id")
    × (b.kind ≡ "initial_baseline")
    × (parameter b "repository" ≡ e.subject)

-- In a plan that `Plan.Validate` accepts, an effect that publishes history to a new repository
-- stands behind one that creates this repository, and a repository contract without an approved
-- base head behind the Initial Repository Baseline of its repository that it names.
pub validate-InOrder :
    (lib : Library) (p : Plan) (before : List Effect) (e : Effect) (after : List Effect)
    → validate lib p ≡ none
    → p.effects ≡ before ++ e ∷ after
    → (e.kind ≡ "publish_history"
        → parameter e "new_repository" ≡ "true"
        → (c : Effect) × Elem c before × IsCreationOf e c)
      × (e.kind ≡ "repository_contract_pr"
          → parameter e "base_head" ≡ ""
          → (b : Effect) × Elem b before × IsBaselineOf e b)
validate-InOrder lib p before e after accepted split =
    let passed = validate-Passed lib p accepted in
    let (seen, history, contract, from) =
      check_order-at [] before e after
        (subst (λ es. check_order [] es ≡ none) split passed.order) in
    (
      (λ kind new.
          let (c, m, k, s) =
            is_created-Elem (e ∷ seen) e.subject
              (check_history-created (e ∷ seen) e history kind new) in
          elim m [
            | inl same ↦ absurd (publish≢create (sym kind ∙ sym (ap (λ x. x.kind) same) ∙ k))
            | inr m' ↦ elim (from c m') [ inl l ↦ (c, l, (k, s)) | inr l ↦ elim l [ ] ]
          ]),
      (λ kind no_base.
          let (b, found, is) = check_contract-baseline seen e contract kind no_base in
          let (m, id) = indexed-Elem seen (parameter e "base_head_effect_id") b found in
          elim (from b m) [
            | inl l ↦ (
              b,
              l,
              (
                id,
                ground (arith, is, eq_iff b.kind "initial_baseline"),
                ground (arith, is, eq_iff (parameter b "repository") e.subject),
              ),
            )
            | inr l ↦ elim l [ ]
          ]),
    )
