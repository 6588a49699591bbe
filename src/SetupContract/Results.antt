-- ===== src/SetupContract/Results.antt =====
-- The checks of ids and of execution results in internal/setupcontract/validate.go, each against a
-- description of what it accepts.
use ai_engineer_workflow.Prelude.{
  String, Bool, true, false, ◌||◌, not, none, List, [], ◌∷◌, map, ◌≡◌, refl, ◌≤◌, Elem, inl, inr,
  arith, ◌↔◌, All, Distinct, ◌≢◌, subst, Bool-cases, ◌==◌, ltb,
}
use ai_engineer_workflow.SetupContract.Checks.{
  refuse, ⊳-none, none-⊳, refuse-none, refuse-none-not, none-refuse, none-refuse-not,
  contains_semantic, contains_semantic-Elem, Elem-contains_semantic,
}
use ai_engineer_workflow.SetupContract.Text.{matches_identifier, matches_hex}
use ai_engineer_workflow.SetupContract.Model.{EffectResult, ExecutionResult}
use ai_engineer_workflow.SetupContract.Effects.{
  stable_ids, bad_id, duplicate_id, bad_effect_identity, bad_effect_status, bad_result_identity,
  bad_timestamps, bad_status, duplicate_effect_result,
}
use ai_engineer_workflow.SetupContract.Verify.{validate_result, check_results}

abbrev pub IsId : String → Type 0
IsId id = matches_identifier id ≡ true

abbrev New : List String → List String → Type 0
New seen ids = (id : String) → Elem id ids → Elem id seen → ⊥

stable_ids-IsStable :
    (seen ids : List String)
    → stable_ids seen ids ≡ none
    → All IsId ids × Distinct ids × New seen ids
unfolding stable_ids
stable_ids-IsStable seen [] h = (tt, tt, λ id m. elim m [ ])
stable_ids-IsStable seen (id ∷ ids) h =
    let (valid, h1) = ⊳-none (refuse (not (matches_identifier id)) (bad_id id)) _ h in
    let (fresh, h2) =
      ⊳-none (refuse (contains_semantic seen id) (duplicate_id id)) (stable_ids (id ∷ seen) ids)
        h1 in
    let (all, distinct, new) = stable_ids-IsStable (id ∷ seen) ids h2 in
    let not_seen : Elem id seen → ⊥ =
      λ m. ground (arith, fresh, Elem-contains_semantic seen id m) in
    (
      (ground (arith, valid), all),
      ((λ m. new id m (inl refl)), distinct),
      (λ x m s. elim m [
        | inl same ↦ not_seen (subst (λ y. Elem y seen) same s)
        | inr later ↦ new x later (inr s)
      ]),
    )

IsStable-stable_ids :
    (seen ids : List String)
    → All IsId ids
    → Distinct ids
    → New seen ids
    → stable_ids seen ids ≡ none
unfolding stable_ids
IsStable-stable_ids seen [] all distinct new = refl
IsStable-stable_ids seen (id ∷ ids) (valid, all) (once, distinct) new =
    let rest = IsStable-stable_ids (id ∷ seen) ids all distinct (λ x m s. elim s [
      | inl same ↦ once (subst (λ y. Elem y ids) same m)
      | inr s' ↦ new x (inr m) s'
    ]) in
    let not_seen : contains_semantic seen id ≡ false =
      elim (Bool-cases (contains_semantic seen id)) [
        | inl is ↦ absurd (new id (inl refl) (contains_semantic-Elem seen id is))
        | inr is ↦ is
      ] in
    ground (arith, valid, rest, not_seen)

-- `validateStableIDs` accepts a list exactly when all its ids have the form of an identifier and
-- no two are the same.
pub stable_ids_iff :
    (ids : List String) → (stable_ids [] ids ≡ none) ↔ (All IsId ids × Distinct ids)
stable_ids_iff ids = (
  (λ h. let (all, distinct, new) = stable_ids-IsStable [] ids h in (all, distinct)),
  (λ h. IsStable-stable_ids [] ids h.0 h.1 (λ id m s. elim s [ ])),
)

abbrev pub HasKnownStatus : EffectResult → Type 0
HasKnownStatus r = Elem r.status ("satisfied" ∷ "required" ∷ "conflicting" ∷ "failed" ∷ [])

abbrev statuses : List String
statuses = "satisfied" ∷ "required" ∷ "conflicting" ∷ "failed" ∷ []

-- The check of the results is the check of their ids, and of each status.
check_results-ids :
    (seen : List String) (rs : List EffectResult)
    → check_results seen rs ≡ none
    → (stable_ids seen (map (λ r. r.effect_id) rs) ≡ none) × All HasKnownStatus rs
unfolding check_results stable_ids
check_results-ids seen [] h = (refl, tt)
check_results-ids seen (r ∷ rs) h =
    let id = r.effect_id in
    let (valid, h1) = ⊳-none (refuse (not (matches_identifier id)) (bad_effect_identity id)) _ h in
    let (fresh, h2) =
      ⊳-none (refuse (contains_semantic seen id) (duplicate_effect_result id)) _ h1 in
    let (known, h3) =
      ⊳-none (refuse (not (contains_semantic statuses r.status)) (bad_effect_status id)) _ h2 in
    let (ids, all) = check_results-ids (id ∷ seen) rs h3 in
    (
      none-⊳ _ _ (none-refuse-not (matches_identifier id) (bad_id id) (refuse-none-not _ _ valid)) (
          none-⊳ _ _
            (none-refuse (contains_semantic seen id) (duplicate_id id) (refuse-none _ _ fresh))
            ids),
      (contains_semantic-Elem statuses r.status (refuse-none-not _ _ known), all),
    )

ids-check_results :
    (seen : List String) (rs : List EffectResult)
    → stable_ids seen (map (λ r. r.effect_id) rs) ≡ none
    → All HasKnownStatus rs
    → check_results seen rs ≡ none
unfolding check_results stable_ids
ids-check_results seen [] h all = refl
ids-check_results seen (r ∷ rs) h (known, all) =
    let id = r.effect_id in
    let (valid, h1) = ⊳-none (refuse (not (matches_identifier id)) (bad_id id)) _ h in
    let (fresh, h2) = ⊳-none (refuse (contains_semantic seen id) (duplicate_id id)) _ h1 in
    none-⊳ _ _
      (none-refuse-not (matches_identifier id) (bad_effect_identity id) (refuse-none-not _ _ valid))
      (none-⊳ _ _
        (none-refuse (contains_semantic seen id) (duplicate_effect_result id)
          (refuse-none _ _ fresh))
        (none-⊳ _ _
          (none-refuse-not (contains_semantic statuses r.status) (bad_effect_status id)
            (Elem-contains_semantic statuses r.status known))
          (ids-check_results (id ∷ seen) rs h2 all)))

abbrev outcomes : List String
outcomes = "succeeded" ∷ "incomplete" ∷ "drifted" ∷ "blocked" ∷ []

-- a well-formed record of an execution
abbrev pub IsWellFormed : ExecutionResult → Type 0
IsWellFormed r =
    (r.schema_version ≡ 1)
    × IsId r.plan_id
    × IsId r.attempt_id
    × (matches_hex 64 r.plan_digest ≡ true)
    × (r.started_at ≢ 0)
    × (r.started_at ≤ r.finished_at)
    × Elem r.status ("succeeded" ∷ "incomplete" ∷ "drifted" ∷ "blocked" ∷ [])
    × All IsId (map (λ e. e.effect_id) r.effects)
    × Distinct (map (λ e. e.effect_id) r.effects)
    × All HasKnownStatus r.effects

abbrev identity : ExecutionResult → Bool
identity r =
    not (r.schema_version == 1)
    || not (matches_identifier r.plan_id)
    || not (matches_identifier r.attempt_id)
    || not (matches_hex 64 r.plan_digest)

abbrev untimely : ExecutionResult → Bool
untimely r = r.started_at == 0 || ltb r.finished_at r.started_at

validate_result-WellFormed : (r : ExecutionResult) → validate_result r ≡ none → IsWellFormed r
unfolding validate_result
validate_result-WellFormed r h =
    let (a, h1) = ⊳-none (refuse (identity r) bad_result_identity) _ h in
    let (b, h2) = ⊳-none (refuse (untimely r) bad_timestamps) _ h1 in
    let (c, h3) = ⊳-none (refuse (not (contains_semantic outcomes r.status)) bad_status) _ h2 in
    let (ids, known) = check_results-ids [] r.effects h3 in
    let (valid, distinct) = (stable_ids_iff (map (λ e. e.effect_id) r.effects)).0 ids in
    let i : identity r ≡ false = refuse-none _ _ a in
    let t : untimely r ≡ false = refuse-none _ _ b in
    (
      ground (arith, i),
      ground (arith, i),
      ground (arith, i),
      ground (arith, i),
      ground (arith, t),
      ground (arith, t),
      contains_semantic-Elem outcomes r.status (refuse-none-not _ _ c),
      valid,
      distinct,
      known,
    )

WellFormed-validate_result : (r : ExecutionResult) → IsWellFormed r → validate_result r ≡ none
unfolding validate_result
WellFormed-validate_result r
      (schema, plan, attempt, digest, started, ordered, status, valid, distinct, known) =
    none-⊳ _ _
      (none-refuse (identity r) bad_result_identity (ground (arith, schema, plan, attempt, digest)))
      (none-⊳ _ _ (none-refuse (untimely r) bad_timestamps (ground (arith, started, ordered))) (
        none-⊳ _ _
          (none-refuse-not (contains_semantic outcomes r.status) bad_status
            (Elem-contains_semantic outcomes r.status status))
          (ids-check_results [] r.effects
            ((stable_ids_iff (map (λ e. e.effect_id) r.effects)).1 (valid, distinct)) known)))

-- `ExecutionResult.Validate` accepts a record exactly when it is well formed: of this schema, with
-- an identity, times in order, a known status, and one result of known status for each effect id.
pub validate_result_iff : (r : ExecutionResult) → (validate_result r ≡ none) ↔ IsWellFormed r
validate_result_iff r = (validate_result-WellFormed r, WellFormed-validate_result r)
