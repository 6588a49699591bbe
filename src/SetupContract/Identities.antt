-- ===== src/SetupContract/Identities.antt =====
-- The identities of required checks in `validateEffect` of internal/setupcontract/validate.go.
use ai_engineer_workflow.Prelude.{
  ℕ, String, true, false, ◌&&◌, ◌||◌, not, none, List, [], ◌∷◌, ◌≡◌, refl, sym, ap, ◌∙◌, str_eq,
  eq_iff, Elem, inl, inr, arith, ◌⊎◌, ◌≢◌, subst, Bool-cases, ◌==◌,
}
use ai_engineer_workflow.SetupContract.Checks.{refuse, ⊳-none, refuse-none}
use ai_engineer_workflow.SetupContract.Effects.{
  RequiredCheck, check_identities, identity_of, has_identity, required_check_name,
  git_hub_actions_app_id, unidentified_check, conflicting_checks,
}

has_identity-of :
    (known : List (String × ℕ)) (context : String)
    → identity_of known context ≢ 0
    → has_identity known context ≡ true
has_identity-of [] context h = absurd (h refl)
has_identity-of ((c, id) ∷ known) context h = ground (arith, h, has_identity-of known context)

-- once a context has an identity, that stays to the end
check_identities-approved :
    (known : List (String × ℕ)) (cs : List RequiredCheck)
    → check_identities known cs ≡ none
    → identity_of known required_check_name ≢ 0
    → identity_of known required_check_name ≡ git_hub_actions_app_id
unfolding check_identities
check_identities-approved known [] h some_id =
    ground (arith, h, some_id, has_identity-of known required_check_name)
check_identities-approved known (d ∷ ds) h some_id =
    let existing = identity_of known d.context in
    let (named, h1) =
      ⊳-none (refuse (str_eq d.context "" || d.app_id == 0) unidentified_check) _ h in
    let (same, h2) =
      ⊳-none (refuse (not (existing == 0) && not (existing == d.app_id)) conflicting_checks) _ h1 in
    let named' = refuse-none _ _ named in
    let same' = refuse-none _ _ same in
    let ih = check_identities-approved ((d.context, d.app_id) ∷ known) ds h2 in
    elim (Bool-cases (str_eq d.context required_check_name)) [
      | inl here ↦
          let is : d.context ≡ required_check_name = (eq_iff _ _).0 here in
          let e : existing ≡ identity_of known required_check_name = ap (identity_of known) is in
          ground (arith, here, named', same', ih, e, some_id)
      | inr other ↦ ground (arith, other, ih, some_id)
    ]

-- an identified check that the identities known before do not contradict
abbrev pub IsAgreed : List (String × ℕ) → RequiredCheck → Type 0
IsAgreed known c =
    (c.context ≢ "")
    × (c.app_id ≢ 0)
    × ((identity_of known c.context ≡ 0) ⊎ (identity_of known c.context ≡ c.app_id))
    × (c.context ≡ required_check_name → c.app_id ≡ git_hub_actions_app_id)

agree_here :
    (d : RequiredCheck) (known : List (String × ℕ)) (ds : List RequiredCheck)
    → (str_eq d.context "" || d.app_id == 0) ≡ false
    → (not (identity_of known d.context == 0) && not (identity_of known d.context == d.app_id))
      ≡ false
    → check_identities ((d.context, d.app_id) ∷ known) ds ≡ none
    → (c : RequiredCheck) → c ≡ d
    → IsAgreed known c
agree_here d known ds named same h c is =
    let approved = check_identities-approved ((d.context, d.app_id) ∷ known) ds h in
    subst (IsAgreed known) (sym is) (
      ground (arith, named, eq_iff d.context ""),
      ground (arith, named),
      ground (arith, same),
      ground (arith, named, approved, eq_iff d.context required_check_name),
    )

agree_later :
    (d : RequiredCheck) (known : List (String × ℕ)) {c : RequiredCheck}
    → (str_eq d.context "" || d.app_id == 0) ≡ false
    → (not (identity_of known d.context == 0) && not (identity_of known d.context == d.app_id))
      ≡ false
    → IsAgreed ((d.context, d.app_id) ∷ known) c
    → IsAgreed known c
agree_later d known {c} named same (context, app, existing, approved) =
    (context, app, earlier, approved)
  where
    earlier : (identity_of known c.context ≡ 0) ⊎ (identity_of known c.context ≡ c.app_id)
    earlier = elim (Bool-cases (str_eq d.context c.context)) [
      | inl here ↦
          let e : identity_of known d.context ≡ identity_of known c.context =
            ap (identity_of known) ((eq_iff d.context c.context).0 here) in
          ground (arith, named, same, here, existing, e)
      | inr other ↦ ground (arith, other, existing)
    ]

-- The final map has the identities of the checks, and those that were there before.
pub check_identities-agree :
    (known : List (String × ℕ)) (cs : List RequiredCheck)
    → check_identities known cs ≡ none
    → (c : RequiredCheck) → Elem c cs
    → IsAgreed known c
unfolding check_identities
check_identities-agree known [] h c m = elim m [ ]
check_identities-agree known (d ∷ ds) h c m =
    let bad = str_eq d.context "" || d.app_id == 0 in
    let existing = identity_of known d.context in
    let (named, h1) = ⊳-none (refuse bad unidentified_check) _ h in
    let (same, h2) =
      ⊳-none (refuse (not (existing == 0) && not (existing == d.app_id)) conflicting_checks) _ h1 in
    let named' = refuse-none _ _ named in
    let same' = refuse-none _ _ same in
    elim m [
      | inl is ↦ agree_here d known ds named' same' h2 c is
      | inr later ↦
          agree_later d known named' same'
            (check_identities-agree ((d.context, d.app_id) ∷ known) ds h2 c later)
    ]

one_identity :
    (known : List (String × ℕ)) (d : RequiredCheck) (ds : List RequiredCheck)
    → d.app_id ≢ 0
    → check_identities ((d.context, d.app_id) ∷ known) ds ≡ none
    → (c : RequiredCheck) → Elem c ds
    → d.context ≡ c.context
    → d.app_id ≡ c.app_id
one_identity known d ds some_id h c m e =
    let (context, app, existing, approved) =
      check_identities-agree ((d.context, d.app_id) ∷ known) ds h c m in
    ground (arith, existing, some_id, e, eq_iff d.context c.context)

-- Two checks of one context have one identity.
pub check_identities-one :
    (known : List (String × ℕ)) (cs : List RequiredCheck)
    → check_identities known cs ≡ none
    → (c d : RequiredCheck) → Elem c cs
    → Elem d cs
    → c.context ≡ d.context
    → c.app_id ≡ d.app_id
unfolding check_identities
check_identities-one known [] h c d m n e = elim m [ ]
check_identities-one known (x ∷ xs) h c d m n e =
    let (named, h1) =
      ⊳-none (refuse (str_eq x.context "" || x.app_id == 0) unidentified_check) _ h in
    let (same, h2) =
      ⊳-none
        (refuse
          (not (identity_of known x.context == 0) && not (identity_of known x.context == x.app_id))
          conflicting_checks)
        _ h1 in
    let named' = refuse-none _ _ named in
    let some_id : x.app_id ≢ 0 = ground (arith, named') in
    elim m [
      | inl is ↦ elim n [
        | inl is' ↦ ap (λ r. r.app_id) (is ∙ sym is')
        | inr n' ↦
            ap (λ r. r.app_id) is
            ∙ one_identity known x xs some_id h2 d n' (ap (λ r. r.context) (sym is) ∙ e)
      ]
      | inr m' ↦ elim n [
        | inl is' ↦ sym (
            ap (λ r. r.app_id) is'
            ∙ one_identity known x xs some_id h2 c m' (ap (λ r. r.context) (sym is') ∙ sym e))
        | inr n' ↦ check_identities-one ((x.context, x.app_id) ∷ known) xs h2 c d m' n' e
      ]
    ]
