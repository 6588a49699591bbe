-- ===== src/Store/Tables/Rows.antt =====
-- Tables.antt: what an UPDATE does to the rows of a table, the rows that a query finds, and a table
-- with a key.
use ai_engineer_workflow.Prelude.{
  String, Bool, true, false, List, [], ◌∷◌, ◌++◌, map, some, ◌≡◌, ◌∙◌, ◌≢◌, refl, ap, sym, subst,
  inl, inr, Elem, Distinct, Elem-append, Elem-map, Elem-keep, map-Elem, keep-Elem, Elem-append_left,
  Elem-append_right, arith, Bool-cases, if◌then◌else◌, str_eq,
}
use ai_engineer_workflow.Store.Tables.{
  WorkerRun, RunLease, Session, update, count, first, exists, is_lease_of, leases_of, Current,
  with_leases, with_runs, joined,
}

-- what an UPDATE does to one row
abbrev pub amend {ℓ} : {A : Type ℓ} → (A → Bool) → (A → A) → A → A
amend p f x = if p x then f x else x

module _ {A : Type 0} (p : A → Bool) where
  pub exists→Elem : (xs : List A) → exists p xs ≡ true → (x : A) × Elem x xs × (p x ≡ true)
  exists→Elem [] h = cc
  exists→Elem (x ∷ xs) h = elim (Bool-cases (p x)) [
    | inl e ↦ (x, inl refl, e)
    | inr e ↦ let (y, m, q) = exists→Elem xs (ground (arith, e)) in (y, inr m, q)
  ]

  pub Elem→exists : (xs : List A) (x : A) → Elem x xs → p x ≡ true → exists p xs ≡ true
  Elem→exists [] x m h = elim m [ ]
  Elem→exists (y ∷ ys) x m h = ground (arith, Elem→exists ys x)

  pub none-exists : (xs : List A) → ((x : A) → Elem x xs → p x ≡ false) → exists p xs ≡ false
  none-exists [] h = refl
  none-exists (x ∷ xs) h = rw (h x (inl refl)) (none-exists xs (λ y m. h y (inr m)))

  pub none-count : (xs : List A) → ((x : A) → Elem x xs → p x ≡ false) → count p xs ≡ 0
  none-count [] h = refl
  none-count (x ∷ xs) h = rw (h x (inl refl)) (omega (arith, none-count xs (λ y m. h y (inr m))))

  pub count→Elem : (xs : List A) → count p xs ≢ 0 → (x : A) × Elem x xs × (p x ≡ true)
  count→Elem [] h = absurd (h refl)
  count→Elem (x ∷ xs) h = elim (Bool-cases (p x)) [
    | inl e ↦ (x, inl refl, e)
    | inr e ↦ let (y, m, q) = count→Elem xs (ground (arith, e)) in (y, inr m, q)
  ]

  pub first→Elem : (xs : List A) (x : A) → first p xs ≡ some x → Elem x xs × (p x ≡ true)
  first→Elem [] x h = cc
  first→Elem (y ∷ ys) x h = ground (arith, first→Elem ys x)

  pub Elem-update :
      (f : A → A) (xs : List A) (y : A)
      → Elem y (update p f xs)
      → (x : A) × Elem x xs × (y ≡ amend p f x)
  Elem-update f [] y m = elim m [ ]
  Elem-update f (x ∷ xs) y (inl e) = (x, inl refl, e)
  Elem-update f (x ∷ xs) y (inr m) = let (z, n, e) = Elem-update f xs y m in (z, inr n, e)

  pub update-Elem :
      (f : A → A) (xs : List A) (x : A) → Elem x xs → p x ≡ true → Elem (f x) (update p f xs)
  update-Elem f [] x m t = elim m [ ]
  update-Elem f (y ∷ ys) x (inl e) t = rw (sym e, t) (inl refl)
  update-Elem f (y ∷ ys) x (inr m) t = inr (update-Elem f ys x m t)

module _ {A : Type 0} (key : A → String) where
  -- An UPDATE that does not write the key keeps the keys.
  pub map-update :
      (p : A → Bool) (f : A → A)
      → ((x : A) → key (f x) ≡ key x)
      → (xs : List A) → map key (update p f xs) ≡ map key xs
  map-update p f h [] = refl
  map-update p f h (x ∷ xs) = ground (arith, h x, map-update p f h xs)

  pub update-key :
      (p : A → Bool) (f : A → A)
      → ((x : A) → key (f x) ≡ key x)
      → (xs : List A) (y : A) → Elem y (update p f xs)
      → (x : A) × Elem x xs × (key y ≡ key x)
  update-key p f h xs y m =
      let (x, n, e) = Elem-update p f xs y m in
      elim (Bool-cases (p x)) [
        | inl t ↦ (x, n, ap key e ∙ ap key (amend-true x t) ∙ h x)
        | inr t ↦ (x, n, ap key e ∙ ap key (amend-false x t))
      ]
    where
      amend-true : (x : A) → p x ≡ true → amend p f x ≡ f x
      amend-true x t = rw t refl

      amend-false : (x : A) → p x ≡ false → amend p f x ≡ x
      amend-false x t = rw t refl

  -- In a table with a key, one row has a key.
  pub Distinct-one :
      (xs : List A)
      → Distinct (map key xs)
      → (a b : A) → Elem a xs
      → Elem b xs
      → key a ≡ key b
      → a ≡ b
  Distinct-one [] d a b m n e = elim m [ ]
  Distinct-one (x ∷ xs) d a b (inl u) (inl v) e = cc
  Distinct-one (x ∷ xs) d a b (inl u) (inr v) e =
      absurd (d.0 (subst (λ k. Elem k (map key xs)) (cc) (map-Elem key xs b v)))
  Distinct-one (x ∷ xs) d a b (inr u) (inl v) e =
      absurd (d.0 (subst (λ k. Elem k (map key xs)) (cc) (map-Elem key xs a u)))
  Distinct-one (x ∷ xs) d a b (inr u) (inr v) e = Distinct-one xs d.1 a b u v e

-- What the rows of the join are made of.
abbrev pub JoinedOf : List Session → List WorkerRun → List RunLease → Current → Type 0
JoinedOf ss rs ls row =
    Elem row.session ss
    × Elem row.run rs
    × Elem row.lease ls
    × (str_eq row.run.run_id row.session.current_run_id ≡ true)
    × (is_lease_of row.run row.lease ≡ true)

with_leases-Elem :
    (s : Session) (r : WorkerRun) (ls : List RunLease) (row : Current)
    → Elem row (with_leases s r ls)
    → (row.session ≡ s) × (row.run ≡ r) × Elem row.lease ls × (is_lease_of r row.lease ≡ true)
with_leases-Elem s r ls row m =
    let (l, n, e) =
      Elem-map (λ l. record { session = s; run = r; lease = l }) (leases_of ls r) row m in
    let k = Elem-keep (is_lease_of r) ls l n in
    (
      ap (λ c. c.session) e,
      ap (λ c. c.run) e,
      subst (λ z. Elem z ls) (sym (ap (λ c. c.lease) e)) k.0,
      subst (λ z. is_lease_of r z ≡ true) (sym (ap (λ c. c.lease) e)) k.1,
    )

with_runs-Elem :
    (s : Session) (rs : List WorkerRun) (ls : List RunLease) (row : Current)
    → Elem row (with_runs s rs ls)
    → JoinedOf (s ∷ []) rs ls row
with_runs-Elem s [] ls row m = elim m [ ]
with_runs-Elem s (r ∷ rs) ls row m = elim (Bool-cases (str_eq r.run_id s.current_run_id)) [
  | inr e ↦
      let h = with_runs-Elem s rs ls row (
        subst
          (λ b. Elem row (if b then with_leases s r ls ++ with_runs s rs ls else with_runs s rs ls))
          e m) in
      (h.0, inr h.1, h.2, h.3, h.4)
  | inl e ↦
      elim (Elem-append row (with_leases s r ls) (with_runs s rs ls) (
        subst
          (λ b. Elem row (if b then with_leases s r ls ++ with_runs s rs ls else with_runs s rs ls))
          e m)) [
            | inl n ↦
                let (u, v, l, q) = with_leases-Elem s r ls row n in
                (inl u, inl v, l, rw (v, u) e, rw v q)
            | inr n ↦ let h = with_runs-Elem s rs ls row n in (h.0, inr h.1, h.2, h.3, h.4)
          ]
]

pub joined-Elem :
    (ss : List Session) (rs : List WorkerRun) (ls : List RunLease) (row : Current)
    → Elem row (joined ss rs ls)
    → JoinedOf ss rs ls row
unfolding joined
joined-Elem [] rs ls row m = elim m [ ]
joined-Elem (s ∷ ss) rs ls row m = elim (Elem-append row (with_runs s rs ls) (joined ss rs ls) m) [
  | inl n ↦
      let h = with_runs-Elem s rs ls row n in
      (elim h.0 [ inl e ↦ inl e | inr z ↦ elim z [ ] ], h.1, h.2, h.3, h.4)
  | inr n ↦ let h = joined-Elem ss rs ls row n in (inr h.0, h.1, h.2, h.3, h.4)
]

module _ (s : Session) (r : WorkerRun) (l : RunLease) where
  abbrev row_of : Current
  row_of = record { session = s; run = r; lease = l }

  Elem-with_leases :
      (ls : List RunLease) → Elem l ls → is_lease_of r l ≡ true → Elem row_of (with_leases s r ls)
  Elem-with_leases ls m e =
      map-Elem (λ l. record { session = s; run = r; lease = l }) (leases_of ls r) l
        (keep-Elem (is_lease_of r) ls l m e)

  Elem-with_runs :
      (rs : List WorkerRun) (ls : List RunLease)
      → Elem r rs
      → Elem l ls
      → str_eq r.run_id s.current_run_id ≡ true
      → is_lease_of r l ≡ true
      → Elem row_of (with_runs s rs ls)
  Elem-with_runs [] ls m n q e = elim m [ ]
  Elem-with_runs (x ∷ xs) ls (inl u) n q e =
      rw (sym u, q) (Elem-append_left row_of _ _ (Elem-with_leases ls n e))
  Elem-with_runs (x ∷ xs) ls (inr u) n q e =
      let rest = Elem-with_runs xs ls u n q e in
      elim (Bool-cases (str_eq x.run_id s.current_run_id)) [
        | inl h ↦ rw h (Elem-append_right row_of (with_leases s x ls) _ rest)
        | inr h ↦ rw h rest
      ]

  pub Elem-joined :
      (ss : List Session) (rs : List WorkerRun) (ls : List RunLease)
      → Elem s ss
      → Elem r rs
      → Elem l ls
      → str_eq r.run_id s.current_run_id ≡ true
      → is_lease_of r l ≡ true
      → Elem row_of (joined ss rs ls)
  unfolding joined
  Elem-joined [] rs ls k m n q e = elim k [ ]
  Elem-joined (x ∷ xs) rs ls (inl u) m n q e =
      Elem-append_left row_of _ _
        (subst (λ z. Elem row_of (with_runs z rs ls)) u (Elem-with_runs rs ls m n q e))
  Elem-joined (x ∷ xs) rs ls (inr u) m n q e =
      Elem-append_right row_of (with_runs x rs ls) _ (Elem-joined xs rs ls u m n q e)
