-- ===== src/Plan/Validate/Children.antt =====
-- The loop over the children accepts exactly the lists of distinct tickets.
use ai_engineer_workflow.Prelude.{
  ℕ, ◌≡◌, refl, subst, ◌⊎◌, inl, inr, ◌↔◌, none, List, [], ◌∷◌, has→Elem, Elem→has, Elem, All,
  Distinct, Apart, arith,
}
use ai_engineer_workflow.Plan.Model.{Issue}
use ai_engineer_workflow.Plan.Validate.Spec.{ids, numbers, IsTicketOf}
use ai_engineer_workflow.Plan.Validate.{ok, unless-ok, check_child, check_children}

module _ (root : Issue) where
  -- The children are tickets that differ from each other and from what came before.
  abbrev Fresh : List ℕ → List ℕ → List Issue → Type 0
  Fresh by_id by_number [] = Unit
  Fresh by_id by_number (c ∷ cs) =
      IsTicketOf root c
      × (Elem c.id by_id → ⊥)
      × (Elem c.number by_number → ⊥)
      × Fresh (c.id ∷ by_id) (c.number ∷ by_number) cs

  module _ (by_id by_number : List ℕ) (c : Issue) where
    check_child-none :
        check_child root by_id by_number c ≡ none
        → IsTicketOf root c × (Elem c.id by_id → ⊥) × (Elem c.number by_number → ⊥)
    unfolding check_child
    check_child-none h = ground (arith, Elem→has c.id by_id, Elem→has c.number by_number)

    none-check_child :
        IsTicketOf root c
        → (Elem c.id by_id → ⊥)
        → (Elem c.number by_number → ⊥)
        → check_child root by_id by_number c ≡ none
    unfolding check_child
    none-check_child t i n = ground (arith, has→Elem c.id by_id, has→Elem c.number by_number)

  -- The keys of `byID` after the loop.
  abbrev pub keys : List ℕ → List Issue → List ℕ
  keys by_id [] = by_id
  keys by_id (c ∷ cs) = keys (c.id ∷ by_id) cs

  check_children-Fresh :
      (by_id by_number : List ℕ) (cs : List Issue) {r : List ℕ}
      → check_children root by_id by_number cs ≡ ok r
      → Fresh by_id by_number cs
  unfolding check_children
  check_children-Fresh by_id by_number [] h = tt
  check_children-Fresh by_id by_number (c ∷ cs) h =
      let (none_of, rest) = unless-ok (check_child root by_id by_number c) _ h in
      let (t, i, n) = check_child-none by_id by_number c none_of in
      (t, i, n, check_children-Fresh (c.id ∷ by_id) (c.number ∷ by_number) cs rest)

  Fresh-check_children :
      (by_id by_number : List ℕ) (cs : List Issue)
      → Fresh by_id by_number cs
      → check_children root by_id by_number cs ≡ ok (keys by_id cs)
  unfolding check_children
  Fresh-check_children by_id by_number [] h = refl
  Fresh-check_children by_id by_number (c ∷ cs) (t, i, n, h) =
      rw (none-check_child by_id by_number c t i n)
        (Fresh-check_children (c.id ∷ by_id) (c.number ∷ by_number) cs h)

  Elem-keys :
      (by_id : List ℕ) (cs : List Issue) (k : ℕ)
      → Elem k (keys by_id cs)
      → Elem k (ids cs) ⊎ Elem k by_id
  Elem-keys by_id [] k h = inr h
  Elem-keys by_id (c ∷ cs) k h = ground (arith, Elem-keys (c.id ∷ by_id) cs k)

  keys-Elem :
      (by_id : List ℕ) (cs : List Issue) (k : ℕ)
      → Elem k (ids cs) ⊎ Elem k by_id
      → Elem k (keys by_id cs)
  keys-Elem by_id [] k (inl h) = elim h [ ]
  keys-Elem by_id [] k (inr h) = h
  keys-Elem by_id (c ∷ cs) k h = ground (arith, keys-Elem (c.id ∷ by_id) cs k)

  record Spread (by_id by_number : List ℕ) (cs : List Issue) : Type 0 where
    all_tickets : All (IsTicketOf root) cs
    distinct_ids : Distinct (ids cs)
    distinct_numbers : Distinct (numbers cs)
    apart_ids : Apart (ids cs) by_id
    apart_numbers : Apart (numbers cs) by_number

  Fresh-Spread :
      (by_id by_number : List ℕ) (cs : List Issue)
      → Fresh by_id by_number cs
      → Spread by_id by_number cs
  Fresh-Spread by_id by_number [] h = record {
    all_tickets = tt;
    distinct_ids = tt;
    distinct_numbers = tt;
    apart_ids = λ k m. elim m [ ];
    apart_numbers = λ k m. elim m [ ];
  }
  Fresh-Spread by_id by_number (c ∷ cs) (t, i, n, h) =
      let rest = Fresh-Spread (c.id ∷ by_id) (c.number ∷ by_number) cs h in
      record {
        all_tickets = (t, rest.all_tickets);
        distinct_ids = ((λ m. rest.apart_ids c.id m (inl refl)), rest.distinct_ids);
        distinct_numbers = ((λ m. rest.apart_numbers c.number m (inl refl)), rest.distinct_numbers);
        apart_ids = λ k m s. elim m [
          | inl e ↦ i (subst (λ x. Elem x by_id) e s)
          | inr m' ↦ rest.apart_ids k m' (inr s)
        ];
        apart_numbers = λ k m s. elim m [
          | inl e ↦ n (subst (λ x. Elem x by_number) e s)
          | inr m' ↦ rest.apart_numbers k m' (inr s)
        ];
      }

  Spread-Fresh :
      (by_id by_number : List ℕ) (cs : List Issue)
      → Spread by_id by_number cs
      → Fresh by_id by_number cs
  Spread-Fresh by_id by_number [] s = tt
  Spread-Fresh by_id by_number (c ∷ cs) s = (
    s.all_tickets.0,
    s.apart_ids c.id (inl refl),
    s.apart_numbers c.number (inl refl),
    Spread-Fresh (c.id ∷ by_id) (c.number ∷ by_number) cs (record {
      all_tickets = s.all_tickets.1;
      distinct_ids = s.distinct_ids.1;
      distinct_numbers = s.distinct_numbers.1;
      apart_ids = λ k m e. elim e [
        | inl p ↦ s.distinct_ids.0 (subst (λ x. Elem x (ids cs)) p m)
        | inr e' ↦ s.apart_ids k (inr m) e'
      ];
      apart_numbers = λ k m e. elim e [
        | inl p ↦ s.distinct_numbers.0 (subst (λ x. Elem x (numbers cs)) p m)
        | inr e' ↦ s.apart_numbers k (inr m) e'
      ];
    }),
  )

  -- The conditions on the children of a plan.
  pub record AreTickets (cs : List Issue) : Type 0 where
    pub all_tickets : All (IsTicketOf root) cs
    pub distinct_ids : Distinct (ids cs)
    pub distinct_numbers : Distinct (numbers cs)

  pub check_children-AreTickets :
      (cs : List Issue) {r : List ℕ}
      → check_children root [] [] cs ≡ ok r
      → AreTickets cs × (r ≡ keys [] cs)
  check_children-AreTickets cs h =
      let fresh = check_children-Fresh [] [] cs h in
      let s = Fresh-Spread [] [] cs fresh in
      (
        record {
          all_tickets = s.all_tickets;
          distinct_ids = s.distinct_ids;
          distinct_numbers = s.distinct_numbers;
        },
        cc (Fresh-check_children [] [] cs fresh),
      )

  pub AreTickets-check_children :
      (cs : List Issue) → AreTickets cs → check_children root [] [] cs ≡ ok (keys [] cs)
  AreTickets-check_children cs t = Fresh-check_children [] [] cs (
      Spread-Fresh [] [] cs (record {
        all_tickets = t.all_tickets;
        distinct_ids = t.distinct_ids;
        distinct_numbers = t.distinct_numbers;
        apart_ids = λ k m e. elim e [ ];
        apart_numbers = λ k m e. elim e [ ];
      }))

  pub Elem-keys_iff : (cs : List Issue) (k : ℕ) → Elem k (keys [] cs) ↔ Elem k (ids cs)
  Elem-keys_iff cs k = (
    (λ h. elim (Elem-keys [] cs k h) [ inl m ↦ m | inr m ↦ elim m [ ] ]),
    (λ h. keys-Elem [] cs k (inl h)),
  )
