-- ===== src/Plan/Validate/Admission.antt =====
-- `Validate` accepts exactly the admissible plans, and always comes to an answer.
use ai_engineer_workflow.Prelude.{
  ℕ, true, false, ◌≡◌, ◌≢◌, refl, subst, ap, Bool, sym, ◌∙◌, ◌↔◌, Option, none, some, List, [], ◌∷◌,
  Elem, All, All→Elem, Elem→All, arith, eq_iff,
}
use ai_engineer_workflow.Plan.Model.{Issue, Snapshot, is_plan_root}
use ai_engineer_workflow.Plan.Cycle.{has_cycle}
use ai_engineer_workflow.Plan.Cycle.Fuel.{has_cycle_iff}
use ai_engineer_workflow.Plan.Validate.Spec.{ids, IsBlockerIn, IsEntry, blockers_of, IsAdmissible}
use ai_engineer_workflow.Plan.Validate.Children.{
  keys, AreTickets, check_children-AreTickets, AreTickets-check_children, Elem-keys_iff,
}
use ai_engineer_workflow.Plan.Validate.Dependencies.{
  AreDependencies, check_entries-AreDependencies, AreDependencies-check_entries, adjacency-no_edges,
  blockers_of-IsClosed,
}
use ai_engineer_workflow.Plan.Validate.{
  Checked, ok, ◌>>=◌, >>=-ok, unless-ok, ok-injective, Edges, no_edges, check_root, check_children,
  check_entries, reject_cycle, validate,
}

-- The conditions on the root, without the lists.
record IsRooted (s : Snapshot) : Type 0 where
  named : s.repository ≢ ""
  root_id : s.root.id ≢ 0
  root_number : s.root.number ≢ 0
  root_labels : is_plan_root s.root ≡ true
  nonempty : s.children ≢ []

check_root-none : (s : Snapshot) → check_root s ≡ none → IsRooted s
unfolding check_root
check_root-none s h = ground (arith, eq_iff s.repository "")

none-check_root : (s : Snapshot) → IsRooted s → check_root s ≡ none
unfolding check_root
none-check_root s r = ground (arith, eq_iff s.repository "")

IsBlockerIn-mono :
    (root : Issue) (xs ys : List ℕ)
    → ((k : ℕ) → Elem k xs → Elem k ys)
    → (b : Issue) → IsBlockerIn root xs b
    → IsBlockerIn root ys b
IsBlockerIn-mono root xs ys f b i = record {
  has_id = i.has_id;
  has_number = i.has_number;
  other_id = i.other_id;
  other_number = i.other_number;
  within = f b.id i.within;
  settled = i.settled;
}

All-IsEntry-mono :
    (root : Issue) (xs ys : List ℕ)
    → ((k : ℕ) → Elem k xs → Elem k ys)
    → (es : List (ℕ × List Issue)) → All (IsEntry root xs) es
    → All (IsEntry root ys) es
All-IsEntry-mono root xs ys f [] all = tt
All-IsEntry-mono root xs ys f ((blocked, bs) ∷ es) ((m, b), all) =
    ((f blocked m, blockers), All-IsEntry-mono root xs ys f es all)
  where
    blockers : All (IsBlockerIn root ys) bs
    blockers = Elem→All _ bs (λ x n. IsBlockerIn-mono root xs ys f x (All→Elem _ bs b x n))

reject_cycle-ok : (o : Option Bool) → reject_cycle o ≡ ok tt → o ≡ some false
unfolding reject_cycle
reject_cycle-ok none h = cc
reject_cycle-ok (some true) h = cc
reject_cycle-ok (some false) h = refl

module _ (s : Snapshot) where
  abbrev by_id : List ℕ
  by_id = keys s.root [] s.children

  abbrev graph : ℕ → List ℕ
  graph = blockers_of s.blocked_by

  -- Behind the guards on the root and the loop over the children.
  from_entries :
      IsRooted s
      → AreTickets s.root s.children
      → (e : Edges) → check_entries s.root by_id no_edges s.blocked_by ≡ ok e
      → reject_cycle (has_cycle by_id e.adjacency) ≡ ok tt
      → IsAdmissible s
  from_entries r t e entries acyclic =
      let d = check_entries-AreDependencies s.root by_id no_edges s.blocked_by entries in
      let graphs : e.adjacency ≡ graph =
        ap (λ (x : Edges). x.adjacency)
          (ok-injective
            (sym entries ∙ AreDependencies-check_entries s.root by_id no_edges s.blocked_by d))
        ∙ adjacency-no_edges s.blocked_by in
      let answer : has_cycle by_id graph ≡ some false =
        subst (λ g. has_cycle by_id g ≡ some false) graphs (reject_cycle-ok _ acyclic) in
      let closed = blockers_of-IsClosed s.root by_id s.blocked_by d.all_entries in
      let none_there = ((has_cycle_iff graph by_id closed).1).0 answer in
      record {
        named = r.named;
        root_id = r.root_id;
        root_number = r.root_number;
        root_labels = r.root_labels;
        nonempty = r.nonempty;
        all_tickets = t.all_tickets;
        distinct_ids = t.distinct_ids;
        distinct_numbers = t.distinct_numbers;
        all_entries =
            All-IsEntry-mono s.root by_id (ids s.children)
              (λ k. (Elem-keys_iff s.root s.children k).0) s.blocked_by d.all_entries;
        distinct_edges = d.distinct_edges;
        acyclic = λ k ch. none_there (k, ch);
      }

  validate-IsAdmissible : validate s ≡ ok tt → IsAdmissible s
  unfolding validate
  validate-IsAdmissible h =
      let (rooted, h1) = unless-ok (check_root s) _ h in
      from_children (check_root-none s rooted)
        (>>=-ok (check_children s.root [] [] s.children) _ h1)
    where
      rest : List ℕ → Checked (Unit {0})
      rest k = check_entries s.root k no_edges s.blocked_by >>= λ e.
          reject_cycle (has_cycle k e.adjacency)

      from_children :
          IsRooted s
          → (k : List ℕ) × (check_children s.root [] [] s.children ≡ ok k) × (rest k ≡ ok tt)
          → IsAdmissible s
      from_children rooted (k, hc, h2) =
          let (t, same) = check_children-AreTickets s.root s.children hc in
          let (e, he, h3) =
            >>=-ok (check_entries s.root by_id no_edges s.blocked_by) _
              (subst (λ x. rest x ≡ ok tt) same h2) in
          from_entries rooted t e he h3

  IsAdmissible-validate : IsAdmissible s → validate s ≡ ok tt
  unfolding validate reject_cycle
  IsAdmissible-validate a = rw (
    none-check_root s rooted,
    AreTickets-check_children s.root s.children t,
    AreDependencies-check_entries s.root by_id no_edges s.blocked_by d,
    adjacency-no_edges s.blocked_by,
    acyclic,
  )
    where
      rooted : IsRooted s
      rooted = record {
        named = a.named;
        root_id = a.root_id;
        root_number = a.root_number;
        root_labels = a.root_labels;
        nonempty = a.nonempty;
      }

      t : AreTickets s.root s.children
      t = record {
        all_tickets = a.all_tickets;
        distinct_ids = a.distinct_ids;
        distinct_numbers = a.distinct_numbers;
      }

      all : All (IsEntry s.root by_id) s.blocked_by
      all =
          All-IsEntry-mono s.root (ids s.children) by_id
            (λ k. (Elem-keys_iff s.root s.children k).1) s.blocked_by a.all_entries

      d : AreDependencies s.root by_id no_edges s.blocked_by
      d = record {
        all_entries = all;
        distinct_edges = a.distinct_edges;
        apart = λ p m n. elim n [ ];
      }

      acyclic : has_cycle by_id graph ≡ some false
      acyclic =
          ((has_cycle_iff graph by_id (blockers_of-IsClosed s.root by_id s.blocked_by all)).1).1
            (λ c. a.acyclic c.0 c.1)

  -- `Validate` accepts a snapshot exactly when it is an admissible plan: named, with a root of the
  -- right labels, at least one child, all children distinct typed tickets, all dependencies
  -- distinct and between tickets of the plan, closed blockers delivered, and no cycle of blockers.
  pub validate_iff : (validate s ≡ ok tt) ↔ IsAdmissible s
  validate_iff = (validate-IsAdmissible, IsAdmissible-validate)
