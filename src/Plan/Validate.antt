-- ===== src/Plan/Validate.antt =====
-- `Snapshot.Validate` of internal/plan/model.go: the admission boundary of a Delivery Plan. Each
-- `return fmt.Errorf(…)` is a reason of its own; `sentinel` gives the error that it wraps. The
-- maps `byID` and `byNumber` are the lists of their keys.
pub mod Spec
pub mod Children
pub mod Entries
pub mod Dependencies
pub mod Admission
pub mod Answers
use ai_engineer_workflow.Prelude.{
  ℕ, String, Bool, true, false, ◌&&◌, ◌||◌, not, Option, none, some, List, [], ◌∷◌, ◌++◌, ◌==◌,
  str_eq, has, ◌≡◌, refl, if◌then◌else◌,
}
use ai_engineer_workflow.Plan.Model.{Issue, Snapshot, is_ticket, is_plan_root, is_delivered}
use ai_engineer_workflow.Plan.Cycle.{has_cycle}

pub data Reason : Type 0 where
  identity_required bad_root_labels no_children child_identity_incomplete : Reason
  root_as_ticket blocker_identity_incomplete root_as_blocker cyclic : Reason
  duplicate_id duplicate_number untyped_child unknown_blocked : ℕ → Reason
  unknown_issue undelivered_blocker : ℕ → Reason
  duplicate_edge : ℕ → ℕ → Reason

-- The error values of the package; every one of them wraps `ErrInvalidPlan`.
pub data Sentinel : Type 0 where
  err_invalid_plan err_incomplete_publish err_unknown_blocker err_cycle : Sentinel
  err_duplicate_node : Sentinel

unfoldable pub sentinel : Reason → Sentinel
sentinel no_children = err_incomplete_publish
sentinel (untyped_child n) = err_incomplete_publish
sentinel (unknown_blocked n) = err_unknown_blocker
sentinel root_as_blocker = err_unknown_blocker
sentinel (unknown_issue n) = err_unknown_blocker
sentinel cyclic = err_cycle
sentinel (duplicate_id n) = err_duplicate_node
sentinel (duplicate_number n) = err_duplicate_node
sentinel (duplicate_edge a b) = err_duplicate_node
sentinel _ = err_invalid_plan

pub data Checked {ℓ} (A : Type ℓ) : Type ℓ where
  ok : A → Checked A
  refused : Reason → Checked A
  out_of_fuel : Checked A

-- `if err := …; err != nil { return err }`, and otherwise what follows.
abbrev pub unless {ℓ} : {A : Type ℓ} → Option Reason → Checked A → Checked A
unless none next = next
unless (some r) next = refused r

infixl 5 ◌>>=◌
abbrev pub ◌>>=◌ {ℓ κ} : {A : Type ℓ} {B : Type κ} → Checked A → (A → Checked B) → Checked B
ok a >>= f = f a
refused r >>= f = refused r
out_of_fuel >>= f = out_of_fuel

pub unless-ok {ℓ} :
    {A : Type ℓ} (o : Option Reason) (next : Checked A) {a : A}
    → unless o next ≡ ok a
    → (o ≡ none) × (next ≡ ok a)
unless-ok none next h = (refl, h)
unless-ok (some r) next h = cc

pub if-ok {ℓ} :
    {A : Type ℓ} (b : Bool) (m : Checked A) (r : Reason) {a : A}
    → (if b then m else refused r) ≡ ok a
    → (b ≡ true) × (m ≡ ok a)
if-ok true m r h = (refl, h)
if-ok false m r h = cc

pub ok-injective {ℓ} : {A : Type ℓ} {a b : A} → ok a ≡ ok b → a ≡ b
ok-injective h = cc

pub >>=-ok {ℓ κ} :
    {A : Type ℓ} {B : Type κ} (m : Checked A) (f : A → Checked B) {b : B}
    → (m >>= f) ≡ ok b
    → (a : A) × (m ≡ ok a) × (f a ≡ ok b)
>>=-ok (ok a) f h = (a, refl, h)
>>=-ok (refused r) f h = cc
>>=-ok out_of_fuel f h = cc

-- the body of `for _, child := range s.Children`
unfoldable pub check_child : Issue → List ℕ → List ℕ → Issue → Option Reason
unfolding is_ticket
check_child root by_id by_number child =
    if child.id == 0 || child.number == 0
    then some child_identity_incomplete
    else if child.id == root.id || child.number == root.number
    then some root_as_ticket
    else if has child.id by_id
    then some (duplicate_id child.id)
    else if has child.number by_number
    then some (duplicate_number child.number)
    else if is_ticket child
    then none
    else some (untyped_child child.number)

-- the loop: the keys of `byID` at its end
unfoldable pub check_children : Issue → List ℕ → List ℕ → List Issue → Checked (List ℕ)
check_children root by_id by_number [] = ok by_id
check_children root by_id by_number (child ∷ rest) =
    unless (check_child root by_id by_number child)
      (check_children root (child.id ∷ by_id) (child.number ∷ by_number) rest)

-- the maps `edges` and `adjacency`
pub record Edges : Type 0 where
  pub seen : List (ℕ × ℕ)
  pub adjacency : ℕ → List ℕ

abbrev pub no_edges : Edges
no_edges = record { seen = []; adjacency = λ k. [] }

abbrev pub has_edge : ℕ → ℕ → List (ℕ × ℕ) → Bool
has_edge blocked blocker [] = false
has_edge blocked blocker ((a, b) ∷ rest) =
    if blocked == a && blocker == b then true else has_edge blocked blocker rest

unfoldable pub add_edge : ℕ → ℕ → Edges → Edges
add_edge blocked blocker e = record {
  seen = (blocked, blocker) ∷ e.seen;
  adjacency = λ k. if k == blocked then e.adjacency k ++ (blocker ∷ []) else e.adjacency k;
}

-- the body of `for _, blocker := range blockers`
unfoldable pub check_blocker : Issue → List ℕ → ℕ → Edges → Issue → Option Reason
unfolding is_delivered
check_blocker root by_id blocked e blocker =
    if blocker.id == 0 || blocker.number == 0
    then some blocker_identity_incomplete
    else if blocker.id == root.id || blocker.number == root.number
    then some root_as_blocker
    else if not (has blocker.id by_id)
    then some (unknown_issue blocker.number)
    else if str_eq blocker.state "closed" && not (is_delivered blocker)
    then some (undelivered_blocker blocker.number)
    else if has_edge blocked blocker.id e.seen
    then some (duplicate_edge blocked blocker.id)
    else none

unfoldable pub check_blockers : Issue → List ℕ → ℕ → Edges → List Issue → Checked Edges
check_blockers root by_id blocked e [] = ok e
check_blockers root by_id blocked e (blocker ∷ rest) =
    unless (check_blocker root by_id blocked e blocker)
      (check_blockers root by_id blocked (add_edge blocked blocker.id e) rest)

-- `for blockedID, blockers := range s.BlockedBy`
unfoldable pub check_entries : Issue → List ℕ → Edges → List (ℕ × List Issue) → Checked Edges
check_entries root by_id e [] = ok e
check_entries root by_id e ((blocked, blockers) ∷ rest) =
    if has blocked by_id
    then (do e' ← check_blockers root by_id blocked e blockers; check_entries root by_id e' rest)
    else refused (unknown_blocked blocked)

unfoldable pub reject_cycle : Option Bool → Checked (Unit {0})
reject_cycle none = out_of_fuel
reject_cycle (some true) = refused cyclic
reject_cycle (some false) = ok tt

-- the guards above the loops
unfoldable pub check_root : Snapshot → Option Reason
unfolding is_plan_root
check_root s =
    if str_eq s.repository "" || s.root.id == 0 || s.root.number == 0
    then some identity_required
    else if not (is_plan_root s.root)
    then some bad_root_labels
    else no_child s.children
  where
    no_child : List Issue → Option Reason
    no_child [] = some no_children
    no_child (c ∷ cs) = none

unfoldable pub validate : Snapshot → Checked (Unit {0})
validate s = unless (check_root s) (do
  by_id ← check_children s.root [] [] s.children
  e ← check_entries s.root by_id no_edges s.blocked_by
  reject_cycle (has_cycle by_id e.adjacency))
