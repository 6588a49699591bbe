-- ===== src/Plan/Model.antt =====
-- internal/plan/model.go: the read model of a Delivery Plan. GitHub's ids and issue numbers are
-- int64 in the source; they are only compared, and stand here as natural numbers.
use ai_engineer_workflow.Prelude.{
  ℕ, String, Bool, true, false, not, ◌&&◌, List, [], ◌∷◌, keep, ltb, str_eq, if◌then◌else◌,
}
use ai_engineer_workflow.Prelude.Sort.{sort_by}

abbrev pub plan_label : String
plan_label = "workflow:plan"

abbrev pub ticket_label : String
ticket_label = "workflow:ticket"

pub record Issue : Type 0 where
  pub id : ℕ
  pub node_id : String
  pub number : ℕ
  pub title : String
  pub body : String
  pub state : String
  pub labels : List String
  pub updated_at : String
  pub delivered : Bool
  pub author : String
  pub author_type : String

-- the loop of `HasLabel`
unfoldable pub has_label_in : List String → String → Bool
has_label_in [] label = false
has_label_in (candidate ∷ rest) label =
    if str_eq candidate label then true else has_label_in rest label

unfoldable pub has_label : Issue → String → Bool
unfolding has_label_in
has_label i label = has_label_in i.labels label

unfoldable pub is_ticket : Issue → Bool
unfolding has_label
is_ticket i = has_label i ticket_label

unfoldable pub is_plan_root : Issue → Bool
unfolding has_label
is_plan_root i = has_label i plan_label && not (has_label i ticket_label)

unfoldable pub is_delivered : Issue → Bool
is_delivered i = i.delivered

-- `blocked_by` lists the entries of the map in the order in which a `range` loop meets them.
pub record Snapshot : Type 0 where
  pub repository : String
  pub root : Issue
  pub children : List Issue
  pub blocked_by : List (ℕ × List Issue)

unfoldable pub tickets : Snapshot → List Issue
unfolding is_ticket sort_by
tickets s = sort_by (λ a b. ltb a.id b.id) (keep is_ticket s.children)
