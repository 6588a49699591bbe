-- ===== src/Plan/Frontier/Order.antt =====
-- The order of the frontier: by rank, then by issue number, then by id.
use ai_engineer_workflow.Prelude.{◌<◌, ◌≤◌, ◌≡◌, ◌⊎◌, true, false, arith}
use ai_engineer_workflow.Prelude.Sort.{StrictWeak}
use ai_engineer_workflow.Plan.Frontier.{FrontierTicket, before}

-- The lexicographic order of rank, number and id.
abbrev pub Precedes : FrontierTicket → FrontierTicket → Type 0
Precedes a b =
    (a.rank < b.rank)
    ⊎ ((a.rank ≡ b.rank)
        × ((a.number < b.number) ⊎ ((a.number ≡ b.number) × (a.issue_id < b.issue_id))))

pub before→Precedes : (a b : FrontierTicket) → before a b ≡ true → Precedes a b
unfolding before
before→Precedes a b h = ground arith

pub Precedes→before : (a b : FrontierTicket) → Precedes a b → before a b ≡ true
unfolding before
Precedes→before a b h = ground arith

pub not_before→ : (a b : FrontierTicket) → before a b ≡ false → Precedes a b → ⊥
not_before→ a b h p = cc (Precedes→before a b p)

before-asym : (a b : FrontierTicket) → before a b ≡ true → before b a ≡ false
unfolding before
before-asym a b h = ground arith

-- `b` does not come before `a`.
abbrev Follows : FrontierTicket → FrontierTicket → Type 0
Follows a b =
    (a.rank < b.rank)
    ⊎ ((a.rank ≡ b.rank)
        × ((a.number < b.number) ⊎ ((a.number ≡ b.number) × (a.issue_id ≤ b.issue_id))))

before-Follows : (a b : FrontierTicket) → before b a ≡ false → Follows a b
unfolding before
before-Follows a b h = ground arith

Follows-before : (a b : FrontierTicket) → Follows a b → before b a ≡ false
unfolding before
Follows-before a b h = ground arith

Follows-trans : (a b c : FrontierTicket) → Follows a b → Follows b c → Follows a c
Follows-trans a b c h k = ground arith

pub before-StrictWeak : StrictWeak before
before-StrictWeak = record {
  asym = before-asym;
  trans = λ x y z h k.
      Follows-before x z (Follows-trans x y z (before-Follows x y h) (before-Follows y z k));
}
