-- ===== src/Routing.antt =====
-- packages/shared/src/routing.ts: the order in which agents are shown, and which are suggested. A number
-- that a comparator answers is its sign; localeCompare is an argument. The sort is the stable one.
pub mod Ranking
pub mod Tests
use teskra.Base.{
  String, ◌==◌, ℕ, suc, Bool, true, false, not, ◌&&◌, List, [], ◌∷◌, keep, Option, none, some,
  includes, lookup, insert, sort_by, if◌then◌else◌,
}
use Prim.Native.Nat.{compare, Ordering, lt, eq, gt}

pub data Availability : Type 0 where
  available rate_limited unavailable unknown : Availability

pub data Role : Type 0 where
  planner implementer reviewer tester fixer : Role

pub data CostClass : Type 0 where
  low medium high : CostClass

pub data ℤ : Type 0 where
  pos : ℕ → ℤ
  negsuc : ℕ → ℤ

pub record AgentHealth : Type 0 where
  pub agent_id : String
  pub is_available : Bool
  pub is_rate_limited : Option Bool

pub record RoutingProfile : Type 0 where
  pub strengths : Option (List String)
  pub cost_class : Option CostClass
  pub priority : Option ℤ

pub record AgentDefinition : Type 0 where
  pub id : String
  pub name : String
  pub default_role : Option Role
  pub routing : Option RoutingProfile

pub record Context : Type 0 where
  pub role : Option Role
  pub strength : Option String

abbrev pub availability_of : AgentHealth → Availability
availability_of h =
    if not h.is_available
    then unavailable
    else elim h.is_rate_limited [ some true ↦ rate_limited | _ ↦ available ]

abbrev pub agent_availability : Option AgentHealth → Availability
agent_availability none = unknown
agent_availability (some h) = availability_of h

abbrev pub availability_tier : Availability → ℕ
availability_tier available = 0
availability_tier unknown = 0
availability_tier rate_limited = 1
availability_tier unavailable = 2

abbrev pub cost_class_tier : CostClass → ℕ
cost_class_tier low = 0
cost_class_tier medium = 1
cost_class_tier high = 2

abbrev pub index_health :
    List AgentHealth → List (String × AgentHealth) → List (String × AgentHealth)
index_health [] indexed = indexed
index_health (h ∷ hs) indexed =
    index_health hs (elim (lookup h.agent_id indexed) [
      | none ↦ insert h.agent_id h indexed
      | some first ↦ indexed
    ])

abbrev pub health_by_agent : List AgentHealth → List (String × AgentHealth)
health_by_agent hs = index_health hs []

-- The sign of the difference of two integers.
abbrev pub compare_ints : ℤ → ℤ → Ordering
compare_ints (pos a) (pos b) = compare a b
compare_ints (pos a) (negsuc b) = gt
compare_ints (negsuc a) (pos b) = lt
compare_ints (negsuc a) (negsuc b) = compare b a

abbrev pub role_eq : Role → Role → Bool
role_eq planner planner = true
role_eq implementer implementer = true
role_eq reviewer reviewer = true
role_eq tester tester = true
role_eq fixer fixer = true
role_eq _ _ = false

-- `Number(b) - Number(a)`
abbrev pub true_first : Bool → Bool → Ordering
true_first true false = lt
true_first false true = gt
true_first _ _ = eq

-- The next criterion where one does not decide.
abbrev pub or_else : Ordering → Ordering → Ordering
or_else lt o = lt
or_else gt o = gt
or_else eq o = o

abbrev pub tier_of : List (String × AgentHealth) → AgentDefinition → ℕ
tier_of indexed d = availability_tier (agent_availability (lookup d.id indexed))

abbrev pub has_role : Role → AgentDefinition → Bool
has_role r d = elim d.default_role [ none ↦ false | some own ↦ role_eq own r ]

abbrev pub strengths_of : AgentDefinition → List String
strengths_of d = elim d.routing [
  | none ↦ []
  | some p ↦ elim p.strengths [ none ↦ [] | some names ↦ names ]
]

abbrev pub priority_of : AgentDefinition → ℤ
priority_of d = elim d.routing [
  | none ↦ pos 0
  | some p ↦ elim p.priority [ none ↦ pos 0 | some n ↦ n ]
]

abbrev pub cost_of : AgentDefinition → CostClass
cost_of d = elim d.routing [
  | none ↦ medium
  | some p ↦ elim p.cost_class [ none ↦ medium | some k ↦ k ]
]

abbrev pub by_role : Option Role → AgentDefinition → AgentDefinition → Ordering
by_role none left right = eq
by_role (some r) left right = true_first (has_role r left) (has_role r right)

abbrev pub by_strength : Option String → AgentDefinition → AgentDefinition → Ordering
by_strength none left right = eq
by_strength (some s) left right =
    true_first (includes (strengths_of left) s) (includes (strengths_of right) s)

module _ (collate : String → String → Ordering) where
  unfoldable pub compare_agents :
      Context → List (String × AgentHealth) → (left right : AgentDefinition) → Ordering
  compare_agents context indexed left right =
      or_else (compare (tier_of indexed left) (tier_of indexed right)) (
        or_else (by_role context.role left right) (
          or_else (by_strength context.strength left right) (
            or_else (compare_ints (priority_of right) (priority_of left)) (
              or_else (compare (cost_class_tier (cost_of left)) (cost_class_tier (cost_of right)))
                (or_else (collate left.name right.name) (collate left.id right.id))))))

  unfoldable pub rank_agents :
      List AgentDefinition → List AgentHealth → Context → List AgentDefinition
  rank_agents definitions health context =
      sort_by (compare_agents context (health_by_agent health)) definitions

  abbrev pub is_available_agent : List (String × AgentHealth) → AgentDefinition → Bool
  is_available_agent indexed d = elim (agent_availability (lookup d.id indexed)) [
    | available ↦ true
    | _ ↦ false
  ]

  abbrev pub is_candidate : String → List (String × AgentHealth) → AgentDefinition → Bool
  is_candidate agent_id indexed d = not (d.id == agent_id) && is_available_agent indexed d

  unfoldable pub suggest_alternatives :
      (agent_id : String) → List AgentDefinition → List AgentHealth → Context → List AgentDefinition
  suggest_alternatives agent_id definitions health context =
      rank_agents (keep (is_candidate agent_id (health_by_agent health)) definitions) health context
