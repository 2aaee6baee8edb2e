-- ===== src/Routing/Tests.antt =====
-- Rankings of three agents.
use teskra.Base.{
  flip, compare-flip, in_order, ascending, String, ◌==◌, Bool, true, false, ◌≡◌, refl, List, [],
  ◌∷◌, keep, length, units, Option, none, some,
}
use Prim.Native.Nat.{compare, Ordering}
use teskra.Routing.{
  ℤ, pos, negsuc, AgentHealth, AgentDefinition, Context, Role, reviewer, tester, CostClass, low,
  high, compare_agents, rank_agents, suggest_alternatives, tier_of, health_by_agent,
}
use teskra.Routing.Ranking.{rank_agents-Ranked}

-- A stand-in for localeCompare: shorter names first.
abbrev by_length : String → String → Ordering
by_length x y = compare (length (units x)) (length (units y))

by_length-flip : (x y : String) → by_length y x ≡ flip (by_length x y)
by_length-flip x y = compare-flip (length (units x)) (length (units y))

abbrev agent : String → Option Role → ℤ → CostClass → AgentDefinition
agent id role priority cost = record {
  id = id;
  name = id;
  default_role = role;
  routing =
      some (record {
        strengths = some ("docs" ∷ []);
        cost_class = some cost;
        priority = some priority;
      });
}

abbrev a : AgentDefinition
a = agent "a" none (negsuc 0) low

abbrev bb : AgentDefinition
bb = agent "bb" (some reviewer) (pos 5) high

abbrev ccc : AgentDefinition
ccc = agent "ccc" (some tester) (pos 5) low

abbrev health_of : String → Bool → Option Bool → AgentHealth
health_of id usable limited = record {
  agent_id = id;
  is_available = usable;
  is_rate_limited = limited;
}

abbrev probed : List AgentHealth
probed =
    health_of "a" true none
    ∷ health_of "bb" true (some true)
    ∷ health_of "bb" true none
    ∷ health_of "ccc" true (some false)
    ∷ []

abbrev for_review : Context
for_review = record { role = some reviewer; strength = none }

abbrev is_a : AgentDefinition → Bool
is_a d = d.id == "a"

rank_agents-Ranked_example :
    (length (keep is_a (rank_agents by_length (bb ∷ a ∷ ccc ∷ []) probed for_review)) ≡ 1)
    × (in_order
          (compare_agents by_length for_review (health_by_agent probed))
          (rank_agents by_length (bb ∷ a ∷ ccc ∷ []) probed for_review)
        ≡ true)
    × (ascending
          (tier_of (health_by_agent probed))
          (rank_agents by_length (bb ∷ a ∷ ccc ∷ []) probed for_review)
        ≡ true)
rank_agents-Ranked_example =
    rank_agents-Ranked by_length by_length-flip (bb ∷ a ∷ ccc ∷ []) probed for_review is_a

-- The first entry of an agent counts, so `bb` is limited and comes last, though it has the role.
rank_limited_last : rank_agents by_length (bb ∷ a ∷ ccc ∷ []) probed for_review ≡ ccc ∷ a ∷ bb ∷ []
unfolding rank_agents compare_agents
rank_limited_last = refl

rank_by_role : rank_agents by_length (a ∷ ccc ∷ bb ∷ []) [] for_review ≡ bb ∷ ccc ∷ a ∷ []
unfolding rank_agents compare_agents
rank_by_role = refl

-- An agent that was not probed is not suggested.
suggest_probed_only :
    suggest_alternatives by_length "ccc"
      (bb ∷ a ∷ ccc ∷ agent "d" none (pos 9) low ∷ [])
      probed
      for_review
    ≡ a ∷ []
unfolding suggest_alternatives rank_agents compare_agents
suggest_probed_only = refl
