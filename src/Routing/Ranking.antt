-- ===== src/Routing/Ranking.antt =====
-- The ranking of agents: nobody is lost, neighbours are in order, and the usable ones stand first.
use teskra.Base.{
  String, Bool, true, false, List, keep, length, Option, none, some, includes, ◌≡◌, refl, arith,
  flip, in_order, ascending, compare-flip, Respects, count-sort, in_order-sort, ascending-sort,
}
use Prim.Native.Nat.{Ordering, lt, eq, gt}
use teskra.Routing.{
  ℤ, pos, negsuc, AgentHealth, AgentDefinition, Role, Context, compare_ints, true_first, or_else,
  tier_of, has_role, strengths_of, priority_of, cost_of, cost_class_tier, by_role, by_strength,
  compare_agents, rank_agents, health_by_agent,
}

or_else-flip :
    (x y x' y' : Ordering) → x' ≡ flip x → y' ≡ flip y → or_else x' y' ≡ flip (or_else x y)
or_else-flip lt y x' y' p q = rw (p) refl
or_else-flip eq y x' y' p q = rw (p) q
or_else-flip gt y x' y' p q = rw (p) refl

true_first-flip : (a b : Bool) → true_first b a ≡ flip (true_first a b)
true_first-flip true true = refl
true_first-flip true false = refl
true_first-flip false true = refl
true_first-flip false false = refl

compare_ints-flip : (a b : ℤ) → compare_ints b a ≡ flip (compare_ints a b)
compare_ints-flip (pos a) (pos b) = compare-flip a b
compare_ints-flip (pos a) (negsuc b) = refl
compare_ints-flip (negsuc a) (pos b) = refl
compare_ints-flip (negsuc a) (negsuc b) = compare-flip b a

by_role-flip : (r : Option Role) (a b : AgentDefinition) → by_role r b a ≡ flip (by_role r a b)
by_role-flip none a b = refl
by_role-flip (some r) a b = true_first-flip (has_role r a) (has_role r b)

by_strength-flip :
    (s : Option String) (a b : AgentDefinition) → by_strength s b a ≡ flip (by_strength s a b)
by_strength-flip none a b = refl
by_strength-flip (some s) a b =
    true_first-flip (includes (strengths_of a) s) (includes (strengths_of b) s)

module _ (collate : String → String → Ordering) (context : Context)
    (indexed : List (String × AgentHealth)) where
  compare_agents-Respects : Respects (compare_agents collate context indexed) (tier_of indexed)
  unfolding compare_agents
  compare_agents-Respects = record { after = λ a b e. ground arith; before = λ a b e. ground arith }

  compare_agents-flip :
      ((x y : String) → collate y x ≡ flip (collate x y))
      → (a b : AgentDefinition)
      → compare_agents collate context indexed b a
        ≡ flip (compare_agents collate context indexed a b)
  unfolding compare_agents
  compare_agents-flip collates a b =
      or_else-flip _ _ _ _ (compare-flip (tier_of indexed a) (tier_of indexed b)) (
        or_else-flip _ _ _ _ (by_role-flip context.role a b) (
          or_else-flip _ _ _ _ (by_strength-flip context.strength a b) (
            or_else-flip _ _ _ _ (compare_ints-flip (priority_of b) (priority_of a)) (
              or_else-flip _ _ _ _
                (compare-flip (cost_class_tier (cost_of a)) (cost_class_tier (cost_of b)))
                (or_else-flip _ _ _ _ (collates a.name b.name) (collates a.id b.id))))))

-- Where localeCompare turns its sign with its arguments: the ranking has as many agents of any kind as were
-- given, no agent stands right before one that the comparator puts it behind, and from
-- first to last the tier of availability never falls.
pub rank_agents-Ranked :
    (collate : String → String → Ordering)
    → ((x y : String) → collate y x ≡ flip (collate x y))
    → (definitions : List AgentDefinition) (health : List AgentHealth) (context : Context)
      (p : AgentDefinition → Bool)
    → let ranked = rank_agents collate definitions health context in
      let indexed = health_by_agent health in
      (length (keep p ranked) ≡ length (keep p definitions))
      × (in_order (compare_agents collate context indexed) ranked ≡ true)
      × (ascending (tier_of indexed) ranked ≡ true)
unfolding rank_agents
rank_agents-Ranked collate collates definitions health context p =
    let cmp = compare_agents collate context (health_by_agent health) in
    (
      count-sort cmp p definitions,
      in_order-sort cmp (compare_agents-flip collate context (health_by_agent health) collates)
          definitions,
      ascending-sort cmp (tier_of (health_by_agent health))
          (compare_agents-Respects collate context (health_by_agent health)) definitions,
    )
