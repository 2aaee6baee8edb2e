-- ===== src/Permissions/Scopes.antt =====
-- The scopes of the rules that the table holds.
use teskra.Permissions.Profiles.{merge_session-rules}
use teskra.Base.{
  String, ◌≡◌, refl, ap, Bool, true, List, [], ◌∷◌, ◌++◌, Option, some, keep, Option-cases, In,
  here, there, In-append_cases, ◌⊎◌, sym, Bool-cases, inl, inr, In-keep, arith, ◌∙◌, map,
}
use teskra.Permissions.{
  get_rule_by_id, or_else, PermissionRule, is_persistent, RulePatch, patch_rule, update_rules,
  rule_is, Manager, Registry, resolve_profile, allow, deny, list_applicable_rules, session_key,
  is_allow, is_deny, pattern_of, Answer,
}
use teskra.Permissions.Service.{
  announce, hold, insert_rule, unregistered, CreateRule, new_rule, create_rule, update_rule,
  other_rule, delete_rule, DecisionRequest, Decision, allow_once, allow_session, always_allow,
  deny_always, decision_rule, decide, recorded, record_decision, dispose,
}

abbrev pub stored : PermissionRule → Bool
stored r = is_persistent r.scope

-- A rule that may stand in a table which began as `old`: its scope is persistent, or a rule of `old` has
-- its id and its scope.
abbrev pub IsAllowed : List PermissionRule → PermissionRule → Type 0
IsAllowed old r =
    (stored r ≡ true) ⊎ ((o : PermissionRule) × In o old × (o.id ≡ r.id) × (o.scope ≡ r.scope))

abbrev pub AreAllowed : (old new : List PermissionRule) → Type 0
AreAllowed old new = (r : PermissionRule) → In r new → IsAllowed old r

pub data Call : Type 0 where
  creates : (now id : String) → CreateRule → Call
  updates : (id : String) → RulePatch → Call
  deletes : (id : String) → Call
  resolves :
      (workspace : Option String) (agent : String) (mode : Option String) (consume : Bool) → Call
  records : (now id : String) → DecisionRequest → Call
  disposes : Call

unfoldable pub call : Registry → Manager → Call → Manager
call registry m (creates now id q) = (create_rule registry m now id q).0
call registry m (updates id p) = (update_rule m id p).0
call registry m (deletes id) = (delete_rule m id).0
call registry m (resolves workspace agent mode consume) =
    (resolve_profile registry m workspace agent mode consume).0
call registry m (records now id q) = (record_decision registry m now id q).0
call registry m disposes = dispose m

unfoldable pub calls : Registry → Manager → List Call → Manager
calls registry m [] = m
calls registry m (c ∷ cs) = calls registry (call registry m c) cs

AreAllowed-refl : (old : List PermissionRule) → AreAllowed old old
AreAllowed-refl old r m = inr (r, m, refl, refl)

AreAllowed-trans :
    (old mid new : List PermissionRule)
    → AreAllowed old mid
    → AreAllowed mid new
    → AreAllowed old new
AreAllowed-trans old mid new h k r m = elim (k r m) [
  | inl t ↦ inl t
  | inr (o, n, same_id, same_scope) ↦ elim (h o n) [
    | inl t ↦ inl (ap is_persistent (sym same_scope) ∙ t)
    | inr (q, l, id, scope) ↦ inr (q, l, id ∙ same_id, scope ∙ same_scope)
  ]
]

IsAllowed-one :
    (old : List PermissionRule) {r s : PermissionRule}
    → stored r ≡ true
    → In s (r ∷ [])
    → IsAllowed old s
IsAllowed-one old t (here e) = inl (ap stored e ∙ t)
IsAllowed-one old t (there m) = elim m [ ]

append-AreAllowed :
    (rules : List PermissionRule) (r : PermissionRule)
    → stored r ≡ true
    → AreAllowed rules (rules ++ r ∷ [])
append-AreAllowed rules r t s m = elim (In-append_cases rules (r ∷ []) m) [
  | inl k ↦ AreAllowed-refl rules s k
  | inr k ↦ IsAllowed-one rules t k
]

patch_first :
    (p : RulePatch) (r : PermissionRule) (rules : List PermissionRule)
    → IsAllowed (r ∷ []) (patch_rule p r)
    → AreAllowed (r ∷ rules) (patch_rule p r ∷ rules)
patch_first p r rules (inl t) s (here e) = inl (ap stored e ∙ t)
patch_first p r rules (inr (o, here m, id, scope)) s (here e) = inr (
  o,
  here m,
  id ∙ ap (λ (x : PermissionRule). x.id) (sym e),
  scope ∙ ap (λ (x : PermissionRule). x.scope) (sym e),
)
patch_first p r rules (inr (o, there m, id, scope)) s (here e) = elim m [ ]
patch_first p r rules h s (there m) = inr (s, there m, refl, refl)

AreAllowed-cons :
    (r : PermissionRule) (old new : List PermissionRule)
    → AreAllowed old new
    → AreAllowed (r ∷ old) (r ∷ new)
AreAllowed-cons r old new h s (here e) = inr (s, here e, refl, refl)
AreAllowed-cons r old new h s (there m) = elim (h s m) [
  | inl t ↦ inl t
  | inr (o, n, id, scope) ↦ inr (o, there n, id, scope)
]

update_rules-AreAllowed :
    (id : String) (p : RulePatch) (rules : List PermissionRule)
    → ((r : PermissionRule) → IsAllowed (r ∷ []) (patch_rule p r))
    → AreAllowed rules (update_rules id p rules)
unfolding update_rules
update_rules-AreAllowed id p [] keeps = AreAllowed-refl []
update_rules-AreAllowed id p (r ∷ rules) keeps = elim (Bool-cases (rule_is id r)) [
  | inl same ↦ rw (update_rules, same) (patch_first p r rules (keeps r))
  | inr other ↦
      rw (update_rules, other)
        (AreAllowed-cons r rules (update_rules id p rules)
          (update_rules-AreAllowed id p rules keeps))
]

insert_rule-AreAllowed :
    (m : Manager) (r : PermissionRule)
    → stored r ≡ true
    → AreAllowed m.rules (insert_rule m r).0.rules
insert_rule-AreAllowed m r t = elim (Option-cases (get_rule_by_id m.rules r.id)) [
  | inl fresh ↦ rw (insert_rule, fresh) (append-AreAllowed m.rules r t)
  | inr (x, found) ↦ rw (insert_rule, found) (AreAllowed-refl m.rules)
]

create_rule-AreAllowed :
    (registry : Registry) (m : Manager) (now id : String) (q : CreateRule)
    → AreAllowed m.rules (create_rule registry m now id q).0.rules
unfolding create_rule
create_rule-AreAllowed registry m now id q = elim (Bool-cases (is_persistent q.scope)) [
  | inr ephemeral ↦ rw (create_rule, ephemeral) (AreAllowed-refl m.rules)
  | inl t ↦ elim (Option-cases (unregistered registry q.agent_type)) [
    | inr (a, e) ↦ rw (create_rule, t, e) (AreAllowed-refl m.rules)
    | inl e ↦ rw (create_rule, t, e) (insert_rule-AreAllowed m (new_rule now id q) t)
  ]
]

update_rule-AreAllowed :
    (m : Manager) (id : String) (p : RulePatch) → AreAllowed m.rules (update_rule m id p).0.rules
unfolding update_rule
update_rule-AreAllowed m id p = elim (Option-cases p.scope) [
  | inl same ↦
      rw (update_rule, same)
        (update_rules-AreAllowed id p m.rules
          (λ r. inr (r, here refl, refl, ap (λ o. or_else o r.scope) (sym same))))
  | inr (scope, given) ↦ elim (Bool-cases (is_persistent scope)) [
    | inl t ↦
        rw (update_rule, given, t)
          (update_rules-AreAllowed id p m.rules (λ r. inl (rw (patch_rule, given) t)))
    | inr ephemeral ↦ rw (update_rule, given, ephemeral) (AreAllowed-refl m.rules)
  ]
]

delete_rule-AreAllowed : (m : Manager) (id : String) → AreAllowed m.rules (delete_rule m id).0.rules
unfolding delete_rule
delete_rule-AreAllowed m id r k = AreAllowed-refl m.rules r (In-keep (other_rule id) m.rules k).0

announce-rules : (q : DecisionRequest) (m : Manager) → (announce q m).rules ≡ m.rules
announce-rules q m = ground arith

recorded-rules :
    (q : DecisionRequest) (a : Answer PermissionRule) → (recorded q a).0.rules ≡ a.0.rules
recorded-rules q (m, inl e) = refl
recorded-rules q (m, inr r) = announce-rules q m

recorded-AreAllowed :
    (m : Manager) (q : DecisionRequest) (a : Answer PermissionRule)
    → AreAllowed m.rules a.0.rules
    → AreAllowed m.rules (recorded q a).0.rules
recorded-AreAllowed m q a h = rw (recorded-rules q a) h

decide-AreAllowed :
    (registry : Registry) (m : Manager) (now id : String) (q : DecisionRequest) (d : Decision)
    → AreAllowed m.rules (decide registry m now id q d).0.rules
decide-AreAllowed registry m now id q always_allow =
    recorded-AreAllowed m q (create_rule registry m now id (decision_rule q allow))
      (create_rule-AreAllowed registry m now id (decision_rule q allow))
decide-AreAllowed registry m now id q deny_always =
    recorded-AreAllowed m q (create_rule registry m now id (decision_rule q deny))
      (create_rule-AreAllowed registry m now id (decision_rule q deny))
decide-AreAllowed registry m now id q allow_once =
    rw (announce-rules q (hold m q)) (AreAllowed-refl m.rules)
decide-AreAllowed registry m now id q allow_session =
    rw (announce-rules q (hold m q)) (AreAllowed-refl m.rules)

record_decision-AreAllowed :
    (registry : Registry) (m : Manager) (now id : String) (q : DecisionRequest)
    → AreAllowed m.rules (record_decision registry m now id q).0.rules
unfolding record_decision
record_decision-AreAllowed registry m now id q = elim (Option-cases (registry q.agent_type)) [
  | inl missing ↦ rw (record_decision, missing) (AreAllowed-refl m.rules)
  | inr (x, found) ↦ rw (record_decision, found) (decide-AreAllowed registry m now id q q.decision)
]

resolve_profile-rules :
    (registry : Registry) (m : Manager) (workspace : Option String) (agent : String)
    (mode : Option String) (consume : Bool)
    → (resolve_profile registry m workspace agent mode consume).0.rules ≡ m.rules
unfolding resolve_profile
resolve_profile-rules registry m workspace agent mode consume =
    let listed = list_applicable_rules m.rules workspace (some agent) in
    let e =
      merge_session-rules m (session_key workspace agent) (map pattern_of (keep is_allow listed))
        (map pattern_of (keep is_deny listed)) consume in
    elim (Option-cases (registry agent)) [
      | inl missing ↦ rw (resolve_profile, missing) refl
      | inr (x, found) ↦ rw (resolve_profile, found) e
    ]

call-AreAllowed :
    (registry : Registry) (m : Manager) (c : Call) → AreAllowed m.rules (call registry m c).rules
unfolding call dispose
call-AreAllowed registry m (creates now id q) = create_rule-AreAllowed registry m now id q
call-AreAllowed registry m (updates id p) = update_rule-AreAllowed m id p
call-AreAllowed registry m (deletes id) = delete_rule-AreAllowed m id
call-AreAllowed registry m (resolves workspace agent mode consume) =
    rw (resolve_profile-rules registry m workspace agent mode consume) (AreAllowed-refl m.rules)
call-AreAllowed registry m (records now id q) = record_decision-AreAllowed registry m now id q
call-AreAllowed registry m disposes = AreAllowed-refl m.rules

-- Whatever table the manager begins with and whatever calls it gets: a rule that the table holds
-- then has a persistent scope, or a rule of the first table had its id and its scope, so that no
-- call stores a grant for one run or for the session.
pub calls-stored :
    (registry : Registry) (m : Manager) (cs : List Call) (r : PermissionRule)
    → In r (calls registry m cs).rules
    → (is_persistent r.scope ≡ true)
      ⊎ ((o : PermissionRule) × In o m.rules × (o.id ≡ r.id) × (o.scope ≡ r.scope))
unfolding calls
calls-stored registry m [] r k = AreAllowed-refl m.rules r k
calls-stored registry m (c ∷ cs) r k =
    AreAllowed-trans m.rules (call registry m c).rules (calls registry (call registry m c) cs).rules
      (call-AreAllowed registry m c) (calls-stored registry (call registry m c) cs) r k
