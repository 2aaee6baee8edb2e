-- ===== src/Permissions/Profiles.antt =====
-- The profile that a run gets: deny wins, and a grant that holds once is taken once.
use teskra.Base.{
  String, ◌==◌, eq_iff, ◌≡◌, refl, sym, ap, ◌∙◌, subst, Bool, true, false, not, ◌&&◌, ◌||◌, List,
  [], ◌∷◌, ◌++◌, Option, some, keep, map, includes, is_empty, lookup, lookup-insert_self,
  Option-cases, Bool-cases, inl, inr, arith, any,
}
use teskra.Permissions.{
  PermissionRule, Manager, Registry, Enforcement, Resolved, SessionDecisions, is_deny, is_allow,
  is_ask, pattern_of, notice_of, applies, list_applicable_rules, session_key, or_else, profile_id,
  dedupe_from, dedupe, effective, not_denied, merge_session, resolve_profile,
}
use teskra.Permissions.Service.{no_decisions}

includes-append :
    (xs ys : List String) (s : String) → includes (xs ++ ys) s ≡ (includes xs s || includes ys s)
includes-append [] ys s = refl
includes-append (x ∷ xs) ys s = let ih = includes-append xs ys s in ground arith

includes-dedupe_from :
    (seen ps : List String) (s : String)
    → includes (dedupe_from seen ps) s ≡ (includes seen s || includes ps s)
unfolding dedupe_from
includes-dedupe_from seen [] s = ground arith
includes-dedupe_from seen (p ∷ ps) s = elim (Bool-cases (includes seen p)) [
  | inl t ↦
      let ih = includes-dedupe_from seen ps s in
      elim (Bool-cases (p == s)) [
        | inl v ↦
            let e : p ≡ s = (eq_iff p s).0 v in
            let t' : includes seen s ≡ true = subst (λ x. includes seen x ≡ true) e t in
            ground arith
        | inr w ↦ ground arith
      ]
  | inr u ↦
      let ih = includes-dedupe_from (seen ++ p ∷ []) ps s in
      let more = includes-append seen (p ∷ []) s in ground arith
]

includes-keep :
    (q : String → Bool) (xs : List String) (s : String)
    → includes (keep q xs) s ≡ (includes xs s && q s)
includes-keep q [] s = refl
includes-keep q (x ∷ xs) s =
    let ih = includes-keep q xs s in
    elim (Bool-cases (x == s)) [
      | inl t ↦ let e : x ≡ s = (eq_iff x s).0 t in let same : q x ≡ q s = ap q e in ground arith
      | inr u ↦ ground arith
    ]

-- A profile denies what is denied, and allows what is allowed and not denied.
effective-deny :
    (id mode : String) (allowed denied : List String) (p : String)
    → includes (effective id mode (allowed, denied)).deny p ≡ includes denied p
unfolding effective
effective-deny id mode allowed denied p = includes-dedupe_from [] denied p

effective-allow :
    (id mode : String) (allowed denied : List String) (p : String)
    → includes (effective id mode (allowed, denied)).allow p
      ≡ (includes allowed p && not (includes denied p))
unfolding effective
effective-allow id mode allowed denied p =
    let one = includes-keep (not_denied (dedupe denied)) (dedupe allowed) p in
    let two = includes-dedupe_from [] allowed p in
    let three = includes-dedupe_from [] denied p in ground arith

-- A rule of the table, or a decision of the app session, that bears on a pattern.
abbrev pub rule_matches :
    (PermissionRule → Bool) → Option String → String → String → PermissionRule → Bool
rule_matches acts workspace agent p r =
    applies workspace (some agent) r && acts r && r.command_pattern == p

abbrev pub session_of : Manager → Option String → String → SessionDecisions
session_of m workspace agent =
    or_else (lookup (session_key workspace agent) m.session_decisions) no_decisions

unfoldable pub denied : Manager → Option String → String → String → Bool
denied m workspace agent p =
    any (rule_matches is_deny workspace agent p) m.rules
    || includes (session_of m workspace agent).deny p

unfoldable pub granted : Manager → Option String → String → String → Bool
granted m workspace agent p =
    any (rule_matches is_allow workspace agent p) m.rules
    || includes (session_of m workspace agent).allow p
    || includes (session_of m workspace agent).once p

includes-patterns :
    (acts : PermissionRule → Bool) (workspace : Option String) (agent p : String)
    (rules : List PermissionRule)
    → includes (map pattern_of (keep acts (list_applicable_rules rules workspace (some agent)))) p
      ≡ any (rule_matches acts workspace agent p) rules
unfolding list_applicable_rules
includes-patterns acts workspace agent p [] = refl
includes-patterns acts workspace agent p (r ∷ rules) =
    let ih = includes-patterns acts workspace agent p rules in ground arith

module _ (m : Manager) (workspace : Option String) (agent : String) (allowed denies : List String)
    (consume : Bool) (p : String) where
  abbrev merged : List String × List String
  merged = (merge_session m (session_key workspace agent) allowed denies consume).1

  merge_session-deny :
      includes merged.1 p ≡ (includes denies p || includes (session_of m workspace agent).deny p)
  unfolding merge_session
  merge_session-deny =
      elim (Option-cases (lookup (session_key workspace agent) m.session_decisions)) [
        | inl missing ↦ ground arith
        | inr (d, found) ↦ let e = includes-append denies d.deny p in ground arith
      ]

  merge_session-allow : includes merged.0 p ≡ (
      includes allowed p
      || includes (session_of m workspace agent).allow p
      || includes (session_of m workspace agent).once p)
  unfolding merge_session
  merge_session-allow =
      elim (Option-cases (lookup (session_key workspace agent) m.session_decisions)) [
        | inl missing ↦ ground arith
        | inr (d, found) ↦
            let one = includes-append allowed (d.allow ++ d.once) p in
            let two = includes-append d.allow d.once p in ground arith
      ]

pub merge_session-rules :
    (m : Manager) (key : String) (allowed denied : List String) (consume : Bool)
    → (merge_session m key allowed denied consume).0.rules ≡ m.rules
unfolding merge_session
merge_session-rules m key allowed denied consume = ground arith

is_empty-nil : (xs : List String) → is_empty xs ≡ true → xs ≡ []
is_empty-nil [] h = refl
is_empty-nil (x ∷ xs) h = absurd (cc)

emptied : (d : SessionDecisions) → is_empty d.once ≡ true → record d { once = [] } ≡ d
emptied d h = ap (λ (o : List String). record d { once = o }) (sym (is_empty-nil d.once h))

merge_session-taken :
    (m : Manager) (workspace : Option String) (agent : String) (allowed denies : List String)
    → session_of
        (merge_session m (session_key workspace agent) allowed denies true).0
        workspace
        agent
      ≡ record (session_of m workspace agent) { once = [] }
unfolding merge_session
merge_session-taken m workspace agent allowed denies =
    elim (Option-cases (lookup (session_key workspace agent) m.session_decisions)) [
      | inl missing ↦ ground arith
      | inr (d, found) ↦ elim (Bool-cases (is_empty d.once)) [
        | inl t ↦ let e = emptied d t in ground arith
        | inr u ↦
            let e =
              lookup-insert_self (session_key workspace agent) (record d { once = [] })
                m.session_decisions in
            ground arith
      ]
    ]

module _ (registry : Registry) (m : Manager) (workspace : Option String) (agent : String)
    (mode : Option String) where
  -- For a registered agent `resolveProfile` gives a profile that denies a pattern exactly when an
  -- applicable rule or a decision of the session denies it, and allows it exactly when one allows it
  -- and none denies it: deny wins.
  pub resolve_profile-effective :
      (consume : Bool) (p : String) (e : Enforcement)
      → registry agent ≡ some e
      → (r : Resolved) × ((resolve_profile registry m workspace agent mode consume).1 ≡ inr r)
        × (includes r.profile.deny p ≡ denied m workspace agent p)
        × (includes r.profile.allow p
            ≡ (granted m workspace agent p && not (denied m workspace agent p)))
  unfolding resolve_profile denied granted
  resolve_profile-effective consume p e found =
      let listed = list_applicable_rules m.rules workspace (some agent) in
      let allows = map pattern_of (keep is_allow listed) in
      let denies = map pattern_of (keep is_deny listed) in
      let both = (merge_session m (session_key workspace agent) allows denies consume).1 in
      let mode' = or_else mode "manual" in
      let id = profile_id workspace agent mode' in
      let one = effective-deny id mode' both.0 both.1 p in
      let two = effective-allow id mode' both.0 both.1 p in
      let three = merge_session-deny m workspace agent allows denies consume p in
      let four = merge_session-allow m workspace agent allows denies consume p in
      let five = includes-patterns is_deny workspace agent p m.rules in
      let six = includes-patterns is_allow workspace agent p m.rules in
      let result : Resolved = record {
        profile = effective id mode' both;
        notices = map (notice_of e) (keep is_ask listed);
      } in
      (
        result,
        rw (resolve_profile, found) refl,
        one ∙ (three ∙ ap (λ b. b || includes (session_of m workspace agent).deny p) five),
        ground arith,
      )

  -- The preview, which does not consume, changes nothing.
  pub resolve_profile-preview : (resolve_profile registry m workspace agent mode false).0 ≡ m
  unfolding resolve_profile merge_session
  resolve_profile-preview = ground arith

  -- The projection of a run takes the grants that hold once: of all that was granted, only the rules
  -- and the grants of the session are left to the runs that follow.
  pub resolve_profile-consumes :
      (p : String) (e : Enforcement)
      → registry agent ≡ some e
      → granted (resolve_profile registry m workspace agent mode true).0 workspace agent p ≡ (
          any (rule_matches is_allow workspace agent p) m.rules
          || includes (session_of m workspace agent).allow p)
  unfolding resolve_profile merge_session granted
  resolve_profile-consumes p e found =
      let listed = list_applicable_rules m.rules workspace (some agent) in
      let allows = map pattern_of (keep is_allow listed) in
      let denies = map pattern_of (keep is_deny listed) in
      let same = merge_session-rules m (session_key workspace agent) allows denies true in
      let taken = merge_session-taken m workspace agent allows denies in
      rw (resolve_profile, found) (rw (granted, same, taken) (ground arith))
