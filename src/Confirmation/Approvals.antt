-- ===== src/Confirmation/Approvals.antt =====
-- What settles the promise of a shell step with `true`.
use teskra.Base.{
  String, ◌==◌, eq_iff, ℕ, Bool, true, false, ◌⊎◌, inl, inr, List, [], ◌∷◌, ◌++◌, Option, none,
  some, here, there, In-append_cases, length, drop, lookup, ◌≡◌, refl, sym, ap, ◌∙◌, subst,
  if◌then◌else◌,
}
use teskra.Decisions.{PendingDecision}
use teskra.Decisions.Service.{
  Service, Event, handler_called, decision_opened, decision_resolved, security_log, Answer,
}
use teskra.Confirmation.{
  ShellConfirmationDetails, Parked, Confirmations, settle_parked, settle, decision_handled, step_of,
  is_approval, handler_name, deliver, with_inbox, requested, request, resolved_step, resolve_parked,
  resolve_step, cancel_parked, cancel_step, Call, requests_step, resolves_step, cancels_step,
  decides, expires, call,
}
use teskra.Confirmation.Waiting.{
  Passed, Waits, Approved, new_events, Explained, In-single, is_approval-IsApproval, settle-true,
  settle-false, settle-Waits,
}

later_events :
    (c : Confirmations) (t : ℕ) (e : Event) (es : List Event)
    → Explained c es t
    → Explained c (e ∷ es) t
later_events c t e es (inl m) = inl m
later_events c t e es (inr (step, w, (d, m, a))) = inr (step, w, (d, there m, a))

handled-true :
    (n : String) (d : PendingDecision) (c : Confirmations) (es : List Event) (t : ℕ) (b : Bool)
    → (n == handler_name) ≡ b
    → Explained (if b then decision_handled c d else c) es t
    → Explained c (handler_called n d ∷ es) t
unfolding decision_handled
handled-true n d c es t false e h = later_events c t (handler_called n d) es h
handled-true n d c es t true e (inr (step, w, (x, m, a))) = inr (
  step,
  settle-Waits c (step_of d.workflow_step_id d.dedupe_key) step (is_approval d) t w,
  (x, there m, a),
)
handled-true n d c es t true e (inl m) =
    elim (settle-true c (step_of d.workflow_step_id d.dedupe_key) (is_approval d) t m) [
      | inl k ↦ inl k
      | inr (a, w) ↦ inr (
        step_of d.workflow_step_id d.dedupe_key,
        w,
        (
          d,
          here (ap (λ x. handler_called x d) (sym ((eq_iff n handler_name).0 e))),
          is_approval-IsApproval d a,
        ),
      )
    ]

deliver-true :
    (es : List Event) (c : Confirmations) (t : ℕ)
    → Passed t (deliver es c).answers
    → Explained c es t
deliver-true [] c t m = inl m
deliver-true (handler_called n d ∷ es) c t m =
    handled-true n d c es t (n == handler_name) refl
      (deliver-true es (if n == handler_name then decision_handled c d else c) t m)
deliver-true (decision_opened d ∷ es) c t m =
    later_events c t (decision_opened d) es (deliver-true es c t m)
deliver-true (decision_resolved d ∷ es) c t m =
    later_events c t (decision_resolved d) es (deliver-true es c t m)
deliver-true (security_log id key title ∷ es) c t m =
    later_events c t (security_log id key title) es (deliver-true es c t m)

settle_parked-inbox :
    (c : Confirmations) (step : String) (b : Bool) (o : Option Parked)
    → (settle_parked o step b c).inbox ≡ c.inbox
settle_parked-inbox c step b none = refl
settle_parked-inbox c step b (some p) = refl

settle-inbox : (c : Confirmations) (step : String) (b : Bool) → (settle c step b).inbox ≡ c.inbox
unfolding settle
settle-inbox c step b = settle_parked-inbox c step b (lookup step c.pending)

handled-inbox :
    (d : PendingDecision) (c : Confirmations) (b : Bool)
    → (if b then decision_handled c d else c).inbox ≡ c.inbox
unfolding decision_handled
handled-inbox d c true = settle-inbox c (step_of d.workflow_step_id d.dedupe_key) (is_approval d)
handled-inbox d c false = refl

deliver-inbox : (es : List Event) (c : Confirmations) → (deliver es c).inbox ≡ c.inbox
deliver-inbox [] c = refl
deliver-inbox (handler_called n d ∷ es) c =
    deliver-inbox es (if n == handler_name then decision_handled c d else c)
    ∙ handled-inbox d c (n == handler_name)
deliver-inbox (decision_opened d ∷ es) c = deliver-inbox es c
deliver-inbox (decision_resolved d ∷ es) c = deliver-inbox es c
deliver-inbox (security_log id key title ∷ es) c = deliver-inbox es c

-- The events are those of the inbox that the state has in the end.
logged :
    (c c' : Confirmations) (inbox : Service) (t : ℕ)
    → c'.inbox ≡ inbox
    → Explained c (drop (length c.inbox.events) inbox.events) t
    → Explained c (new_events c c') t
logged c c' inbox t e h =
    subst (λ (s : Service). Explained c (drop (length c.inbox.events) s.events) t) (sym e) h

with_inbox-true :
    (c : Confirmations) (inbox : Service) (t : ℕ)
    → Passed t (with_inbox c inbox).answers
    → Explained c (drop (length c.inbox.events) inbox.events) t
with_inbox-true c inbox t m =
    deliver-true (drop (length c.inbox.events) inbox.events) (record c { inbox = inbox }) t m

with_inbox-inbox : (c : Confirmations) (inbox : Service) → (with_inbox c inbox).inbox ≡ inbox
with_inbox-inbox c inbox =
    deliver-inbox (drop (length c.inbox.events) inbox.events) (record c { inbox = inbox })

with_inbox-Explained :
    (c : Confirmations) (inbox : Service) (t : ℕ)
    → Passed t (with_inbox c inbox).answers
    → Explained c (new_events c (with_inbox c inbox)) t
with_inbox-Explained c inbox t m =
    logged c (with_inbox c inbox) inbox t (with_inbox-inbox c inbox) (with_inbox-true c inbox t m)

requested-Explained :
    (c : Confirmations) (d : ShellConfirmationDetails) (a : Answer PendingDecision) (t : ℕ)
    → Passed t (requested c d a).answers
    → Explained c (new_events c (requested c d a)) t
requested-Explained c d (inbox, inl e) t m =
    let c' = with_inbox c inbox in
    elim (In-append_cases c'.answers ((c'.requests, false) ∷ []) m) [
      | inl k ↦ with_inbox-Explained c inbox t k
      | inr k ↦ absurd (let e = (In-single k).0 in cc)
    ]
requested-Explained c d (inbox, inr o) t m =
    let c' = with_inbox c inbox in
    let ready : Confirmations = record c' { required = c'.required ++ d ∷ [] } in
    logged c (requested c d (inbox, inr o)) inbox t
      (settle-inbox ready d.step_id false ∙ with_inbox-inbox c inbox)
      (with_inbox-true c inbox t (settle-false ready d.step_id t m))

resolved_step-Explained :
    (c : Confirmations) (a : Answer PendingDecision) (t : ℕ)
    → Passed t (resolved_step c a).0.answers
    → Explained c (new_events c (resolved_step c a).0) t
resolved_step-Explained c (inbox, inl e) t m = with_inbox-Explained c inbox t m
resolved_step-Explained c (inbox, inr d) t m = with_inbox-Explained c inbox t m

resolve_parked-Explained :
    (c : Confirmations) (now step : String) (b : Bool) (o : Option Parked) (t : ℕ)
    → Passed t (resolve_parked c now step b o).0.answers
    → Explained c (new_events c (resolve_parked c now step b o).0) t
resolve_parked-Explained c now step b none t m = inl m
resolve_parked-Explained c now step b (some p) t m = resolved_step-Explained c _ t m

-- A step that was settled with `false` before explains no more.
settled-Explained :
    (c : Confirmations) (k : String) (es : List Event) (t : ℕ)
    → Explained (settle c k false) es t
    → Explained c es t
settled-Explained c k es t (inl m) = inl (settle-false c k t m)
settled-Explained c k es t (inr (step, w, a)) = inr (step, settle-Waits c k step false t w, a)

cancel_parked-Explained :
    (c : Confirmations) (now step : String) (o : Option Parked) (t : ℕ)
    → Passed t (cancel_parked c now step o).answers
    → Explained c (new_events c (cancel_parked c now step o)) t
cancel_parked-Explained c now step none t m = inl m
cancel_parked-Explained c now step (some p) t m =
    let c' = cancel_parked c now step (some p) in
    let h = with_inbox-Explained (settle c step false) _ t m in
    settled-Explained c step (new_events c c') t (
      subst
        (λ (s : Service).
          Explained (settle c step false) (drop (length s.events) c'.inbox.events) t)
        (settle-inbox c step false) h)

-- A call settles a promise with `true` only where the promise waited for a step and, among the
-- events that the inbox logs in this call, the handler is called with a decision on that very step
-- that was resolved with the option "approve".
pub call-Approved :
    (later : String → ℕ → String) (c : Confirmations) (x : Call) (t : ℕ)
    → Passed t (call later c x).answers
    → Passed t c.answers
      ⊎ ((step : String) × Waits c step t × Approved step (new_events c (call later c x)))
unfolding call request resolve_step cancel_step
call-Approved later c (requests_step now id title d timeout_ms) t m = requested-Explained c d _ t m
call-Approved later c (resolves_step now step b) t m =
    resolve_parked-Explained c now step b (lookup step c.pending) t m
call-Approved later c (cancels_step now step) t m =
    cancel_parked-Explained c now step (lookup step c.pending) t m
call-Approved later c (decides now id option_id by remark) t m = with_inbox-Explained c _ t m
call-Approved later c (expires now) t m = with_inbox-Explained c _ t m
