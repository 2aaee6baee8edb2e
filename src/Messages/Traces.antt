-- ===== src/Messages/Traces.antt =====
-- What a message may lead to, for any answers of the services.
use teskra.Base.{
  Bool, true, false, not, ◌&&◌, ◌⊎◌, inl, inr, List, [], ◌∷◌, Option, none, some, find, is_empty,
  Text, ◌≡◌, refl, ap, Bool-cases,
}
use teskra.Directives.{
  ApprovalMode, ExecutionMode, MessageDirectiveError, MessageDirectives, run, review, to_workflow,
}
use teskra.Directives.Parse.{parse_message_directives}
use teskra.Messages.{
  Kind, of_run, of_review, of_workflow, Sent, SendRequest, Defaults, TaskRun, Plan, Effect,
  creates_task, starts_review, starts_workflow, continues_run, creates_worktree, starts_run,
  discards_worktree, SendError, Services, is_terminal, no_task, split_task_message_text, Outcome,
  called, after, and_then, ensure_task, sent, start_review, start_workflow,
}
use teskra.Messages.Runs.{
  is_attended, is_manual, is_exec, can_continue, in_worktree, fresh_round, continued_or,
  after_latest, next_round, launch, with_account, with_defaults, dispatch, check_task, after_check,
  after_parse, send_message,
}

-- No run is begun that is attended and asks for every permission.
abbrev pub is_allowed : Plan → Bool
is_allowed p = not (is_attended p.execution_mode && is_manual p.approval_mode)

abbrev pub starts : Effect → Bool
starts (starts_review agent task prompt) = true
starts (starts_workflow task implementer test_command model) = true
starts (continues_run source p) = is_allowed p
starts (starts_run task worktree p) = is_allowed p
starts _ = false

-- The calls after the task is known, and whether the answer is good: nothing is begun; or one thing is
-- asked for; or a worktree is made for a run, and removed where the run was refused.
pub data IsTail : List Effect → Bool → Type 0 where
  nothing_begun : IsTail [] false
  one_start : (e : Effect) (ok : Bool) → starts e ≡ true → IsTail (e ∷ []) ok
  no_worktree : (task agent : Text) → IsTail (creates_worktree task agent ∷ []) false
  run_in_worktree :
      (task agent worktree : Text) (p : Plan)
      → is_allowed p ≡ true
      → IsTail (creates_worktree task agent ∷ starts_run task (some worktree) p ∷ []) true
  worktree_removed :
      (task agent worktree : Text) (p : Plan)
      → is_allowed p ≡ true
      → IsTail
          (creates_worktree task agent
            ∷ starts_run task (some worktree) p
            ∷ discards_worktree worktree
            ∷ [])
          false

-- A task is made first where the message names none, and never without a title.
pub data IsTrace (req : SendRequest) : List Effect → Bool → Type 0 where
  of_task : {es : List Effect} {ok : Bool} → IsTail es ok → IsTrace req es ok
  of_new_task :
      (title : Text) (description : Option Text) {es : List Effect} {ok : Bool}
      → req.task_id ≡ none
      → is_empty title ≡ false
      → IsTail es ok
      → IsTrace req (creates_task title description ∷ es) ok

module _ {E : Type 0} where
  abbrev pub is_ok : SendError E ⊎ Sent → Bool
  is_ok (inl e) = false
  is_ok (inr r) = true

  abbrev Tail : Outcome E Sent → Type 0
  Tail o = IsTail o.0 (is_ok o.1)

  abbrev Trace : SendRequest → Outcome E Sent → Type 0
  Trace req o = IsTrace req o.0 (is_ok o.1)

  called-Tail :
      (e : Effect) (x : E ⊎ Text) (kind : Kind) (task : Text)
      → starts e ≡ true
      → Tail (and_then (called e x) (sent kind task))
  called-Tail e (inl bad) kind task h = one_start e false h
  called-Tail e (inr id) kind task h = one_start e true h

  created-Trace :
      (req : SendRequest) (title : Text) (description : Option Text) (x : E ⊎ Text)
      (f : Text → Outcome E Sent)
      → req.task_id ≡ none
      → is_empty title ≡ false
      → ((task : Text) → Tail (f task))
      → Trace req (and_then (called (creates_task title description) x) f)
  created-Trace req title description (inl bad) f e t h =
      of_new_task title description e t nothing_begun
  created-Trace req title description (inr id) f e t h = of_new_task title description e t (h id)

  ensure-Trace :
      (s : Services E) (req : SendRequest) (known : Option Text) (body : Text)
      (f : Text → Outcome E Sent)
      → req.task_id ≡ known
      → ((task : Text) → Tail (f task))
      → Trace req (and_then (ensure_task s known body) f)
  unfolding ensure_task
  ensure-Trace s req (some id) body f e h = of_task (h id)
  ensure-Trace s req none body f e h =
      let title = (split_task_message_text body).0 in
      let description = (split_task_message_text body).1 in
      elim (Bool-cases (is_empty title)) [
        | inl t ↦ rw (t) (of_task nothing_begun)
        | inr t ↦
            rw (t) (created-Trace req title description (s.create_task title description) f e t h)
      ]

  module _ (s : Services E) where
    in_worktree-Tail :
        (task agent worktree : Text) (p : Plan) (x : E ⊎ Text)
        → is_allowed p ≡ true
        → Tail (after (creates_worktree task agent ∷ []) (in_worktree s task worktree p x))
    in_worktree-Tail task agent worktree p (inl e) h = worktree_removed task agent worktree p h
    in_worktree-Tail task agent worktree p (inr id) h = run_in_worktree task agent worktree p h

    worktree-Tail :
        (task : Text) (p : Plan) (x : E ⊎ Text)
        → is_allowed p ≡ true
        → Tail (
            and_then
              (called (creates_worktree task p.agent_type) x)
              (λ worktree. in_worktree s task worktree p (s.start_run task (some worktree) p)))
    worktree-Tail task p (inl e) h = no_worktree task p.agent_type
    worktree-Tail task p (inr worktree) h =
        in_worktree-Tail task p.agent_type worktree p (s.start_run task (some worktree) p) h

    fresh_round-Tail : (p : Plan) (task : Text) → is_allowed p ≡ true → Tail (fresh_round s p task)
    unfolding fresh_round
    fresh_round-Tail p task h = elim (Bool-cases (is_attended p.execution_mode)) [
      | inl t ↦
          rw (t) (called-Tail (starts_run task none p) (s.start_run task none p) of_run task h)
      | inr t ↦ rw (t) (worktree-Tail task p (s.create_worktree task p.agent_type) h)
    ]

    continued_or-Tail :
        (p : Plan) (task : Text) (r : TaskRun) (x : E ⊎ Bool)
        → is_allowed p ≡ true
        → Tail (continued_or s p task r x)
    continued_or-Tail p task r (inl e) h = nothing_begun
    continued_or-Tail p task r (inr false) h = fresh_round-Tail p task h
    continued_or-Tail p task r (inr true) h =
        called-Tail (continues_run r.id p) (s.continue_run r.id p) of_run task h

    after_latest-Tail :
        (p : Plan) (task : Text) (o : Option TaskRun)
        → is_allowed p ≡ true
        → Tail (after_latest s p task o)
    after_latest-Tail p task none h = fresh_round-Tail p task h
    after_latest-Tail p task (some r) h = elim (Bool-cases (is_terminal r.status)) [
      | inl done ↦ rw (done) (continued_or-Tail p task r (can_continue s p r) h)
      | inr open' ↦ rw (open') nothing_begun
    ]

    next_round-Tail :
        (p : Plan) (task : Text) (x : E ⊎ List TaskRun)
        → is_allowed p ≡ true
        → Tail (next_round s p task x)
    next_round-Tail p task (inl e) h = nothing_begun
    next_round-Tail p task (inr runs) h = after_latest-Tail p task (find is_exec runs) h

    launch-Trace : (req : SendRequest) (p : Plan) → Trace req (launch s req p)
    unfolding launch
    launch-Trace req p =
        elim (Bool-cases (is_attended p.execution_mode && is_manual p.approval_mode)) [
          | inl t ↦ rw (t) (of_task nothing_begun)
          | inr t ↦ rw (t) (
              ensure-Trace s req req.task_id p.prompt
                (λ task. next_round s p task (s.runs_of_task task)) refl
                (λ task. next_round-Tail p task (s.runs_of_task task) (ap not t)))
        ]

    with_account-Trace :
        (req : SendRequest) (plan : Option Text → Plan) (x : SendError E ⊎ Option Text)
        → Trace req (with_account s req plan x)
    with_account-Trace req plan (inl e) = of_task nothing_begun
    with_account-Trace req plan (inr account) = launch-Trace req (plan account)

    with_defaults-Trace :
        (req : SendRequest) (prompt : Text) (agent account : Option Text)
        (mode : Option ExecutionMode) (approval : Option ApprovalMode) (model : Option Text)
        (x : E ⊎ Defaults)
        → Trace req (with_defaults s req prompt agent account mode approval model x)
    with_defaults-Trace req prompt agent account mode approval model (inl e) = of_task nothing_begun
    with_defaults-Trace req prompt agent account mode approval model (inr d) =
        with_account-Trace req _ _

    start_review-Trace :
        (req : SendRequest) (prompt agent : Text) → Trace req (start_review s req prompt agent)
    unfolding start_review
    start_review-Trace req prompt agent = ensure-Trace s req req.task_id prompt _ refl (λ task.
        called-Tail (starts_review agent task prompt) (s.start_review agent task prompt) of_review
          task refl)

    start_workflow-Trace :
        (req : SendRequest) (prompt : Text) (agent model test_command : Option Text)
        → Trace req (start_workflow s req prompt agent model test_command)
    unfolding start_workflow
    start_workflow-Trace req prompt agent model test_command =
        elim (Bool-cases (no_task req.task_id && is_empty prompt)) [
          | inl t ↦ rw (t) (of_task nothing_begun)
          | inr t ↦ rw (t) (
              ensure-Trace s req req.task_id prompt _ refl (λ task.
                called-Tail (starts_workflow task agent test_command model)
                  (s.start_workflow task agent test_command model) of_workflow task refl))
        ]

    dispatch-Trace : (req : SendRequest) (d : MessageDirectives) → Trace req (dispatch s req d)
    unfolding dispatch
    dispatch-Trace req (run prompt agent account mode approval model) =
        with_defaults-Trace req prompt agent account mode approval model s.resolve_defaults
    dispatch-Trace req (review prompt agent) = start_review-Trace req prompt agent
    dispatch-Trace req (to_workflow prompt agent model test_command) =
        start_workflow-Trace req prompt agent model test_command

    after_check-Trace :
        (req : SendRequest) (d : MessageDirectives) (x : SendError E ⊎ Bool)
        → Trace req (after_check s req d x)
    after_check-Trace req d (inl e) = of_task nothing_begun
    after_check-Trace req d (inr known) = dispatch-Trace req d

    after_parse-Trace :
        (req : SendRequest) (x : MessageDirectiveError ⊎ MessageDirectives)
        → Trace req (after_parse s req x)
    after_parse-Trace req (inl e) = of_task nothing_begun
    after_parse-Trace req (inr d) = after_check-Trace req d (check_task s req req.task_id)

    -- Whatever the services answer: a message makes a task only where it names none, and with a title; then
    -- it begins nothing, or asks for one review, workflow, run or continuation, or makes a worktree. A
    -- worktree is followed by the run in it, and is removed where that run was refused; without the run the
    -- answer is an error. No run that is attended and asks for every permission is begun, and an answer that
    -- is no error comes after a start.
    pub send_message-IsTrace :
        (req : SendRequest) → IsTrace req (send_message s req).0 (is_ok (send_message s req).1)
    unfolding send_message
    send_message-IsTrace req = after_parse-Trace req (parse_message_directives req.text)
