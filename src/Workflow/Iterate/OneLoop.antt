-- ===== src/Workflow/Iterate/OneLoop.antt =====
-- The guard of the iteration controller over a history of its calls.
use teskra.Base.{
  String, ◌==◌, ◌≡◌, refl, sym, ap, ◌∙◌, inl, inr, Bool, true, false, List, [], ◌∷◌, ◌++◌, includes,
  includes-append, delete_id, Bool-cases, Option-cases, arith,
}
use teskra.Workflow.Repository.{Db}
use teskra.Workflow.Store.{Result, ok, err, RunDetail, get_run}
use teskra.Workflow.Iterate.Calls.{
  Admitted, Begins, Controller, IterateRequest, Services, begin_iterate, create_iterate_run,
  checked_begin, unless_disposing, created, dispose, end_iterate, first_unregistered, guarded,
  is_of_task, known_run, new_iterate_run, new_run_of, run_again, run_for,
}
use teskra.Workflow.Iterate.Different.{
  all_different, all_different-append, delete_id-remove_one, includes-remove_one,
  all_different-remove_one,
}

pub data ControllerCall : Type 0 where
  begins : (now id : String) → IterateRequest → ControllerCall
  ends : (run_id : String) → ControllerCall
  disposes : ControllerCall

module _ (s : Services) where
  unfoldable pub call : Controller → ControllerCall → Controller
  unfolding begin_iterate end_iterate dispose
  call c (begins now id q) = (begin_iterate s c now id q).0
  call c (ends run_id) = end_iterate c run_id
  call c disposes = dispose c

  unfoldable pub calls : Controller → List ControllerCall → Controller
  unfolding call
  calls c [] = c
  calls c (k ∷ ks) = calls (call c k) ks

-- The loops in flight are those of the guard, each for another run; once the controller is disposing,
-- the run of each has been asked to stop.
pub record IsGuarded (c : Controller) : Type 0 where
  pub same : c.active_loops ≡ c.in_flight_loops
  pub different : all_different c.in_flight_loops ≡ true
  pub told :
      c.disposing ≡ true
      → (run : String) → includes c.in_flight_loops run ≡ true
      → includes c.cancels run ≡ true

-- What the checks before the guard leave as it was.
record SameLoops (c c' : Controller) : Type 0 where
  active : c'.active_loops ≡ c.active_loops
  flying : c'.in_flight_loops ≡ c.in_flight_loops
  disposing : c'.disposing ≡ c.disposing
  cancels : c'.cancels ≡ c.cancels

SameLoops-refl : (c : Controller) → SameLoops c c
SameLoops-refl c = record { active = refl; flying = refl; disposing = refl; cancels = refl }

SameLoops-IsGuarded : (c c' : Controller) → SameLoops c c' → IsGuarded c → IsGuarded c'
SameLoops-IsGuarded c c' k g = record {
  same = k.active ∙ g.same ∙ sym k.flying;
  different = ap all_different k.flying ∙ g.different;
  told = λ d run h.
      ap (λ xs. includes xs run) k.cancels
      ∙ g.told (sym k.disposing ∙ d) run (ap (λ xs. includes xs run) (sym k.flying) ∙ h);
}

module _ (s : Services) where
  created-SameLoops : (c : Controller) (a : Db × Result RunDetail) → SameLoops c (created s c a).0
  created-SameLoops c (db, err e) = record {
    active = refl;
    flying = refl;
    disposing = refl;
    cancels = refl;
  }
  created-SameLoops c (db, ok d) = record {
    active = refl;
    flying = refl;
    disposing = refl;
    cancels = refl;
  }

  new_iterate_run-SameLoops :
      (c : Controller) (now id : String) (q : IterateRequest) (agent : String)
      (reviewers : List String)
      → SameLoops c (new_iterate_run s c now id q agent reviewers).0
  unfolding new_iterate_run
  new_iterate_run-SameLoops c now id q agent reviewers =
      elim (Option-cases (first_unregistered s (agent ∷ reviewers))) [
        | inr (a, missing) ↦ rw (new_iterate_run, missing) (SameLoops-refl c)
        | inl registered ↦
            rw (new_iterate_run, registered)
              (created-SameLoops c (create_iterate_run s c.db now id q agent reviewers))
      ]

  known_run-SameLoops :
      (c : Controller) (q : IterateRequest) (run_id : String)
      → SameLoops c (known_run s c q run_id).0
  unfolding known_run
  known_run-SameLoops c q run_id = elim (Option-cases (get_run c.db run_id)) [
    | inl missing ↦ rw (known_run, missing) (SameLoops-refl c)
    | inr (d, found) ↦ elim (Bool-cases (is_of_task s q.task_id d.run.task_id)) [
      | inl own ↦ rw (known_run, found, own) (SameLoops-refl c)
      | inr other ↦ rw (known_run, found, other) (SameLoops-refl c)
    ]
  ]

  run_for-SameLoops :
      (c : Controller) (now id : String) (q : IterateRequest) (b : Begins)
      → SameLoops c (run_for s c now id q b).0
  run_for-SameLoops c now id q (new_run_of agent reviewers) =
      new_iterate_run-SameLoops c now id q agent reviewers
  run_for-SameLoops c now id q (run_again run_id) = known_run-SameLoops c q run_id

  guarded-IsGuarded :
      (a : Admitted) → a.0.disposing ≡ false → IsGuarded a.0 → IsGuarded (guarded s a).0
  unfolding guarded
  guarded-IsGuarded (c, inl e) free g = g
  guarded-IsGuarded (c, inr r) free g = elim (Bool-cases (includes c.active_loops r.id)) [
    | inl busy ↦ rw (guarded, busy) g
    | inr idle ↦
        let absent = ap (λ xs. includes xs r.id) (sym g.same) ∙ idle in
        rw (guarded, idle)
          (record {
            same = ap (λ xs. xs ++ r.id ∷ []) g.same;
            different = all_different-append c.in_flight_loops r.id g.different absent;
            told = λ d run h. absurd (cc);
          })
  ]

  checked_begin-IsGuarded :
      (c : Controller) (now id : String) (q : IterateRequest)
      → c.disposing ≡ false
      → IsGuarded c
      → IsGuarded (checked_begin s c now id q).0
  unfolding checked_begin
  checked_begin-IsGuarded c now id q free g = elim (Option-cases (s.workspace_of_task q.task_id)) [
    | inl missing ↦ rw (checked_begin, missing) g
    | inr (workspace, found) ↦ elim (Bool-cases (workspace == q.workspace_id)) [
      | inr other ↦ rw (checked_begin, found, other) g
      | inl own ↦
          let k = run_for-SameLoops c now id q q.begins in
          rw (checked_begin, found, own)
            (guarded-IsGuarded (run_for s c now id q q.begins) (k.disposing ∙ free)
              (SameLoops-IsGuarded c _ k g))
    ]
  ]

  unless_disposing-IsGuarded :
      (shutting : Bool) (c : Controller) (a : Admitted)
      → IsGuarded c
      → (shutting ≡ false → IsGuarded a.0)
      → IsGuarded (unless_disposing s shutting c a).0
  unless_disposing-IsGuarded true c a g h = g
  unless_disposing-IsGuarded false c a g h = h refl

  begin_iterate-IsGuarded :
      (c : Controller) (now id : String) (q : IterateRequest)
      → IsGuarded c
      → IsGuarded (begin_iterate s c now id q).0
  unfolding begin_iterate
  begin_iterate-IsGuarded c now id q g =
      unless_disposing-IsGuarded c.disposing c (checked_begin s c now id q) g
        (λ free. checked_begin-IsGuarded c now id q free g)

end_iterate-IsGuarded :
    (c : Controller) (run_id : String) → IsGuarded c → IsGuarded (end_iterate c run_id)
unfolding end_iterate
end_iterate-IsGuarded c run_id g = elim (Bool-cases (includes c.in_flight_loops run_id)) [
  | inr absent ↦ rw (end_iterate, absent) g
  | inl present ↦
      rw (end_iterate, present)
        (record {
          same =
              ap (delete_id run_id) g.same
              ∙ delete_id-remove_one run_id c.in_flight_loops g.different;
          different = all_different-remove_one run_id c.in_flight_loops g.different;
          told = λ d run h. g.told d run (includes-remove_one run_id run c.in_flight_loops h);
        })
]

dispose-IsGuarded : (c : Controller) → IsGuarded c → IsGuarded (dispose c)
unfolding dispose
dispose-IsGuarded c g = record {
  same = g.same;
  different = g.different;
  told = λ d run h.
      let e = includes-append c.cancels c.active_loops run in
      let found = ap (λ xs. includes xs run) g.same ∙ h in ground arith;
}

module _ (s : Services) where
  call-IsGuarded : (c : Controller) (k : ControllerCall) → IsGuarded c → IsGuarded (call s c k)
  unfolding call
  call-IsGuarded c (begins now id q) g = begin_iterate-IsGuarded s c now id q g
  call-IsGuarded c (ends run_id) g = end_iterate-IsGuarded c run_id g
  call-IsGuarded c disposes g = dispose-IsGuarded c g

  -- From a controller that is so already, over any history of requests, of loops that settle and of its
  -- disposal: the loops in flight are the ones that the guard knows, no two of them are for the same run,
  -- and once it is disposing the engine was asked to cancel the run of each.
  pub calls-IsGuarded :
      (c : Controller) (ks : List ControllerCall) → IsGuarded c → IsGuarded (calls s c ks)
  unfolding calls
  calls-IsGuarded c [] g = g
  calls-IsGuarded c (k ∷ ks) g = calls-IsGuarded (call s c k) ks (call-IsGuarded c k g)
