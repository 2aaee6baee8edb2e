-- ===== src/Thread/Tests.antt =====
-- A thread of four items, read page by page.
use teskra.Base.{◌≡◌, refl, false, inl, inr, List, [], ◌∷◌, none, some, Text, units}
use mathlib.Core.List.{flat_map}
use teskra.Thread.{
  AgentEvent, AgentRun, ThreadItem, observed, progressed, assistant_text, user_message, agent_reply,
  agent_progress, system_item, from_observation, status_change, build_reply,
}
use teskra.Thread.Pages.{Sources, thread_items, get_thread, invalid_cursor}
use teskra.Thread.Following.{follow, follow-thread_items}

abbrev run : AgentRun
run = record {
  id = units "r1";
  agent_type = units "codex";
  workflow_run_id = none;
  role = units "implementer";
  mode = some (units "exec");
  prompt = some (units "fix");
  status = units "failed";
  created_at = units "t1";
  finished_at = some (units "t5");
  updated_at = units "t6";
}

abbrev events : List AgentEvent
events =
    record {
      id = units "1";
      run_id = units "r1";
      created_at = units "t2";
      payload = observed (some (assistant_text (units "do")));
    }
    ∷ record {
      id = units "2";
      run_id = units "r1";
      created_at = units "t3";
      payload = observed (some (assistant_text (units "ne")));
    }
    ∷ record {
      id = units "3";
      run_id = units "r1";
      created_at = units "t2";
      payload = progressed (some (units "half"));
    }
    ∷ []

abbrev sources : Sources Text
sources = record {
  runs = λ task. inr (run ∷ []);
  workflow_runs = λ task. inr [];
  events = λ ids. inr events;
  handoffs = λ ids. inr [];
  decisions = λ ids. inr [];
  terminal_log = λ id. none;
}

abbrev thread : List ThreadItem
thread =
    record {
      created_at = units "t1";
      id = units "user:r1";
      content = user_message (units "r1") (units "fix");
    }
    ∷ record {
      created_at = units "t2";
      id = units "progress:3";
      content = agent_progress (units "r1") (units "half");
    }
    ∷ record {
      created_at = units "t3";
      id = units "reply:r1";
      content = agent_reply (units "r1") (units "codex") (units "done") from_observation false;
    }
    ∷ record {
      created_at = units "t5";
      id = units "system:status:r1";
      content = system_item status_change (units "r1") (units "failed") (units "Run failed");
    }
    ∷ []

four_items : thread_items sources (units "task") ≡ inr thread
unfolding thread_items build_reply flat_map
four_items = refl

bad_cursor :
    get_thread sources (units "task") none (some (units "|x")) ≡ inl (invalid_cursor (units "|x"))
unfolding get_thread
bad_cursor = refl

follow-thread_items_example : follow sources (units "task") 5 3 none ≡ some thread
follow-thread_items_example =
    follow-thread_items sources (units "task") 2 thread four_items
      (refl, (refl, (refl, (refl, tt)))) refl
