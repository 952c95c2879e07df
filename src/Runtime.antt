-- ===== src/Runtime.antt =====
-- The durable state of a project: the files of the runtime directory that the modelled code reads
-- and writes, and the clock. A file is the JSON value that it holds; `none`, or a missing key, is a
-- file that does not exist. Code that mutates the state and may raise is an action: the state
-- outlives an exception.
use railwarden.Base.{ℕ, String, Option, none, List, [], ◌∷◌, ◌++◌, Dict, ok}
pub use railwarden.Base.Exec.{Exec, pure, throw, and_then, ◌>>=◌, ◌>>◌, gets, modify, refuse}
use railwarden.Value.{Value, Fields}

-- A row of events.jsonl.
pub record Event : Type 0 where
  pub ts : ℕ
  pub kind : String
  pub task_id : Option String
  pub payload : Fields

pub record Runtime : Type 0 where
  -- `time.time()`; all readings of one operation give this value
  pub clock : ℕ
  -- state/tasks.json
  pub tasks_file : Option Value
  -- events.jsonl
  pub events : List Event
  -- provider-health/PROVIDER.json
  pub health : Dict Value
  -- quotas/PROVIDER-MODEL.json
  pub quotas : Dict Value
  -- langgraph/THREAD.json
  pub workflows : Dict Value
  -- reviews/ and validation/, by the file's name
  pub evidence : Dict Value
  -- decisions.jsonl
  pub decisions : List Fields
  -- failures/TASK.json
  pub failures : Dict Value
  -- planning-jobs/RUN.json
  pub planning_jobs : Dict Value
  -- state/pending-plan.json
  pub pending_plan : Option Value
  -- state/session-profile.json
  pub session : Option Value
  -- state/hermes-mailbox.jsonl
  pub mailbox : List Fields
  -- the other JSON files, inside and outside of the directory, by their path: results of
  -- workers, process records, checkpoints
  pub json_files : Dict Value
  -- the text files, by their path: goals, logs, prompts, handoff packets
  pub text_files : Dict String

abbrev pub Action : Type 0 → Type 0
Action A = Exec Runtime A

abbrev pub empty : ℕ → Runtime
empty now = record {
  clock = now;
  tasks_file = none;
  events = [];
  health = [];
  quotas = [];
  workflows = [];
  evidence = [];
  decisions = [];
  failures = [];
  planning_jobs = [];
  pending_plan = none;
  session = none;
  mailbox = [];
  json_files = [];
  text_files = [];
}

abbrev pub event_of : Runtime → String → Fields → Option String → Event
event_of rt kind payload task_id = record {
  ts = rt.clock;
  kind = kind;
  task_id = task_id;
  payload = payload;
}

-- runtime/events.py, `append_event`
unfoldable pub append_event : String → Fields → Option String → Action Event
append_event kind payload task_id rt = (
  ok (event_of rt kind payload task_id),
  record rt { events = rt.events ++ (event_of rt kind payload task_id ∷ []) },
)
