-- ===== src/Workflow.antt =====
-- runtime/workflow.py: the checkpoint of a workflow thread, one file for each thread.
use railwarden.Base.{
  ℕ, String, Option, none, some, [], ◌∷◌, Result, ok, err, key_error, runtime_error, lookup, insert,
  ◌>>=◌, ◌≡◌, ◌≢◌, lookup-insert, eq_refl, text_ne, sym, ap, ◌∙◌, if◌then◌else◌,
}
use railwarden.Value.{Value, num, str, obj, Fields, end, field, get, get_or, Show, to_str}
use railwarden.Runtime.{Runtime, Action, append_event}
use railwarden.Providers.Health.{number_of}

pub record WorkflowCheckpoint : Type 0 where
  pub thread_id : String
  pub node : String
  pub payload : Fields
  pub updated_at : ℕ

-- `_mapping`
abbrev mapping : Value → Fields
mapping (obj d) = d
mapping _ = end

abbrev checkpoint_dict : WorkflowCheckpoint → Fields
checkpoint_dict checkpoint = field "thread_id" (str checkpoint.thread_id) (
    field "node" (str checkpoint.node) (
      field "payload" (obj checkpoint.payload) (
        field "updated_at" (num checkpoint.updated_at)
          (field "langgraph_scope" (str "thread") end))))

unfoldable pub write_checkpoint : WorkflowCheckpoint → Runtime → Runtime
write_checkpoint checkpoint rt = record rt {
  workflows = insert checkpoint.thread_id (obj (checkpoint_dict checkpoint)) rt.workflows;
}

unfoldable pub save_workflow : WorkflowCheckpoint → Action (Unit {0})
unfolding write_checkpoint append_event
save_workflow checkpoint rt =
    let (_, t) =
      append_event "workflow_checkpoint"
        (field "thread_id" (str checkpoint.thread_id) (field "node" (str checkpoint.node) end)) none
        (write_checkpoint checkpoint rt) in
    (ok tt, t)

abbrev pub checkpoint_at : ℕ → String → String → Fields → WorkflowCheckpoint
checkpoint_at now node thread_id payload = record {
  thread_id = thread_id;
  node = node;
  payload = payload;
  updated_at = now;
}

unfoldable pub advance_workflow : String → String → Fields → Action WorkflowCheckpoint
unfolding save_workflow
advance_workflow node thread_id payload rt =
    let checkpoint = checkpoint_at rt.clock node thread_id payload in
    (ok checkpoint, (save_workflow checkpoint rt).1)

module _ (show : Show) (parse : String → Option ℕ) where
  -- `str(payload[key])`
  abbrev required : String → Fields → Result String
  required key payload = elim (get key payload) [
    | some v ↦ ok (to_str show v)
    | none ↦ err (key_error (key ∷ []))
  ]

  unfoldable pub checkpoint_of : ℕ → Fields → Result WorkflowCheckpoint
  unfolding get to_str number_of
  checkpoint_of now payload = do
    thread_id ← required "thread_id" payload
    node ← required "node" payload
    updated_at ← number_of show parse (get_or "updated_at" (num now) payload)
    ok (record {
      thread_id = thread_id;
      node = node;
      payload = mapping (get_or "payload" (obj end) payload);
      updated_at = updated_at;
    })

  abbrev checkpoint_in : ℕ → Value → Result WorkflowCheckpoint
  checkpoint_in now (obj payload) = checkpoint_of now payload
  checkpoint_in now _ = err (runtime_error ("Invalid workflow checkpoint: " ∷ []))

  -- The rest of `load_workflow`, from what the file holds.
  abbrev loaded : ℕ → String → Option Value → Result WorkflowCheckpoint
  loaded now thread_id none = ok (checkpoint_at now "GOAL_RECEIVED" thread_id end)
  loaded now thread_id (some v) = checkpoint_in now v

  unfoldable pub load_workflow : String → Runtime → Result WorkflowCheckpoint
  unfolding lookup checkpoint_of
  load_workflow thread_id rt = loaded rt.clock thread_id (lookup thread_id rt.workflows)

  -- The checkpoint that `advance_workflow` writes for a thread is what `load_workflow` then returns
  -- for it; for every other thread it returns what it returned before.
  pub load_workflow-advance_workflow :
      (node thread_id : String) (payload : Fields) (rt : Runtime)
      → (load_workflow thread_id (advance_workflow node thread_id payload rt).1
          ≡ ok (checkpoint_at rt.clock node thread_id payload))
        × ((other : String)
            → other ≢ thread_id
            → load_workflow other (advance_workflow node thread_id payload rt).1
              ≡ load_workflow other rt)
  unfolding load_workflow advance_workflow save_workflow write_checkpoint append_event checkpoint_of
      get to_str number_of
  load_workflow-advance_workflow node thread_id payload rt = (
    ap (loaded rt.clock thread_id) (
        lookup-insert thread_id thread_id stored rt.workflows
        ∙ ap (λ b. if b then some stored else lookup thread_id rt.workflows) (eq_refl thread_id)),
    λ other differ. ap (loaded rt.clock other) (
        lookup-insert thread_id other stored rt.workflows
        ∙ ap (λ b. if b then some stored else lookup other rt.workflows)
            (text_ne thread_id other (λ e. differ (sym e)))),
  )
    where
      stored : Value
      stored = obj (checkpoint_dict (checkpoint_at rt.clock node thread_id payload))
