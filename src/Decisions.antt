-- ===== src/Decisions.antt =====
-- runtime/decisions.py: the decisions that a supervisor takes, and the failures that ask for one.
use railwarden.Base.{String, ◌<>◌, Option, none, some, List, [], ◌∷◌, ◌++◌, ok, lookup, insert}
use railwarden.Value.{Value, num, str, arr, obj, Fields, end, field, texts, update}
use railwarden.Runtime.{Runtime, Event, Action, ◌>>◌, modify, append_event}

-- `tool_call` and `result` are `{}` for `None`.
unfoldable pub record_decision :
    Fields → String → List String → String → String → Fields → Fields → Action Fields
record_decision observed_event diagnosis allowed_actions chosen_action rationale tool_call result
      rt =
    let decision : Fields = field "ts" (num rt.clock) (
      field "observed_event" (obj observed_event) (
        field "diagnosis" (str diagnosis) (
          field "allowed_actions" (arr (texts allowed_actions)) (
            field "chosen_action" (str chosen_action) (
              field "rationale" (str rationale)
                (field "tool_call" (obj tool_call) (field "result" (obj result) end))))))) in
    (ok decision, record rt { decisions = rt.decisions ++ (decision ∷ []) })

abbrev pub decision_payload : String → String → Fields → List String → Fields
decision_payload task_id failure_kind facts allowed_actions =
    field "type" (str "decision_required") (
      field "task_id" (str task_id) (
        field "failure_kind" (str failure_kind)
          (field "facts" (obj facts) (field "allowed_actions" (arr (texts allowed_actions)) end))))

unfoldable pub write_failure : String → Fields → Runtime → Runtime
write_failure task_id payload rt = record rt { failures = insert task_id (obj payload) rt.failures }

unfoldable pub emit_decision_required : String → String → Fields → List String → Action Event
unfolding append_event write_failure
emit_decision_required task_id failure_kind facts allowed_actions = do
  modify (write_failure task_id (decision_payload task_id failure_kind facts allowed_actions))
  append_event "decision_required" (decision_payload task_id failure_kind facts allowed_actions)
      (some task_id)

abbrev failure_path : String → String → String
failure_path runtime_dir task_id = runtime_dir <> "/failures/" <> task_id <> ".json"

abbrev inspected : String → String → Option Value → Fields
inspected runtime_dir task_id none =
    field "status" (str "missing") (field "task_id" (str task_id) end)
inspected runtime_dir task_id (some (obj payload)) =
    update (field "status" (str "ok") (field "path" (str (failure_path runtime_dir task_id)) end))
      payload
inspected runtime_dir task_id (some _) =
    field "status" (str "invalid")
      (field "task_id" (str task_id) (field "path" (str (failure_path runtime_dir task_id)) end))

unfoldable pub inspect_failure : String → String → Runtime → Fields
unfolding lookup update
inspect_failure runtime_dir task_id rt = inspected runtime_dir task_id (lookup task_id rt.failures)
