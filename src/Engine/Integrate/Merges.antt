-- ===== src/Engine/Integrate/Merges.antt =====
-- When a tick takes a package for merged.
use railwarden.Base.{
  String, true, false, Option, none, some, List, Result, ok, err, Error, Message, git, validation,
  railwarden as general, configuration, provider, value_error, runtime_error, key_error, os_error,
  type_error, recursion, ◌≡◌, refl, sym, ap, subst, ◌∙◌, ◌⊎◌, inl, inr, lookup, insert,
  lookup-insert, eq_refl, Dict, if◌then◌else◌,
}
use railwarden.Base.Exec.{Exec, run-eq-ok, pure-eq-ok, pure, ◌>>◌, ◌>>=◌}
use railwarden.Config.{ProjectFiles}
use railwarden.Value.{Value, Fields, str, num, obj, field, end, get, put, update}
use railwarden.Value.Laws.{has, get-put_self}
use railwarden.Runtime.{Runtime, append_event}
use railwarden.World.{World}
use railwarden.Tasks.{load_tasks, transition_task}
use railwarden.Tasks.Ledger.{task_with, get-moved_status}
use railwarden.Tasks.Effect.{transition_task-Left}
use railwarden.Workflow.{advance_workflow, save_workflow, write_checkpoint}
use railwarden.Validation.Review.{message_of}
use railwarden.Integration.{
  Candidate, Payload, planned, merged_and_validated, fast_forwarded, integrate_one,
}
use railwarden.Engine.Outside.{Outside, Sys, in_runtime, in_repository}
use railwarden.Engine.Integrate.{
  payload_fields, evidence_name, write_evidence, move_found, workflow, settle_merge,
  merge_and_settle,
}

-- The file of evidence of a payload; a plan has none.
abbrev pub Recorded : Payload → Dict Value → Type 0
Recorded (planned plan) evidence = Unit {0}
Recorded (merged_and_validated merged) evidence =
    lookup (evidence_name merged) evidence
    ≡ some (obj (payload_fields (merged_and_validated merged)))
Recorded (fast_forwarded merged branch tip) evidence =
    lookup (evidence_name merged) evidence
    ≡ some (obj (payload_fields (fast_forwarded merged branch tip)))

module _ (W : World) (O : Outside) (files : ProjectFiles) where
  -- The ledger can be read, and holds under the id a task with the status and the field.
  abbrev pub Holding : String → String → String → Value → Runtime → Type 0
  Holding id status key value rt =
      (written : List Fields) × (task : Fields) × (load_tasks rt ≡ ok written)
      × (task_with id written ≡ some task)
      × (get "status" task ≡ some (str status))
      × (get key task ≡ some value)

  -- From what the merge gave and the state that it left: what is returned, and the state in which
  -- the tick goes on.
  abbrev pub Settled : String → Result Payload → Sys W → Option Fields → Sys W → Type 0
  Settled id (ok payload) s integrated t =
      (integrated ≡ some (payload_fields payload))
      × (t.repo ≡ s.repo)
      × Recorded payload t.rt.evidence
      × Holding id "merged" "integration" (obj (payload_fields payload)) t.rt
  Settled id (err raised) s integrated t =
      (integrated ≡ none)
      × ((message : Message) × ((raised ≡ git message) ⊎ (raised ≡ validation message)))
      × (t.repo ≡ s.repo)
      × (t.rt.evidence ≡ s.rt.evidence)
      × Holding id "failed" "reason" (str (message_of raised)) t.rt

  -- One move of the task, with a payload of one field.
  moved_lem :
      (id status key : String) (value : Value) (task : Fields) (s t : Sys W) (o : Option Fields)
      → get "id" task ≡ some (str id)
      → has "id" (field key value end) ≡ false
      → has "status" (field key value end) ≡ false
      → move_found W O files (some task) status (field key value end) s ≡ (ok o, t)
      → (t.repo ≡ s.repo) × (t.rt.evidence ≡ s.rt.evidence) × Holding id status key value t.rt
  unfolding move_found in_runtime update
  moved_lem id status key value task s t o named no_id no_status e =
      let payload = field key value end in
      let (given, u, first, rest) =
        run-eq-ok (in_runtime W (transition_task O.show task status payload)) (λ g. pure (some g)) s
          t o e in
      let (_, same) = pure-eq-ok (some given) o u t rest in
      let (r, rt) = transition_task O.show task status payload s.rt in
      let returned : r ≡ ok given = cc (first) in
      let here : record s { rt = rt } ≡ u = cc (first) in
      let (evidence, is_moved, written, loaded, stands) =
        transition_task-Left O.show task payload given status id s.rt rt named no_id
          (ap (λ q. (q, rt)) returned) in
      subst
        (λ v.
          (v.repo ≡ s.repo) × (v.rt.evidence ≡ s.rt.evidence) × Holding id status key value v.rt)
        (here ∙ same)
        (
          refl,
          evidence,
          (
            written,
            given,
            loaded,
            stands,
            ap (get "status") is_moved
                ∙ get-moved_status O.show s.rt.clock status payload task no_status,
            ap (get key) is_moved
                ∙ get-put_self key value
                    (put "updated_at" (num s.rt.clock) (put "status" (str status) task)),
          ),
        )

  workflow_lem :
      (node : String) (s t : Sys W) (u : Unit {0})
      → workflow W O files node s ≡ (ok u, t)
      → (t.repo ≡ s.repo) × (t.rt.evidence ≡ s.rt.evidence) × (load_tasks t.rt ≡ load_tasks s.rt)
  unfolding in_runtime advance_workflow save_workflow write_checkpoint append_event load_tasks
  workflow_lem node s t u e =
      let here : record s { rt = (advance_workflow node "default" end s.rt).1 } ≡ t = cc (e) in
      subst
        (λ v.
          (v.repo ≡ s.repo) × (v.rt.evidence ≡ s.rt.evidence) × (load_tasks v.rt ≡ load_tasks s.rt))
        here (refl, refl, refl)

  written_lem :
      (name : String) (value : Value) (s t : Sys W)
      → record s { rt = record s.rt { evidence = insert name value s.rt.evidence } } ≡ t
      → (t.repo ≡ s.repo) × (lookup name t.rt.evidence ≡ some value)
  written_lem name value s t here =
      subst (λ v. (v.repo ≡ s.repo) × (lookup name v.rt.evidence ≡ some value)) here
        (
          refl,
          lookup-insert name name value s.rt.evidence
              ∙ ap (λ b. if b then some value else lookup name s.rt.evidence) (eq_refl name),
        )

  evidence_lem :
      (payload : Payload) (s t : Sys W) (u : Unit {0})
      → in_runtime W (write_evidence payload) s ≡ (ok u, t)
      → (t.repo ≡ s.repo) × Recorded payload t.rt.evidence
  unfolding in_runtime write_evidence
  evidence_lem (planned plan) s t u e =
      let here : s ≡ t = cc (e) in (ap (λ v. v.repo) (sym here), tt)
  evidence_lem (merged_and_validated merged) s t u e =
      written_lem (evidence_name merged) (obj (payload_fields (merged_and_validated merged))) s t
        (cc (e))
  evidence_lem (fast_forwarded merged branch tip) s t u e =
      written_lem (evidence_name merged) (obj (payload_fields (fast_forwarded merged branch tip))) s
        t (cc (e))

  failed_lem :
      (id : String) (task : Fields) (raised : Error) (s t : Sys W) (integrated : Option Fields)
      → get "id" task ≡ some (str id)
      → ((message : Message) × ((raised ≡ git message) ⊎ (raised ≡ validation message)))
      → (do
        move_found W O files (some task) "failed" (field "reason" (str (message_of raised)) end)
        pure none)
          s
        ≡ (ok integrated, t)
      → Settled id (err raised) s integrated t
  unfolding has
  failed_lem id task raised s t integrated named kind e =
      let (o, v, first, rest) =
        run-eq-ok
          (move_found W O files (some task) "failed" (field "reason" (str (message_of raised)) end))
          _ s t integrated e in
      let (given, same) = pure-eq-ok none integrated v t rest in
      let (repo, evidence, holding) =
        moved_lem id "failed" "reason" (str (message_of raised)) task s v o named refl refl first in
      (
        sym given,
        kind,
        ap (λ w. w.repo) (sym same) ∙ repo,
        ap (λ w. w.rt.evidence) (sym same) ∙ evidence,
        subst (λ w. Holding id "failed" "reason" (str (message_of raised)) w.rt) same holding,
      )

  -- What follows the evidence.
  abbrev finish : Fields → Payload → Exec (Sys W) (Option Fields)
  finish task payload = do
    move_found W O files (some task) "merged"
        (field "integration" (obj (payload_fields payload)) end)
    workflow W O files "INTEGRATION_VALIDATION"
    pure (some (payload_fields payload))

  merged_lem :
      (id : String) (task : Fields) (payload : Payload) (s t : Sys W) (integrated : Option Fields)
      → get "id" task ≡ some (str id)
      → (in_runtime W (write_evidence payload) >>= λ _. finish task payload) s ≡ (ok integrated, t)
      → Settled id (ok payload) s integrated t
  unfolding has
  merged_lem id task payload s t integrated named e =
      let (x, u, written, e1) =
        run-eq-ok (in_runtime W (write_evidence payload)) (λ _. finish task payload) s t integrated
          e in
      let (o, v, merged, e2) =
        run-eq-ok
          (move_found W O files (some task) "merged"
            (field "integration" (obj (payload_fields payload)) end))
          _ u t integrated e1 in
      let (y, w, noted, e3) =
        run-eq-ok (workflow W O files "INTEGRATION_VALIDATION")
          (λ _. pure (some (payload_fields payload))) v t integrated e2 in
      let (given, same) = pure-eq-ok (some (payload_fields payload)) integrated w t e3 in
      let (repo1, recorded) = evidence_lem payload s u x written in
      let (repo2, evidence2, holding) =
        moved_lem id "merged" "integration" (obj (payload_fields payload)) task u v o named refl
          refl merged in
      let (repo3, evidence3, ledger3) = workflow_lem "INTEGRATION_VALIDATION" v w y noted in
      let (ts, task', loaded, stands, status, value) = holding in
      subst (λ z. Settled id (ok payload) s integrated z) same
        (
          sym given,
          repo3 ∙ repo2 ∙ repo1,
          subst (Recorded payload) (sym (evidence3 ∙ evidence2)) recorded,
          (ts, task', ledger3 ∙ loaded, stands, status, value),
        )

  settle_merge-Settled :
      (id : String) (task : Fields) (result : Result Payload) (s t : Sys W)
      (integrated : Option Fields)
      → get "id" task ≡ some (str id)
      → settle_merge W O files (some task) result s ≡ (ok integrated, t)
      → Settled id result s integrated t
  unfolding settle_merge
  settle_merge-Settled id task (ok payload) s t integrated named e =
      merged_lem id task payload s t integrated named e
  settle_merge-Settled id task (err (git message)) s t integrated named e =
      failed_lem id task (git message) s t integrated named (message, inl refl) e
  settle_merge-Settled id task (err (validation message)) s t integrated named e =
      failed_lem id task (validation message) s t integrated named (message, inr refl) e
  settle_merge-Settled id task (err (general m)) s t integrated named e = absurd (cc)
  settle_merge-Settled id task (err (configuration m)) s t integrated named e = absurd (cc)
  settle_merge-Settled id task (err (provider m)) s t integrated named e = absurd (cc)
  settle_merge-Settled id task (err (value_error m)) s t integrated named e = absurd (cc)
  settle_merge-Settled id task (err (runtime_error m)) s t integrated named e = absurd (cc)
  settle_merge-Settled id task (err (key_error m)) s t integrated named e = absurd (cc)
  settle_merge-Settled id task (err (os_error m)) s t integrated named e = absurd (cc)
  settle_merge-Settled id task (err (type_error m)) s t integrated named e = absurd (cc)
  settle_merge-Settled id task (err recursion) s t integrated named e = absurd (cc)

  -- The state that `integrate_one` leaves.
  abbrev pub integrated_state : Candidate → Sys W → Result Payload × Sys W
  integrated_state candidate s =
      in_repository W (integrate_one W files.project candidate files.validation true) s

  -- Whenever the integration of a candidate with a task returns, the repository is as
  -- `integrate_one` left it. Either that returned a payload, which is what is returned; then the
  -- evidence directory holds it, and the ledger holds the task as "merged" with the payload. Or it
  -- raised an error of git or of validation, and nothing is returned; then the evidence is as it
  -- was, and the ledger holds the task as "failed" with the message of the error.
  pub merge_and_settle-Settled :
      (candidate : Candidate) (id : String) (task : Fields) (s t : Sys W)
      (integrated : Option Fields)
      → get "id" task ≡ some (str id)
      → merge_and_settle W O files candidate (some task) s ≡ (ok integrated, t)
      → Settled id (integrated_state candidate s).0 (integrated_state candidate s).1 integrated t
  unfolding merge_and_settle
  merge_and_settle-Settled candidate id task s t integrated named e =
      settle_merge-Settled id task (integrated_state candidate s).0 (integrated_state candidate s).1
        t integrated named e
