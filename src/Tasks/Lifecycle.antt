-- ===== src/Tasks/Lifecycle.antt =====
-- The ledger over time: sequences of `ensure_task` and of transitions of stored tasks.
use railwarden.Base.{
  String, eq_iff, eq_refl, text_cases, true, false, some, List, [], ◌∷◌, ◌++◌, ok, ◌≡◌, refl, ap,
  subst, ◌∙◌, contains, arith, inl, inr, Bool-cases, Option-cases,
}
use railwarden.Value.{Fields, end, str, get, Show}
use railwarden.Value.Laws.{has}
use railwarden.Runtime.{Runtime}
use railwarden.Tasks.{
  task_states, terminal_task_states, task_id_for_package, load_tasks, find_task, new_task,
  ensure_task, moved, transition_task, replace_task,
}
use railwarden.Tasks.Ledger.{
  task_with, IsLedger, status_of, allowed, transition_task-refused, transition_task_written,
  task_with-replace_task, replace_task-IsLedger, get-moved_id, ensure_task_found,
  ensure_task_created, load_tasks-after_transition, load_tasks-after_creation, task_with_extended,
  created-IsLedger, task_with_id, status_of-moved,
}

module _ (show : Show) where
  allowed-terminal :
      (old target : String)
      → contains terminal_task_states old ≡ true
      → allowed show old target ≡ true
      → target ≡ old
  allowed-terminal old target terminal fine = ground (arith, eq_iff target old)

  -- The state holds a ledger, and in it a task with this id and this status.
  pub record Holds (id status : String) (rt : Runtime) : Type 0 where
    pub tasks : List Fields
    pub loaded : load_tasks rt ≡ ok tasks
    pub ledger : IsLedger tasks
    pub task : Fields
    pub stored : task_with id tasks ≡ some task
    pub standing : status_of show task ≡ status

  -- A step of a client that transitions a task as it is stored, with a payload that has neither
  -- an id nor a status, or that ensures a task.
  pub data Step (rt : Runtime) : Runtime → Type 0 where
    transition :
        (id status : String) (task payload : Fields) (tasks : List Fields)
        → load_tasks rt ≡ ok tasks
        → task_with id tasks ≡ some task
        → has "id" payload ≡ false
        → has "status" payload ≡ false
        → Step rt (transition_task show task status payload rt).1
    ensure :
        (package_id name : String) (dependencies : List String)
        → Step rt (ensure_task package_id name dependencies rt).1

  pub data Reach (rt : Runtime) : Runtime → Type 0 where
    here : Reach rt rt
    next : {s t : Runtime} → Reach rt s → Step s t → Reach rt t

  module _ (id status : String) (terminal : contains terminal_task_states status ≡ true) where
    transition-Holds :
        (i target : String) (task payload : Fields) (tasks : List Fields) (rt : Runtime)
        → load_tasks rt ≡ ok tasks
        → task_with i tasks ≡ some task
        → has "id" payload ≡ false
        → has "status" payload ≡ false
        → Holds id status rt
        → Holds id status (transition_task show task target payload rt).1
    transition-Holds i target task payload tasks rt loaded stored hi hs h =
        elim (Bool-cases (allowed show (status_of show task) target)) [
          | inl fine ↦
              let id_of = task_with_id i task tasks stored in
              let m = moved show rt.clock target payload task in
              let same : h.tasks ≡ tasks = cc (loaded, h.loaded) in
              let ledger = subst IsLedger same h.ledger in
              let kept = subst (λ ts. task_with id ts ≡ some h.task) same h.stored in
              let m_id = get-moved_id show rt.clock target payload task hi ∙ id_of in
              rw (transition_task_written show task payload target i tasks rt loaded id_of hi fine)
                elim (text_cases i id) [
                  | inl one ↦
                      let found : task ≡ h.task =
                        cc (stored, kept, ap (λ x. task_with x tasks) one) in
                      let old = ap (status_of show) found ∙ h.standing in
                      let still =
                        allowed-terminal (status_of show task) target
                          (ap (contains terminal_task_states) old ∙ terminal) fine in
                      record {
                        tasks = replace_task i m tasks;
                        loaded = load_tasks-after_transition show task payload target i tasks rt;
                        ledger = replace_task-IsLedger i m tasks m_id ledger;
                        task = m;
                        stored =
                            task_with-replace_task i id m tasks m_id ledger
                            ∙ rw ((eq_iff i id).1 one);
                        standing =
                            status_of-moved show rt.clock target payload task hs ∙ still ∙ old;
                      }
                  | inr other ↦ record {
                    tasks = replace_task i m tasks;
                    loaded = load_tasks-after_transition show task payload target i tasks rt;
                    ledger = replace_task-IsLedger i m tasks m_id ledger;
                    task = h.task;
                    stored = task_with-replace_task i id m tasks m_id ledger ∙ rw other kept;
                    standing = h.standing;
                  }
                ]
          | inr refused ↦
              let (_, e) = transition_task-refused show task payload target rt refused in rw e h
        ]

    ensure-Holds :
        (package_id name : String) (dependencies : List String) (rt : Runtime)
        → Holds id status rt
        → Holds id status (ensure_task package_id name dependencies rt).1
    ensure-Holds package_id name dependencies rt h =
        elim (Option-cases (find_task (task_id_for_package package_id) package_id h.tasks)) [
          | inl absent ↦
              rw (ensure_task_created package_id name dependencies h.tasks rt h.loaded absent)
                (record {
                  tasks = h.tasks ++ (new_task rt.clock package_id name dependencies ∷ []);
                  loaded = load_tasks-after_creation package_id name dependencies h.tasks rt;
                  ledger =
                      created-IsLedger rt.clock package_id name dependencies h.tasks absent
                        h.ledger;
                  task = h.task;
                  stored = task_with_extended id h.task h.tasks _ h.stored;
                  standing = h.standing;
                })
          | inr (t, found) ↦
              rw (ensure_task_found package_id name dependencies h.tasks t rt h.loaded found) h
        ]

    -- A task that stands merged or rejected in a ledger keeps that status through every sequence
    -- of `ensure_task` and of transitions of stored tasks (refused transitions included) whose
    -- payloads have no key `id` and no key `status`; the ids in the ledger stay unique.
    pub terminal-Reach :
        {rt rt' : Runtime} → Holds id status rt → Reach rt rt' → Holds id status rt'
    terminal-Reach h here = h
    terminal-Reach h (next r (transition i target task payload tasks loaded stored hi hs)) =
        transition-Holds i target task payload tasks _ loaded stored hi hs (terminal-Reach h r)
    terminal-Reach h (next r (ensure package_id name dependencies)) =
        ensure-Holds package_id name dependencies _ (terminal-Reach h r)

  -- The check for a terminal status reads the dict that the caller hands over. If that is a copy
  -- of a stored task whose own status is not terminal, then a transition of the copy to any known
  -- status is written, whatever status the ledger holds for the task.
  pub stale_copy-overwrites :
      (id status target : String) (copy : Fields) (rt : Runtime)
      → Holds id status rt
      → get "id" copy ≡ some (str id)
      → contains terminal_task_states (status_of show copy) ≡ false
      → contains task_states target ≡ true
      → Holds id target (transition_task show copy target end rt).1
  unfolding has
  stale_copy-overwrites id status target copy rt h id_of live known =
      let fine : allowed show (status_of show copy) target ≡ true = rw (known, live) in
      let m = moved show rt.clock target end copy in
      let m_id = get-moved_id show rt.clock target end copy refl ∙ id_of in
      rw (transition_task_written show copy end target id h.tasks rt h.loaded id_of refl fine)
        (record {
          tasks = replace_task id m h.tasks;
          loaded = load_tasks-after_transition show copy end target id h.tasks rt;
          ledger = replace_task-IsLedger id m h.tasks m_id h.ledger;
          task = m;
          stored = task_with-replace_task id id m h.tasks m_id h.ledger ∙ rw eq_refl;
          standing = status_of-moved show rt.clock target end copy refl;
        })
