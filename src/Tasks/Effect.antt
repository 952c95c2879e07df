-- ===== src/Tasks/Effect.antt =====
-- What a transition that returns has done.
use railwarden.Base.{
  eq_refl, contains, not, ◌&&◌, ℕ, String, ◌==◌, true, false, Bool-cases, Option, some, List, [],
  ◌∷◌, ◌++◌, Result, ok, err, Error, ◌≡◌, refl, sym, ap, ◌∙◌, if◌then◌else◌, inl, inr, arith, map,
}
use mathlib.Core.Path.{subst₂}
use railwarden.Value.{Value, num, str, Fields, field, end, get, put, update, Show, to_str}
use railwarden.Value.Laws.{has, get-update_ne, get-put}
use railwarden.Runtime.{Runtime, Event}
use railwarden.Tasks.{
  task_states, terminal_task_states, load_tasks, save_tasks, is_text, replace_task, moved,
  transition_task,
}
use railwarden.Tasks.Ledger.{
  task_with, IsLedger, status_of, allowed, transition_task-refused, transition_task_written,
  after_transition, task_with-replace_task, replace_task-IsLedger, get-moved_id,
  load_tasks-after_transition, is_text-eq,
}

-- The ids of the ledger in their order.
abbrev pub ids : List Fields → List (Option Value)
ids = map (get "id")

-- A task that the ledger holds is replaced where it stands.
ids-replace_task :
    (i : String) (t u : Fields) (ts : List Fields)
    → get "id" t ≡ some (str i)
    → task_with i ts ≡ some u
    → ids (replace_task i t ts) ≡ ids ts
unfolding replace_task task_with is_text
ids-replace_task i t u [] h there = cc
ids-replace_task i t u (v ∷ vs) h there = elim (Bool-cases (is_text (get "id" v) i)) [
  | inl found ↦
      let same = h ∙ sym (is_text-eq (get "id" v) i found) in rw found (ap (λ o. o ∷ ids vs) same)
  | inr other ↦
      rw other (ap (λ rest. get "id" v ∷ rest) (ids-replace_task i t u vs h (rw other at there)))
]

task_with-replaced :
    (i : String) (t : Fields) (ts : List Fields)
    → get "id" t ≡ some (str i)
    → task_with i (replace_task i t ts) ≡ some t
unfolding replace_task task_with is_text
task_with-replaced i t [] h = rw (h, eq_refl i) refl
task_with-replaced i t (u ∷ us) h = elim (Bool-cases (is_text (get "id" u) i)) [
  | inl found ↦ rw found (rw (h, eq_refl i) refl)
  | inr other ↦ rw other (rw other (task_with-replaced i t us h))
]

module _ (show : Show) where
  -- The fields that a transition writes: the status and the time, under those of the payload.
  abbrev moved_field : ℕ → String → Fields → String → Option Value
  moved_field now status task key =
      if "updated_at" == key
      then some (num now)
      else if "status" == key
      then some (str status)
      else get key task

  get-moved_field :
      (now : ℕ) (status key : String) (payload task : Fields)
      → has key payload ≡ false
      → get key (moved show now status payload task) ≡ moved_field now status task key
  get-moved_field now status key payload task h =
      get-update_ne key (put "updated_at" (num now) (put "status" (str status) task)) payload h
      ∙ get-put "updated_at" key (num now) (put "status" (str status) task)
      ∙ ap (λ o. if "updated_at" == key then some (num now) else o)
          (get-put "status" key (str status) task)

  -- From the ledger and the events before, the task, and what was asked for: the task that is
  -- returned, and what stands in the runtime directory afterwards.
  pub record Effect (tasks : List Fields) (rt : Runtime) (task : Fields) (id status : String)
      (payload : Fields) (given : Fields) (after : Runtime) : Type 0 where
    pub permitted : allowed show (status_of show task) status ≡ true
    pub written : List Fields
    pub reloaded : load_tasks after ≡ ok written
    pub ledger : IsLedger written
    pub by_id :
        (j : String) → task_with j written ≡ (if id == j then some given else task_with j tasks)
    pub in_order : ids written ≡ ids tasks
    pub fields :
        (key : String)
        → has key payload ≡ false
        → get key given ≡ moved_field rt.clock status task key
    pub logged :
        (event : Event) × (after.events ≡ rt.events ++ (event ∷ []))
        × (event.kind ≡ "task_transition")
        × (event.task_id ≡ some id)
        × (event.payload
            ≡ update
                (field "from" (str (status_of show task)) (field "to" (str status) end))
                payload)

  written-Effect :
      (task payload u : Fields) (status id : String) (tasks : List Fields) (rt : Runtime)
      → IsLedger tasks
      → get "id" task ≡ some (str id)
      → task_with id tasks ≡ some u
      → has "id" payload ≡ false
      → allowed show (status_of show task) status ≡ true
      → Effect tasks rt task id status payload
          (moved show rt.clock status payload task)
          (after_transition show task status payload id tasks rt)
  unfolding save_tasks
  written-Effect task payload u status id tasks rt ledger named stored hp fine =
      let m = moved show rt.clock status payload task in
      let m_id = get-moved_id show rt.clock status payload task hp ∙ named in
      record {
        permitted = fine;
        written = replace_task id m tasks;
        reloaded = load_tasks-after_transition show task payload status id tasks rt;
        ledger = replace_task-IsLedger id m tasks m_id ledger;
        by_id = λ j. task_with-replace_task id j m tasks m_id ledger;
        in_order = ids-replace_task id m u tasks m_id stored;
        fields = λ key h. get-moved_field rt.clock status key payload task h;
        logged = (_, refl, refl, refl, refl);
      }

  -- Whenever `transition_task` returns, for a task whose id is in a ledger with unique ids and a
  -- payload without the key `id`: the status is known, and a terminal task keeps its own; under
  -- the id the ledger holds the task that is returned, under every other id what it held, in the
  -- same order; the fields that the payload does not name are those of the task that was given,
  -- but for the status and the time; and one event names the old and the new status.
  pub transition_task-Effect :
      (task payload u given : Fields) (status id : String) (tasks : List Fields)
      (rt after : Runtime)
      → load_tasks rt ≡ ok tasks
      → IsLedger tasks
      → get "id" task ≡ some (str id)
      → task_with id tasks ≡ some u
      → has "id" payload ≡ false
      → transition_task show task status payload rt ≡ (ok given, after)
      → Effect tasks rt task id status payload given after
  transition_task-Effect task payload u given status id tasks rt after loaded ledger named stored hp
        returned =
      elim (Bool-cases (allowed show (status_of show task) status)) [
        | inl fine ↦
            let e =
              transition_task_written show task payload status id tasks rt loaded named hp fine in
            let one : moved show rt.clock status payload task ≡ given = cc (e, returned) in
            let two : after_transition show task status payload id tasks rt ≡ after =
              cc (e, returned) in
            subst₂ (λ g r. Effect tasks rt task id status payload g r) one two
              (written-Effect task payload u status id tasks rt ledger named stored hp fine)
        | inr refused ↦
            let (_, e) = transition_task-refused show task payload status rt refused in
            absurd (cc (e, returned))
      ]

  -- A ledger that cannot be read stops a transition.
  unread :
      (task payload : Fields) (status : String) (rt : Runtime) (raised : Error)
      → load_tasks rt ≡ err raised
      → allowed show (status_of show task) status ≡ true
      → transition_task show task status payload rt ≡ (err raised, rt)
  unfolding transition_task to_str
  unread task payload status rt raised h fine =
      let known : contains task_states status ≡ true = ground arith in
      let over : (contains terminal_task_states (status_of show task)
            && not (status == status_of show task))
          ≡ false =
        ground arith in
      rw (known, over, h) refl

  -- What a transition that returns leaves in any ledger: the evidence stays, and the task that it
  -- returns stands under its id.
  abbrev pub Left : String → String → Fields → Fields → Runtime → Fields → Runtime → Type 0
  Left id status task payload rt given after =
      (after.evidence ≡ rt.evidence)
      × (given ≡ moved show rt.clock status payload task)
      × (written : List Fields) × (load_tasks after ≡ ok written)
      × (task_with id written ≡ some given)

  pub transition_task-Left :
      (task payload given : Fields) (status id : String) (rt after : Runtime)
      → get "id" task ≡ some (str id)
      → has "id" payload ≡ false
      → transition_task show task status payload rt ≡ (ok given, after)
      → Left id status task payload rt given after
  unfolding save_tasks
  transition_task-Left task payload given status id rt after named hp returned =
      elim (Bool-cases (allowed show (status_of show task) status)) [
        | inl fine ↦ from_ledger fine (load_tasks rt) refl
        | inr refused ↦
            let (_, e) = transition_task-refused show task payload status rt refused in
            absurd (cc (e, returned))
      ]
    where
      from_ledger :
          allowed show (status_of show task) status ≡ true
          → (r : Result (List Fields)) → load_tasks rt ≡ r
          → Left id status task payload rt given after
      from_ledger fine (err raised) h =
          let e = unread task payload status rt raised h fine in absurd (cc (e, returned))
      from_ledger fine (ok tasks) h =
          let m = moved show rt.clock status payload task in
          let m_id = get-moved_id show rt.clock status payload task hp ∙ named in
          let e = transition_task_written show task payload status id tasks rt h named hp fine in
          let one : m ≡ given = cc (e, returned) in
          let two : after_transition show task status payload id tasks rt ≡ after =
            cc (e, returned) in
          subst₂ (λ g r. Left id status task payload rt g r) one two
            (
              refl,
              refl,
              replace_task id m tasks,
              load_tasks-after_transition show task payload status id tasks rt,
              task_with-replaced id m tasks m_id,
            )
