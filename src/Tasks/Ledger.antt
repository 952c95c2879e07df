-- ===== src/Tasks/Ledger.antt =====
-- What the operations of the ledger write, and that its ids stay unique.
use railwarden.Base.{
  ℕ, String, ◌==◌, eq_iff, eq_refl, Bool, true, false, not, ◌&&◌, Option, none, some, List, [], ◌∷◌,
  ◌++◌, ok, err, value_error, ◌≡◌, refl, sym, ap, subst, ◌∙◌, contains, if◌then◌else◌, arith, inl,
  inr, Bool-cases, Option-cases,
}
use mathlib.Core.Path.{subst₂}
use railwarden.Value.{Value, num, str, Fields, end, field, get, get_or, put, update, Show, to_str}
use railwarden.Value.Laws.{
  get-put_ne, get-put_self, get-update_ne, has, text_of_str, dicts-items_of,
}
use railwarden.Runtime.{Runtime, event_of}
use railwarden.Tasks.{
  task_states, terminal_task_states, task_id_for_package, load_tasks, save_tasks, is_text,
  replace_task, find_task, new_task, ensure_in, ensure_task, moved, transition_task,
}

-- Reading the ledger gives the tasks that were saved.
pub load_tasks-save_tasks :
    (tasks : List Fields) (rt : Runtime) → load_tasks (save_tasks tasks rt) ≡ ok tasks
unfolding load_tasks save_tasks get
load_tasks-save_tasks tasks rt = ap ok (dicts-items_of tasks)

-- The task with this id.
unfoldable pub task_with : String → List Fields → Option Fields
task_with id [] = none
task_with id (t ∷ ts) = if is_text (get "id" t) id then some t else task_with id ts

-- Every task has a text for its id, and no two have the same.
abbrev pub IsLedger : List Fields → Type 0
IsLedger [] = Unit
IsLedger (t ∷ ts) =
    ((id : String) × (get "id" t ≡ some (str id)) × (task_with id ts ≡ none)) × IsLedger ts

is_text_str :
    (t : Fields) (i j : String) → get "id" t ≡ some (str i) → is_text (get "id" t) j ≡ (i == j)
unfolding is_text
is_text_str t i j h = rw h

pub task_with-replace_task :
    (i j : String) (t : Fields) (ts : List Fields)
    → get "id" t ≡ some (str i)
    → IsLedger ts
    → task_with j (replace_task i t ts) ≡ (if i == j then some t else task_with j ts)
unfolding task_with replace_task
task_with-replace_task i j t [] h _ = rw (is_text_str t i j h)
task_with-replace_task i j t (u ∷ us) h ((k, hk, _), l) = ground (
  arith,
  is_text_str t i j h,
  is_text_str u k i hk,
  is_text_str u k j hk,
  eq_iff k i,
  eq_iff k j,
  eq_iff i j,
  task_with-replace_task i j t us h l,
)

pub task_with_snoc :
    (j i : String) (t : Fields) (ts : List Fields)
    → get "id" t ≡ some (str i)
    → task_with j (ts ++ (t ∷ []))
      ≡ elim (task_with j ts) [ none ↦ (if i == j then some t else none) | some u ↦ some u ]
unfolding task_with
task_with_snoc j i t [] h = rw (is_text_str t i j h)
task_with_snoc j i t (u ∷ us) h = ground (arith, task_with_snoc j i t us h)

pub replace_task-IsLedger :
    (i : String) (t : Fields) (ts : List Fields)
    → get "id" t ≡ some (str i)
    → IsLedger ts
    → IsLedger (replace_task i t ts)
unfolding replace_task task_with
replace_task-IsLedger i t [] h _ = ((i, h, refl), tt)
replace_task-IsLedger i t (u ∷ us) h ((k, hk, fresh), l) = elim (Bool-cases (k == i)) [
  | inl same ↦
      rw (is_text_str u k i hk, same)
        ((i, h, subst (λ j. task_with j us ≡ none) ((eq_iff k i).0 same) fresh), l)
  | inr differ ↦
      let other : (i == k) ≡ false = ground (arith, eq_iff k i, eq_iff i k) in
      rw (is_text_str u k i hk, differ)
        (
          (k, hk, task_with-replace_task i k t us h l ∙ rw other fresh),
          replace_task-IsLedger i t us h l,
        )
]

IsLedger-snoc :
    (i : String) (t : Fields) (ts : List Fields)
    → get "id" t ≡ some (str i)
    → task_with i ts ≡ none
    → IsLedger ts
    → IsLedger (ts ++ (t ∷ []))
unfolding task_with
IsLedger-snoc i t [] h _ _ = ((i, h, refl), tt)
IsLedger-snoc i t (u ∷ us) h absent ((k, hk, fresh), l) =
    let differ : (k == i) ≡ false = ground (arith, is_text_str u k i hk) in
    let other : (i == k) ≡ false = ground (arith, eq_iff k i, eq_iff i k) in
    (
      (k, hk, task_with_snoc k i t us h ∙ rw (fresh, other)),
      IsLedger-snoc i t us h (ground (arith, is_text_str u k i hk)) l,
    )

module _ (show : Show) where
  get-moved :
      (j : String) (now : ℕ) (status : String) (payload task : Fields)
      → has j payload ≡ false
      → ("status" == j) ≡ false
      → ("updated_at" == j) ≡ false
      → get j (moved show now status payload task) ≡ get j task
  get-moved j now status payload task h s u =
      get-update_ne j (put "updated_at" (num now) (put "status" (str status) task)) payload h
      ∙ get-put_ne "updated_at" j (num now) (put "status" (str status) task) u
      ∙ get-put_ne "status" j (str status) task s

  -- The status that a transition writes, unless the payload has a key `status`.
  pub get-moved_status :
      (now : ℕ) (status : String) (payload task : Fields)
      → has "status" payload ≡ false
      → get "status" (moved show now status payload task) ≡ some (str status)
  get-moved_status now status payload task h =
      get-update_ne "status" (put "updated_at" (num now) (put "status" (str status) task)) payload h
      ∙ get-put_ne "updated_at" "status" (num now) (put "status" (str status) task) refl
      ∙ get-put_self "status" (str status) task

  pub get-moved_id :
      (now : ℕ) (status : String) (payload task : Fields)
      → has "id" payload ≡ false
      → get "id" (moved show now status payload task) ≡ get "id" task
  get-moved_id now status payload task h = get-moved "id" now status payload task h refl refl

  -- The status that a transition leaves: `str(task.get("status", ""))`.
  abbrev pub status_of : Fields → String
  status_of task = to_str show (get_or "status" (str "") task)

  -- The guards of `transition_task`.
  abbrev pub allowed : String → String → Bool
  allowed old status =
      contains task_states status && not (contains terminal_task_states old && not (status == old))

  -- A transition to no known status, or of a terminal task to another status, is an error that
  -- leaves the ledger and the events as they were.
  pub transition_task-refused :
      (task payload : Fields) (status : String) (rt : Runtime)
      → allowed (status_of task) status ≡ false
      → (message : List String) × (transition_task show task status payload rt
          ≡ (err (value_error message), rt))
  unfolding transition_task
  transition_task-refused task payload status rt h =
      elim (Bool-cases (contains task_states status)) [
        | inl known ↦
            let over : (contains terminal_task_states (status_of task)
                  && not (status == status_of task))
                ≡ true =
              ground arith in
            (
              "Cannot transition terminal task from " ∷ status_of task ∷ " to " ∷ status ∷ [],
              rw (known, over),
            )
        | inr unknown ↦ ("Unknown task status: " ∷ status ∷ [], rw unknown)
      ]

  abbrev pub after_transition : Fields → String → Fields → String → List Fields → Runtime → Runtime
  after_transition task status payload id tasks rt =
      let task' = moved show rt.clock status payload task in
      let kept = save_tasks (replace_task id task' tasks) rt in
      record kept {
        events =
            kept.events
            ++ (event_of kept "task_transition"
                  (update (field "from" (str (status_of task)) (field "to" (str status) end))
                    payload)
                  (some id)
                ∷ []);
      }

  -- What an allowed transition returns and leaves.
  pub transition_task_written :
      (task payload : Fields) (status id : String) (tasks : List Fields) (rt : Runtime)
      → load_tasks rt ≡ ok tasks
      → get "id" task ≡ some (str id)
      → has "id" payload ≡ false
      → allowed (status_of task) status ≡ true
      → transition_task show task status payload rt ≡ (
        ok (moved show rt.clock status payload task),
        after_transition task status payload id tasks rt,
      )
  unfolding transition_task to_str
  transition_task_written task payload status id tasks rt hl hi hp ha =
      let known : contains task_states status ≡ true = ground arith in
      let over : (contains terminal_task_states (status_of task) && not (status == status_of task))
          ≡ false =
        ground arith in
      let kept = get-moved_id rt.clock status payload task hp ∙ hi in
      rw (known, over, kept, hl)
        (rw (text_of_str show "id" id (moved show rt.clock status payload task) kept))

-- `ensure_task` returns the task that it finds and changes nothing, or adds a planned one.
pub ensure_task_found :
    (package_id name : String) (dependencies : List String) (tasks : List Fields) (t : Fields)
    (rt : Runtime)
    → load_tasks rt ≡ ok tasks
    → find_task (task_id_for_package package_id) package_id tasks ≡ some t
    → ensure_task package_id name dependencies rt ≡ (ok t, rt)
unfolding ensure_task
ensure_task_found package_id name dependencies tasks t rt h found = rw (h, found, ensure_in)

abbrev pub after_creation : String → String → List String → List Fields → Runtime → Runtime
after_creation package_id name dependencies tasks rt =
    let task = new_task rt.clock package_id name dependencies in
    let kept = save_tasks (tasks ++ (task ∷ [])) rt in
    record kept {
      events =
          kept.events
          ++ (event_of kept "task_created" (field "status" (str "planned") end)
                (some (task_id_for_package package_id))
              ∷ []);
    }

pub ensure_task_created :
    (package_id name : String) (dependencies : List String) (tasks : List Fields) (rt : Runtime)
    → load_tasks rt ≡ ok tasks
    → find_task (task_id_for_package package_id) package_id tasks ≡ none
    → ensure_task package_id name dependencies rt ≡ (
      ok (new_task rt.clock package_id name dependencies),
      after_creation package_id name dependencies tasks rt,
    )
unfolding ensure_task
ensure_task_created package_id name dependencies tasks rt h absent = rw (h, absent, ensure_in)

find_task-snoc :
    (id package_id : String) (t : Fields) (ts : List Fields)
    → find_task id package_id ts ≡ none
    → get "id" t ≡ some (str id)
    → find_task id package_id (ts ++ (t ∷ [])) ≡ some t
unfolding find_task
find_task-snoc id package_id t [] _ h = rw (is_text_str t id id h, eq_refl id)
find_task-snoc id package_id t (u ∷ us) absent h = ground (arith, find_task-snoc id package_id t us)

pub get-new_task :
    (now : ℕ) (package_id name : String) (dependencies : List String)
    → get "id" (new_task now package_id name dependencies)
      ≡ some (str (task_id_for_package package_id))
unfolding get
get-new_task now package_id name dependencies = refl

pub load_tasks-after_creation :
    (package_id name : String) (dependencies : List String) (tasks : List Fields) (rt : Runtime)
    → load_tasks (after_creation package_id name dependencies tasks rt)
      ≡ ok (tasks ++ (new_task rt.clock package_id name dependencies ∷ []))
unfolding load_tasks save_tasks get
load_tasks-after_creation package_id name dependencies tasks rt = ap ok (dicts-items_of _)

-- Repeating `ensure_task` for a package, with whatever name and dependencies, gives the same task
-- again and writes nothing.
pub ensure_task-twice :
    (package_id name name' : String) (dependencies dependencies' : List String)
    (tasks : List Fields) (t : Fields) (rt rt' : Runtime)
    → load_tasks rt ≡ ok tasks
    → ensure_task package_id name dependencies rt ≡ (ok t, rt')
    → ensure_task package_id name' dependencies' rt' ≡ (ok t, rt')
ensure_task-twice package_id name name' dependencies dependencies' tasks t rt rt' h e =
    elim (Option-cases (find_task (task_id_for_package package_id) package_id tasks)) [
      | inl absent ↦
          let made = ensure_task_created package_id name dependencies tasks rt h absent in
          let one : t ≡ new_task rt.clock package_id name dependencies = cc (made, e) in
          let there : rt' ≡ after_creation package_id name dependencies tasks rt = cc (made, e) in
          subst₂ (λ u r. ensure_task package_id name' dependencies' r ≡ (ok u, r)) (sym one)
            (sym there) (again_after_creation absent)
      | inr (u, found) ↦
          let same = ensure_task_found package_id name dependencies tasks u rt h found in
          let one : t ≡ u = cc (same, e) in
          let there : rt' ≡ rt = cc (same, e) in
          subst₂ (λ u r. ensure_task package_id name' dependencies' r ≡ (ok u, r)) (sym one)
            (sym there) (ensure_task_found package_id name' dependencies' tasks u rt h found)
    ]
  where
    again_after_creation :
        find_task (task_id_for_package package_id) package_id tasks ≡ none
        → ensure_task package_id name' dependencies'
            (after_creation package_id name dependencies tasks rt)
          ≡ (
            ok (new_task rt.clock package_id name dependencies),
            after_creation package_id name dependencies tasks rt,
          )
    again_after_creation absent =
        let task = new_task rt.clock package_id name dependencies in
        ensure_task_found package_id name' dependencies' (tasks ++ (task ∷ [])) task _
          (load_tasks-after_creation package_id name dependencies tasks rt)
          (find_task-snoc (task_id_for_package package_id) package_id task tasks absent
            (get-new_task rt.clock package_id name dependencies))

pub find_task-eq-none :
    (i p : String) (ts : List Fields) → find_task i p ts ≡ none → task_with i ts ≡ none
unfolding find_task task_with
find_task-eq-none i p [] h = refl
find_task-eq-none i p (t ∷ ts) h = ground (arith, find_task-eq-none i p ts)

pub created-IsLedger :
    (now : ℕ) (package_id name : String) (dependencies : List String) (tasks : List Fields)
    → find_task (task_id_for_package package_id) package_id tasks ≡ none
    → IsLedger tasks
    → IsLedger (tasks ++ (new_task now package_id name dependencies ∷ []))
created-IsLedger now package_id name dependencies tasks absent l =
    IsLedger-snoc (task_id_for_package package_id) (new_task now package_id name dependencies) tasks
      (get-new_task now package_id name dependencies)
      (find_task-eq-none (task_id_for_package package_id) package_id tasks absent) l

pub task_with_extended :
    (i : String) (t : Fields) (ts us : List Fields)
    → task_with i ts ≡ some t
    → task_with i (ts ++ us) ≡ some t
unfolding task_with
task_with_extended i t [] us h = cc
task_with_extended i t (u ∷ ts) us h = ground (arith, task_with_extended i t ts us)

pub is_text-eq : (o : Option Value) (s : String) → is_text o s ≡ true → o ≡ some (str s)
unfolding is_text
is_text-eq (some (str s)) t h = ap (λ x. some (str x)) ((eq_iff s t).0 h)
is_text-eq _ t h = cc

pub task_with_id :
    (i : String) (t : Fields) (ts : List Fields)
    → task_with i ts ≡ some t
    → get "id" t ≡ some (str i)
unfolding task_with
task_with_id i t [] h = cc
task_with_id i t (u ∷ ts) h = ground (arith, is_text-eq (get "id" u) i, task_with_id i t ts)

module _ (show : Show) where
  pub load_tasks-after_transition :
      (task payload : Fields) (status id : String) (tasks : List Fields) (rt : Runtime)
      → load_tasks (after_transition show task status payload id tasks rt)
        ≡ ok (replace_task id (moved show rt.clock status payload task) tasks)
  unfolding load_tasks save_tasks get
  load_tasks-after_transition task payload status id tasks rt = ap ok (dicts-items_of _)

  pub status_of-moved :
      (now : ℕ) (status : String) (payload task : Fields)
      → has "status" payload ≡ false
      → status_of show (moved show now status payload task) ≡ status
  unfolding to_str
  status_of-moved now status payload task h =
      ap (λ o. to_str show (elim o [ none ↦ str "" | some v ↦ v ]))
        (get-moved_status show now status payload task h)
