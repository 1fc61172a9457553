-- ===== src/TaskManager/Invariant.antt =====
-- At every moment either the node is IDLE and all its tasks are completed, or exactly one task is
-- active and the index points at it.
use warehouse_digital_twin.Base.{
  ℕ, zero, suc, ◌+◌, ◌≡◌, refl, sym, ◌∙◌, ◌≢◌, ◌⊎◌, inl, inr, String, true, not, ◌&&◌, none, some,
  List, [], ◌∷◌, ◌++◌, arith, Bool-cases, Option-cases, get_elem?, All, All-map, All-append,
  All-get_elem?, str_dec, subst,
}
use native.Mathlib.Nat.{zero-add}
use warehouse_digital_twin.TaskManager.{
  TaskStatus, waiting, active, completed, idle, Task, Manager, is_waiting, goes_before,
  best_waiting, set_status, pop, find, emit, publish_goal, publish_status, publish_queue_info,
  transition, activate, activate_next, is_free, enqueue_task, shift, cancel_waiting, cancel_active,
  cancel_found, cancel_task, cancel_target, cancel_task_callback,
}

module _ {F : Type 0} where
  abbrev pub NotActive : Task F → Type 0
  NotActive t = t.status ≢ active

  -- The task at the index is active, and no other is.
  abbrev pub OneActive : ℕ → List (Task F) → Type 0
  OneActive i [] = ⊥
  OneActive zero (t ∷ ts) = (t.status ≡ active) × All NotActive ts
  OneActive (suc i) (t ∷ ts) = NotActive t × OneActive i ts

  abbrev pub IsIdle : Manager F → Type 0
  IsIdle m = (m.state ≡ idle) × (m.active_idx ≡ none) × All (λ t. t.status ≡ completed) m.tasks

  abbrev pub IsWorking : Manager F → Type 0
  IsWorking m = (m.state ≢ idle) × ((i : ℕ) × (m.active_idx ≡ some i) × OneActive i m.tasks)

  abbrev pub Inv : Manager F → Type 0
  Inv m = IsIdle m ⊎ IsWorking m

  best_waiting-none :
      (i : ℕ) (ts : List (Task F))
      → best_waiting i ts ≡ none
      → All NotActive ts
      → All (λ t. t.status ≡ completed) ts
  unfolding best_waiting
  best_waiting-none i [] h a = tt
  best_waiting-none i (t ∷ ts) h a = elim (Option-cases (best_waiting (suc i) ts)) [
    | inl rest ↦ (ground arith, best_waiting-none (suc i) ts rest a.1)
    | inr (b, rest) ↦ absurd (ground arith)
  ]

  best_waiting-OneActive :
      (i : ℕ) (ts : List (Task F)) (k : ℕ) (t : Task F)
      → best_waiting i ts ≡ some (k, t)
      → All NotActive ts
      → (j : ℕ) × (k ≡ i + j) × OneActive j (set_status active j ts)
  unfolding best_waiting set_status
  best_waiting-OneActive i [] k t h a = absurd (cc h)
  best_waiting-OneActive i (u ∷ ts) k t h a = elim (Option-cases (best_waiting (suc i) ts)) [
    | inl rest ↦ (0, ground arith, (refl, a.1))
    | inr ((n, b), rest) ↦ elim (Bool-cases (is_waiting u.status && not (goes_before b u))) [
      | inl head ↦ (0, ground arith, (refl, a.1))
      | inr later ↦
          let (j, e, one) = best_waiting-OneActive (suc i) ts n b rest a.1 in
          (suc j, ground arith, (a.0, one))
    ]
  ]

  -- With no task active, `_activate_next` starts one, or leaves the node idle with all work done.
  pub activate_next-Inv :
      (now : F) (m : Manager F)
      → m.active_idx ≡ none
      → All NotActive m.tasks
      → Inv (activate_next now m)
  unfolding activate_next activate transition publish_goal emit
  activate_next-Inv now m free a = elim (Option-cases (best_waiting 0 m.tasks)) [
    | inl done ↦ rw (done, activate_next) (inl (refl, free, best_waiting-none 0 m.tasks done a))
    | inr ((k, t), best) ↦
        let (j, e, one) = best_waiting-OneActive 0 m.tasks k t best a in
        rw (best, activate_next)
          (inr (
            λ q. cc q,
            (
              k,
              refl,
              subst (λ n. OneActive n (set_status active n m.tasks)) (sym (e ∙ zero-add j)) one,
            ),
          ))
  ]

  OneActive-append :
      (i : ℕ) (ts us : List (Task F)) → OneActive i ts → All NotActive us → OneActive i (ts ++ us)
  OneActive-append i [] us h k = absurd h
  OneActive-append zero (t ∷ ts) us h k = (h.0, All-append NotActive ts us h.1 k)
  OneActive-append (suc i) (t ∷ ts) us h k = (h.0, OneActive-append i ts us h.1 k)

  completed-NotActive : (ts : List (Task F)) → All (λ t. t.status ≡ completed) ts → All NotActive ts
  completed-NotActive ts h =
      All-map ts (λ t (e : t.status ≡ completed) (f : t.status ≡ active). cc (e, f)) h

  free-NotActive :
      (m : Manager F)
      → is_free m.state m.active_idx ≡ true
      → Inv m
      → (m.active_idx ≡ none) × All NotActive m.tasks
  free-NotActive m free (inl (st, held, done)) = (held, completed-NotActive m.tasks done)
  free-NotActive m free (inr (st, (i, held, one))) = absurd (ground arith)

  pub enqueue_task-Inv :
      (now : F) (t : Task F) (m : Manager F)
      → t.status ≡ waiting
      → Inv m
      → Inv (enqueue_task now t m)
  unfolding enqueue_task
  enqueue_task-Inv now t m w v = elim (Bool-cases (is_free m.state m.active_idx)) [
    | inl free ↦
        let (held, none_active) = free-NotActive m free v in
        rw (free, enqueue_task)
          (activate_next-Inv now
            (record m { insertion_counter = m.insertion_counter + 1; tasks = m.tasks ++ t ∷ [] })
            held (All-append NotActive m.tasks (t ∷ []) none_active ((λ e. cc (w, e)), tt)))
    | inr taken ↦
        rw (taken, enqueue_task)
          (elim v [
            | inl (st, held, _) ↦ absurd (ground arith)
            | inr (st, (i, held, one)) ↦
                inr (st, (i, held, OneActive-append i m.tasks (t ∷ []) one ((λ e. cc (w, e)), tt)))
          ])
  ]

  pop-All : (P : Task F → Type 0) (k : ℕ) (ts : List (Task F)) → All P ts → All P (pop k ts)
  unfolding pop
  pop-All P k [] h = tt
  pop-All P zero (t ∷ ts) h = h.1
  pop-All P (suc k) (t ∷ ts) h = (h.0, pop-All P k ts h.1)

  -- Popping a task that is not active keeps the active one, at its new index.
  pop-OneActive :
      (k i : ℕ) (ts : List (Task F)) (t : Task F)
      → OneActive i ts
      → get_elem? ts k ≡ some t
      → t.status ≡ waiting
      → (j : ℕ) × (shift k (some i) ≡ some j) × OneActive j (pop k ts)
  unfolding pop
  pop-OneActive k i [] t h g w = absurd h
  pop-OneActive zero zero (u ∷ ts) t h g w = absurd (ground arith)
  pop-OneActive zero (suc i) (u ∷ ts) t h g w = (i, ground arith, h.1)
  pop-OneActive (suc k) zero (u ∷ ts) t h g w = (0, ground arith, (h.0, pop-All NotActive k ts h.1))
  pop-OneActive (suc k) (suc i) (u ∷ ts) t h g w =
      let (j, e, one) = pop-OneActive k i ts t h.1 g w in (suc j, ground arith, (h.0, one))

  -- Popping the active task leaves none.
  pop-NotActive :
      (k i : ℕ) (ts : List (Task F)) (t : Task F)
      → OneActive i ts
      → get_elem? ts k ≡ some t
      → t.status ≡ active
      → All NotActive (pop k ts)
  unfolding pop
  pop-NotActive k i [] t h g w = tt
  pop-NotActive zero zero (u ∷ ts) t h g w = h.1
  pop-NotActive zero (suc i) (u ∷ ts) t h g w = absurd (ground arith)
  pop-NotActive (suc k) zero (u ∷ ts) t h g w = absurd (All-get_elem? NotActive ts k t h.1 g w)
  pop-NotActive (suc k) (suc i) (u ∷ ts) t h g w = (h.0, pop-NotActive k i ts t h.1 g w)

  -- Completing the active task leaves none active.
  pub set_status-NotActive :
      (i : ℕ) (ts : List (Task F)) → OneActive i ts → All NotActive (set_status completed i ts)
  unfolding set_status
  set_status-NotActive i [] h = tt
  set_status-NotActive zero (t ∷ ts) h = ((λ e. cc e), h.1)
  set_status-NotActive (suc i) (t ∷ ts) h = (h.0, set_status-NotActive i ts h.1)

  find-get_elem? :
      (i : String) (n : ℕ) (ts : List (Task F)) (k : ℕ) (t : Task F)
      → find i n ts ≡ some (k, t)
      → (j : ℕ) × (k ≡ n + j) × (get_elem? ts j ≡ some t)
  unfolding find
  find-get_elem? i n [] k t h = absurd (cc h)
  find-get_elem? i n (u ∷ ts) k t h = elim (str_dec u.id i) [
    | yes e ↦ (0, ground arith, ground arith)
    | no m ↦
        let (j, e, g) = find-get_elem? i (suc n) ts k t (ground arith) in (suc j, omega arith, g)
  ]

  cancel_waiting-Inv :
      (k : ℕ) (t : Task F) (m : Manager F)
      → get_elem? m.tasks k ≡ some t
      → t.status ≡ waiting
      → Inv m
      → Inv (cancel_waiting k m)
  unfolding cancel_waiting publish_status publish_queue_info emit
  cancel_waiting-Inv k t m g w (inl (st, held, done)) =
      absurd (cc (w, All-get_elem? (λ u. u.status ≡ completed) m.tasks k t done g))
  cancel_waiting-Inv k t m g w (inr (st, (i, held, one))) =
      let (j, e, one') = pop-OneActive k i m.tasks t one g w in inr (st, (j, rw held e, one'))

  cancel_active-Inv :
      (now : F) (k : ℕ) (t : Task F) (m : Manager F)
      → get_elem? m.tasks k ≡ some t
      → t.status ≡ active
      → Inv m
      → Inv (cancel_active now k m)
  unfolding cancel_active publish_status publish_queue_info emit
  cancel_active-Inv now k t m g w (inl (st, held, done)) =
      absurd (cc (w, All-get_elem? (λ u. u.status ≡ completed) m.tasks k t done g))
  cancel_active-Inv now k t m g w (inr (st, (i, held, one))) =
      activate_next-Inv now (record m { tasks = pop k m.tasks; active_idx = none; state = idle })
        refl (pop-NotActive k i m.tasks t one g w)

  cancel_found-Inv :
      (now : F) (k : ℕ) (t : Task F) (st : TaskStatus) (m : Manager F)
      → get_elem? m.tasks k ≡ some t
      → t.status ≡ st
      → Inv m
      → Inv (cancel_found now k st m)
  unfolding cancel_found
  cancel_found-Inv now k t waiting m g e v = cancel_waiting-Inv k t m g e v
  cancel_found-Inv now k t active m g e v = cancel_active-Inv now k t m g e v
  cancel_found-Inv now k t completed m g e v = v

  cancel_task-Inv : (now : F) (i : String) (m : Manager F) → Inv m → Inv (cancel_task now i m)
  unfolding cancel_task
  cancel_task-Inv now i m v = elim (Option-cases (find i 0 m.tasks)) [
    | inl missing ↦ rw (missing, cancel_task) v
    | inr ((k, t), found) ↦
        let (j, e, g) = find-get_elem? i 0 m.tasks k t found in
        rw (found, cancel_task)
          (cancel_found-Inv now k t t.status m
            (subst (λ n. get_elem? m.tasks n ≡ some t) (sym (e ∙ zero-add j)) g) refl v)
  ]

  pub cancel_task_callback-Inv :
      (now : F) (msg : String) (m : Manager F) → Inv m → Inv (cancel_task_callback now msg m)
  unfolding cancel_task_callback
  cancel_task_callback-Inv now msg m v = elim (Option-cases (cancel_target m.robot_id msg)) [
    | inl refused ↦ rw (refused, cancel_task_callback) v
    | inr (i, named) ↦ rw (named, cancel_task_callback) (cancel_task-Inv now i m v)
  ]
