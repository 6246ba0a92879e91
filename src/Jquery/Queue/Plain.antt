-- ===== src/Jquery/Queue/Plain.antt =====
-- What adding to and taking from the "fx" queue does, where the functions leave the queue alone.
use terminator.Base.{
  ℕ, true, false, List, [], ◌∷◌, ◌++◌, Option, none, some, Result, ok, map, ◌≡◌, refl, ap, ◌∙◌,
}
use terminator.Jquery.Queue.{
  Entry, inprogress, function, one, Queues, write, new_array, handle_queue_mark_defer, from_queue,
  replace, queue_data, past_sentinel, clear_if_empty, run_taken, dequeue_from, start_idle, dequeue,
  enqueue,
}
use terminator.Jquery.Queue.Held.{
  Holds, write_held, new_array_held, items_held, shift_cons, shift_nil, clear_if_empty_lem,
  clear_if_empty_nil, defer-queue, look_up-some, look_up-none, taken_cons, taken_last,
}

module _ {F D : Type 0} where
  -- The state of an "fx" queue: idle, or one function has been called and others wait.
  abbrev pub Represents : Option (List F) → Queues F D → Type 0
  Represents none s = s.queue ≡ none
  Represents (some waiting) s =
      (q : ℕ) × (s.queue ≡ some q) × Holds q (inprogress ∷ map function waiting) s

-- What users do with the queue: add a function, or call the `next` that a function was given.
pub data Action (F : Type 0) : Type 0 where
  add : F → Action F
  next : Action F

-- The queue as it is meant: the state after an action, and the function that is called.
unfoldable pub step : {F : Type 0} → Action F → Option (List F) → Option (List F) × Option F
step (add f) none = (some [], some f)
step (add f) (some waiting) = (some (waiting ++ (f ∷ [])), none)
step next none = (none, none)
step next (some []) = (none, none)
step next (some (f ∷ waiting)) = (some waiting, some f)

module _ {F D W : Type 0} (call : F → Queues F D → W → Result (Queues F D × W)) (note : F → W → W)
    (plain : (f : F) (s : Queues F D) (w : W) → call f s w ≡ ok (s, note f w)) where
  -- A function that was taken is called behind a sentinel.
  run_function :
      (f : F) (q : ℕ) (l : List (Entry F)) (s : Queues F D) (w : W)
      → Holds q l s
      → (s' : Queues F D) × (run_taken call true q (some (function f), s) w ≡ ok (s', note f w))
        × (s'.queue ≡ s.queue)
        × Holds q (inprogress ∷ l) s'
  unfolding run_taken clear_if_empty write
  run_function f q l s w held =
      let s₁ = record (write q (inprogress ∷ l) s) { run = true } in
      let held₁ = write_held q l (inprogress ∷ l) s held in
      (
        s₁,
        rw (items_held q l s held, plain f s₁ w, clear_if_empty_lem q inprogress l s₁ held₁) refl,
        refl,
        held₁,
      )

  run_nothing :
      (q : ℕ) (s : Queues F D) (w : W)
      → Holds q [] s
      → (s' : Queues F D) × (run_taken call true q (none, s) w ≡ ok (s', w)) × (s'.queue ≡ none)
  unfolding run_taken
  run_nothing q s w h =
      let s₁ = record s { queue = none; run = false } in
      (
        handle_queue_mark_defer from_queue s₁,
        ap (λ z. ok (z, w)) (clear_if_empty_nil q s h),
        defer-queue s₁,
      )

  -- `next`, by what waits.
  pub dequeue_waiting :
      (q : ℕ) (waiting : List F) (s : Queues F D) (w : W)
      → s.queue ≡ some q
      → Holds q (inprogress ∷ map function waiting) s
      → (s' : Queues F D) × (dequeue call true s w
          ≡ ok (s', elim waiting [ [] ↦ w | f ∷ fs ↦ note f w ]))
        × Represents (step next (some waiting)).0 s'
  unfolding dequeue dequeue_from step
  dequeue_waiting q [] s w e held =
      let (taken, held₁) = taken_last q s held in
      let (s', ran, idle) = run_nothing q (write q [] s) w held₁ in
      (
        s',
        ap (λ z. dequeue_from call true z w) (look_up-some q s e)
            ∙ ap (λ z. run_taken call true q z w) taken
            ∙ ran,
        idle,
      )
  dequeue_waiting q (f ∷ fs) s w e held =
      let (s₁, taken, same, held₁) = taken_cons q f (map function fs) s held in
      let (s', ran, same', held') = run_function f q (map function fs) s₁ w held₁ in
      (
        s',
        ap (λ z. dequeue_from call true z w) (look_up-some q s e)
            ∙ ap (λ z. run_taken call true q z w) taken
            ∙ ran,
        (q, same' ∙ same ∙ e, held'),
      )

  -- `next` where no function has been called.
  pub dequeue_idle :
      (s : Queues F D) (w : W)
      → s.queue ≡ none
      → (s' : Queues F D) × (dequeue call true s w ≡ ok (s', w)) × (s'.queue ≡ none)
  unfolding dequeue dequeue_from past_sentinel
  dequeue_idle s w e =
      let (s₁, q) = new_array [] s in
      let held = new_array_held [] s in
      let (s', ran, idle) = run_nothing q s₁ w held in
      (
        s',
        ap (λ z. dequeue_from call true z w) (look_up-none s e)
            ∙ ap (λ z. run_taken call true q (past_sentinel q z) w) (shift_nil q s₁ held)
            ∙ ran,
        idle,
      )

  start_idle_running :
      (q : ℕ) (l : List (Entry F)) (s : Queues F D) (w : W)
      → Holds q (inprogress ∷ l) s
      → start_idle call true (s, q) w ≡ ok (s, w)
  unfolding start_idle
  start_idle_running q l s w h = simp (start_idle, items_held q (inprogress ∷ l) s h) refl

  start_idle_first :
      (q : ℕ) (f : F) (l : List (Entry F)) (s : Queues F D) (w : W)
      → Holds q (function f ∷ l) s
      → start_idle call true (s, q) w ≡ dequeue call true s w
  unfolding start_idle
  start_idle_first q f l s w h = simp (start_idle, items_held q (function f ∷ l) s h) refl

  queue_data_idle :
      (f : F) (s : Queues F D) → s.queue ≡ none → queue_data (one f) s ≡ replace (function f ∷ []) s
  unfolding queue_data
  queue_data_idle f s e = simp (queue_data, e) refl

  queue_data_running :
      (f : F) (q : ℕ) (l : List (Entry F)) (s : Queues F D)
      → s.queue ≡ some q
      → Holds q l s
      → queue_data (one f) s ≡ (write q (l ++ (function f ∷ [])) s, q)
  unfolding queue_data
  queue_data_running f q l s e h = simp (queue_data, e, items_held q l s h) refl

  map-append :
      (fs : List F) (f : F)
      → map {B = Entry F} function (fs ++ (f ∷ [])) ≡ map function fs ++ (function f ∷ [])
  map-append [] f = refl
  map-append (g ∷ fs) f = ap (λ l. function g ∷ l) (map-append fs f)

  pub enqueue_running :
      (f : F) (q : ℕ) (waiting : List F) (s : Queues F D) (w : W)
      → s.queue ≡ some q
      → Holds q (inprogress ∷ map function waiting) s
      → (s' : Queues F D) × (enqueue call true (one f) s w ≡ ok (s', w))
        × Represents (some (waiting ++ (f ∷ []))) s'
  unfolding enqueue write
  enqueue_running f q waiting s w e held =
      let l = map function waiting ++ (function f ∷ []) in
      let s₁ = write q (inprogress ∷ l) s in
      let held₁ = write_held q (inprogress ∷ map function waiting) (inprogress ∷ l) s held in
      (
        s₁,
        ap (λ z. start_idle call true z w)
              (queue_data_running f q (inprogress ∷ map function waiting) s e held)
            ∙ start_idle_running q l s₁ w held₁,
        (q, e, rw (map-append waiting f) held₁),
      )

  pub enqueue_idle :
      (f : F) (s : Queues F D) (w : W)
      → s.queue ≡ none
      → (s' : Queues F D) × (enqueue call true (one f) s w ≡ ok (s', note f w))
        × Represents (some []) s'
  unfolding enqueue replace dequeue dequeue_from past_sentinel write
  enqueue_idle f s w e =
      let (s₁, q) = replace (function f ∷ []) s in
      let held = new_array_held (function f ∷ []) s in
      let held₁ = write_held q (function f ∷ []) [] s₁ held in
      let (s', ran, same, held') = run_function f q [] (write q [] s₁) w held₁ in
      (
        s',
        ap (λ z. start_idle call true z w) (queue_data_idle f s e)
            ∙ start_idle_first q f [] s₁ w held
            ∙ ap (λ z. dequeue_from call true z w) (look_up-some q s₁ refl)
            ∙ ap (λ z. run_taken call true q (past_sentinel q z) w)
                (shift_cons q (function f) [] s₁ held)
            ∙ ran,
        (q, same, held'),
      )
