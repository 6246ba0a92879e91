-- ===== src/Jquery/Queue.antt =====
-- `jQuery.queue`: the functions that wait for one element, in its queue of one type. Arrays are shared:
-- a call of `dequeue` keeps the array it found while the function it calls may replace it.
pub mod Held
pub mod Plain
pub mod Fifo
use terminator.Base.{
  ℕ, zero, suc, ◌+◌, ◌-◌, Bool, true, false, not, ◌&&◌, ◌||◌, List, [], ◌∷◌, ◌++◌, Option, none,
  some, Result, ok, err, ◌>>=◌, type_error, length, get_elem?, ◌==◌, if◌then◌else◌, map,
}

-- An item of a queue: the progress sentinel, or a function.
pub data Entry (F : Type 0) : Type 0 where
  inprogress : Entry F
  function : F → Entry F

-- What may be put into a queue: a function, or an array of them.
pub data Data (F : Type 0) : Type 0 where
  one : F → Data F
  array : List F → Data F

pub data Source : Type 0 where
  from_queue from_mark : Source

-- The data of an element under the keys of one type: the number of its array, its marks (0 where there
-- is no mark), whether there are hooks, and the list of callbacks that is deferred. `timers` are the
-- calls of `setTimeout` that have not happened.
pub record Queues (F D : Type 0) : Type 0 where
  pub arrays : List (List (Entry F))
  pub queue : Option ℕ
  pub mark : ℕ
  pub run : Bool
  pub defer : Option D
  pub timers : List D

unfoldable pub put_at : {B : Type 0} → List B → ℕ → B → List B
put_at [] i b = []
put_at (x ∷ xs) zero b = b ∷ xs
put_at (x ∷ xs) (suc i) b = x ∷ put_at xs i b

module _ {F D : Type 0} where
  -- `jQuery._data( elem, queueDataKey )` as a condition
  unfoldable pub has_queue : Queues F D → Bool
  has_queue s = elim s.queue [ none ↦ false | some q ↦ true ]

  -- The items of an array.
  unfoldable pub items : Queues F D → ℕ → List (Entry F)
  items s q = elim (get_elem? s.arrays q) [ none ↦ [] | some l ↦ l ]

  unfoldable pub write : ℕ → List (Entry F) → Queues F D → Queues F D
  unfolding put_at
  write q l s = record s { arrays = put_at s.arrays q l }

  -- A new array and its number.
  unfoldable pub new_array : List (Entry F) → Queues F D → Queues F D × ℕ
  new_array l s = (record s { arrays = s.arrays ++ (l ∷ []) }, length s.arrays)

  unfoldable pub handle_queue_mark_defer : Source → Queues F D → Queues F D
  unfolding has_queue
  handle_queue_mark_defer src s = elim s.defer [
    | none ↦ s
    | some d ↦
        let later = record s { timers = s.timers ++ (d ∷ []) } in
        elim src [
          | from_queue ↦ if s.mark == 0 then later else s
          | from_mark ↦ if has_queue s then s else later
        ]
  ]

  -- The function given to `setTimeout`, for the list `d`: the list that is fired, if any.
  unfoldable pub timeout : D → Queues F D → Queues F D × Option D
  unfolding has_queue
  timeout d s =
      if not (has_queue s) && s.mark == 0 then (record s { defer = none }, some d) else (s, none)

  -- `_mark`
  unfoldable pub add_mark : Queues F D → Queues F D
  add_mark s = record s { mark = s.mark + 1 }

  -- `_unmark`
  unfoldable pub unmark : Bool → Queues F D → Queues F D
  unfolding handle_queue_mark_defer
  unmark force s =
      let marks = if s.mark == 0 then 1 else s.mark in
      let count = if force then 0 else marks - 1 in
      if count == 0
      then handle_queue_mark_defer from_mark (record s { mark = 0 })
      else record s { mark = count }

  -- `jQuery.queue` without data, and with data
  unfoldable pub look_up : Queues F D → Queues F D × ℕ
  unfolding new_array
  look_up s = elim s.queue [ none ↦ new_array [] s | some q ↦ (s, q) ]

  unfoldable pub replace : List (Entry F) → Queues F D → Queues F D × ℕ
  unfolding new_array
  replace l s = let (s₁, q) = new_array l s in (record s₁ { queue = some q }, q)

  unfoldable pub queue_data : Data F → Queues F D → Queues F D × ℕ
  unfolding replace items write
  queue_data (array fs) s = replace (map function fs) s
  queue_data (one f) s = elim s.queue [
    | none ↦ replace (function f ∷ []) s
    | some q ↦ (write q (items s q ++ (function f ∷ [])) s, q)
  ]

  -- `queue.shift()`
  unfoldable pub shift : ℕ → Queues F D → Option (Entry F) × Queues F D
  unfolding items write
  shift q s = elim (items s q) [ [] ↦ (none, s) | x ∷ l ↦ (some x, write q l s) ]

  -- What is taken where a first `shift` gave the sentinel.
  unfoldable pub past_sentinel : ℕ → Option (Entry F) × Queues F D → Option (Entry F) × Queues F D
  unfolding shift
  past_sentinel q (none, s) = (none, s)
  past_sentinel q (some inprogress, s) = shift q s
  past_sentinel q (some (function f), s) = (some (function f), s)

  unfoldable pub clear_if_empty : ℕ → Queues F D → Queues F D
  unfolding items handle_queue_mark_defer
  clear_if_empty q s = elim (items s q) [
    | [] ↦ handle_queue_mark_defer from_queue (record s { queue = none; run = false })
    | x ∷ l ↦ s
  ]

-- `fx` tells whether the type is "fx".
module _ {F D W : Type 0} (call : F → Queues F D → W → Result (Queues F D × W)) (fx : Bool) where
  -- The call of what was taken from an array, and what `dequeue` does behind it.
  unfoldable pub run_taken : ℕ → Option (Entry F) × Queues F D → W → Result (Queues F D × W)
  unfolding items write clear_if_empty
  run_taken q (none, s) w = ok (clear_if_empty q s, w)
  run_taken q (some inprogress, s) w = err type_error
  run_taken q (some (function f), s) w =
      let s₁ = if fx then write q (inprogress ∷ items s q) s else s in
      call f (record s₁ { run = true }) w >>= λ (s₂, w'). ok (clear_if_empty q s₂, w')

  unfoldable pub dequeue_from : Queues F D × ℕ → W → Result (Queues F D × W)
  unfolding run_taken shift past_sentinel
  dequeue_from (s, q) w = run_taken q (past_sentinel q (shift q s)) w

  unfoldable pub dequeue : Queues F D → W → Result (Queues F D × W)
  unfolding look_up dequeue_from
  dequeue s w = dequeue_from (look_up s) w

  -- `if ( type === "fx" && queue[0] !== "inprogress" )`
  unfoldable pub start_idle : Queues F D × ℕ → W → Result (Queues F D × W)
  unfolding dequeue items
  start_idle (s, q) w =
      let start : Result (Queues F D × W) = dequeue s w in
      if fx then elim (items s q) [ (inprogress ∷ l) ↦ ok (s, w) | _ ↦ start ] else ok (s, w)

  -- `queue` with data, for one element of the set
  unfoldable pub enqueue : Data F → Queues F D → W → Result (Queues F D × W)
  unfolding queue_data start_idle
  enqueue added s w = start_idle (queue_data added s) w

  unfoldable pub clear_queue : Queues F D → W → Result (Queues F D × W)
  unfolding enqueue
  clear_queue s w = enqueue (array []) s w
