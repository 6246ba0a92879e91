-- ===== src/Jquery/Deferred.antt =====
-- `jQuery.Deferred`: a result that is settled once, over three lists of callbacks. A user's function may
-- act_on on the deferred itself and on the world `W`.
pub mod Plain
pub mod Settled
pub mod Late
use terminator.Base.{
  Bool, true, false, List, [], ◌∷◌, Option, none, some, codes, ℕ, Result, ok, ◌>>=◌,
}
use terminator.Jquery.Callbacks.{
  Flags, create_flags, Callbacks, fresh, Arguments, Argument, function, argument, add, disable,
  lock, fire_with, perform,
}

unfoldable pub once_memory : Flags
unfolding create_flags
once_memory = create_flags (codes "once memory")

unfoldable pub memory_only : Flags
unfolding create_flags
memory_only = create_flags (codes "memory")

pub data State : Type 0 where
  pending resolved rejected : State

-- The two lists that settle a deferred, by the keys of `lists`.
pub data Outcome : Type 0 where
  resolve reject : Outcome

-- A function in one of those two: those that `Deferred` puts there, and the user's.
pub data Handler (F : Type 0) : Type 0 where
  set_state disable_opposite lock_progress : Handler F
  user : F → Handler F

pub record Deferred (F A : Type 0) : Type 0 where
  pub done_list : Callbacks (Handler F) A
  pub fail_list : Callbacks (Handler F) A
  pub progress_list : Callbacks F A
  pub state : State

-- What there is of a deferred besides the list of one outcome.
pub record Rest (F A : Type 0) : Type 0 where
  pub opposite : Callbacks (Handler F) A
  pub progress : Callbacks F A
  pub state : State

-- The state that an outcome leads to.
unfoldable pub outcome_state : Outcome → State
outcome_state resolve = resolved
outcome_state reject = rejected

module _ {F A : Type 0} where
  unfoldable pub outcome_list : Outcome → Deferred F A → Callbacks (Handler F) A
  outcome_list resolve d = d.done_list
  outcome_list reject d = d.fail_list

  unfoldable pub rest_of : Outcome → Deferred F A → Rest F A
  rest_of resolve d = record { opposite = d.fail_list; progress = d.progress_list; state = d.state }
  rest_of reject d = record { opposite = d.done_list; progress = d.progress_list; state = d.state }

  unfoldable pub join : Outcome → Callbacks (Handler F) A → Rest F A → Deferred F A
  join resolve c r = record {
    done_list = c;
    fail_list = r.opposite;
    progress_list = r.progress;
    state = r.state;
  }
  join reject c r = record {
    done_list = r.opposite;
    fail_list = c;
    progress_list = r.progress;
    state = r.state;
  }

module _ {F A W : Type 0} (call : F → A → Deferred F A → W → Result (Bool × Deferred F A × W)) where
  -- A function in the list of an outcome is called.
  unfoldable pub handle :
      Outcome
      → Handler F
      → A
      → Callbacks (Handler F) A
      → Rest F A × W
      → Result (Bool × Callbacks (Handler F) A × (Rest F A × W))
  unfolding outcome_state outcome_list rest_of join disable lock
  handle o set_state a c (r, w) = ok (false, c, (record r { state = outcome_state o }, w))
  handle o disable_opposite a c (r, w) =
      ok (false, c, (record r { opposite = disable r.opposite }, w))
  handle o lock_progress a c (r, w) = ok (false, c, (record r { progress = lock r.progress }, w))
  handle o (user f) a c (r, w) = call f a (join o c r) w >>= λ (refused, d, w').
      ok (refused, outcome_list o d, (rest_of o d, w'))

  -- A user's function in the progress list is called.
  unfoldable pub report :
      F → A → Callbacks F A → Deferred F A × W → Result (Bool × Callbacks F A × (Deferred F A × W))
  report f a c (d, w) = call f a (record d { progress_list = c }) w >>= λ (refused, d', w').
      ok (refused, d'.progress_list, (d', w'))

  -- What is left of an operation on the list of an outcome.
  unfoldable pub act_on :
      Outcome → ℕ → Callbacks (Handler F) A × Option A → Rest F A → W → Result (Deferred F A × W)
  unfolding perform handle
  act_on o fuel (c, firing) r w =
      perform once_memory (handle o) fuel (c, firing) (r, w) >>= λ (c', (r', w')).
      ok (join o c' r', w')

  unfoldable pub report_all :
      ℕ → Callbacks F A × Option A → Deferred F A → W → Result (Deferred F A × W)
  unfolding perform report
  report_all fuel (c, firing) d w =
      perform memory_only report fuel (c, firing) (d, w) >>= λ (c', (d', w')).
      ok (record d' { progress_list = c' }, w')

  -- `resolve`, `resolveWith`, `reject` and `rejectWith`
  unfoldable pub settle : Outcome → ℕ → A → Deferred F A → W → Result (Deferred F A × W)
  unfolding act_on fire_with
  settle o fuel a d w = act_on o fuel (fire_with once_memory a (outcome_list o d)) (rest_of o d) w

  -- `notify` and `notifyWith`
  unfoldable pub notify : ℕ → A → Deferred F A → W → Result (Deferred F A × W)
  unfolding report_all fire_with
  notify fuel a d w = report_all fuel (fire_with memory_only a d.progress_list) d w

  module _ (same : Handler F → Handler F → Bool) (f_eq : F → F → Bool) where
    -- `done` and `fail`
    unfoldable pub on_outcome :
        Outcome → ℕ → Arguments (Handler F) → Deferred F A → W → Result (Deferred F A × W)
    unfolding act_on add
    on_outcome o fuel fs d w =
        act_on o fuel (add same once_memory fs (outcome_list o d)) (rest_of o d) w

    -- `progress`
    unfoldable pub on_progress : ℕ → Arguments F → Deferred F A → W → Result (Deferred F A × W)
    unfolding report_all add
    on_progress fuel fs d w = report_all fuel (add f_eq memory_only fs d.progress_list) d w

    unfoldable pub then_do :
        ℕ
        → Arguments (Handler F)
        → Arguments (Handler F)
        → Arguments F
        → Deferred F A
        → W
        → Result (Deferred F A × W)
    unfolding on_outcome on_progress
    then_do fuel done_callbacks fail_callbacks progress_callbacks d w = do
      (d₁, w₁) ← on_outcome resolve fuel done_callbacks d w
      (d₂, w₂) ← on_outcome reject fuel fail_callbacks d₁ w₁
      on_progress fuel progress_callbacks d₂ w₂

    unfoldable pub always : ℕ → Arguments (Handler F) → Deferred F A → W → Result (Deferred F A × W)
    unfolding on_outcome
    always fuel callbacks d w = do
      (d₁, w₁) ← on_outcome resolve fuel callbacks d w
      on_outcome reject fuel callbacks d₁ w₁

-- The three functions that each of the two lists begins with.
abbrev pub first_handlers : {F : Type 0} → Arguments (Handler F)
first_handlers =
    argument (function set_state)
      (argument (function disable_opposite) (argument (function lock_progress) Arguments.end))

module _ {F A : Type 0} (same : Handler F → Handler F → Bool) where
  -- A deferred before `func` is called, if there is one.
  unfoldable pub new_deferred : Deferred F A
  unfolding add
  new_deferred = record {
    done_list = (add same once_memory first_handlers fresh).0;
    fail_list = (add same once_memory first_handlers fresh).0;
    progress_list = fresh;
    state = pending;
  }
