-- ===== src/Jquery/Queue/Fifo.antt =====
-- The "fx" queue with functions that leave it alone: first in, first out, and one at a time.
use terminator.Base.{true, List, [], ◌∷◌, Option, none, some, Result, ok, ◌>>=◌, ◌≡◌, refl, ap, ◌∙◌}
use terminator.Jquery.Queue.{one, Queues, dequeue, enqueue}
use terminator.Jquery.Queue.Plain.{
  Represents, Action, add, next, step, enqueue_idle, enqueue_running, dequeue_idle, dequeue_waiting,
}

module _ {F D W : Type 0} (call : F → Queues F D → W → Result (Queues F D × W)) where
  unfoldable pub run_action : Action F → Queues F D → W → Result (Queues F D × W)
  unfolding enqueue dequeue
  run_action (add f) s w = enqueue call true (one f) s w
  run_action next s w = dequeue call true s w

  unfoldable pub run_all : List (Action F) → Queues F D → W → Result (Queues F D × W)
  unfolding run_action
  run_all [] s w = ok (s, w)
  run_all (a ∷ as') s w = do (s₁, w₁) ← run_action a s w; run_all as' s₁ w₁

module _ {F D W : Type 0} (call : F → Queues F D → W → Result (Queues F D × W)) (note : F → W → W)
    (plain : (f : F) (s : Queues F D) (w : W) → call f s w ≡ ok (s, note f w)) where
  -- The world after a function has been called, or none.
  abbrev pub noted : Option F → W → W
  noted none w = w
  noted (some f) w = note f w

  -- The world after all actions, by the queue as it is meant.
  unfoldable pub meant : List (Action F) → Option (List F) → W → W
  unfolding step
  meant [] state w = w
  meant (a ∷ as') state w = meant as' (step a state).0 (noted (step a state).1 w)

  run_action-Represents :
      (a : Action F) (state : Option (List F)) (s : Queues F D) (w : W)
      → Represents state s
      → (s' : Queues F D) × (run_action call a s w ≡ ok (s', noted (step a state).1 w))
        × Represents (step a state).0 s'
  unfolding run_action step
  run_action-Represents (add f) none s w r = enqueue_idle call note plain f s w r
  run_action-Represents (add f) (some waiting) s w (q, e, held) =
      enqueue_running call note plain f q waiting s w e held
  run_action-Represents next none s w r = dequeue_idle call note plain s w r
  run_action-Represents next (some []) s w (q, e, held) =
      dequeue_waiting call note plain q [] s w e held
  run_action-Represents next (some (f ∷ fs)) s w (q, e, held) =
      dequeue_waiting call note plain q (f ∷ fs) s w e held

  -- Whatever functions are added and however often `next` is called, in any order, the "fx" queue of an
  -- element with functions that leave it alone returns, and calls the functions that a queue calls of
  -- which one function runs at a time and the others wait, first in, first out.
  pub run_all-meant :
      (actions : List (Action F)) (state : Option (List F)) (s : Queues F D) (w : W)
      → Represents state s
      → (s' : Queues F D) × (run_all call actions s w ≡ ok (s', meant actions state w))
  unfolding run_all meant
  run_all-meant [] state s w r = (s, refl)
  run_all-meant (a ∷ as') state s w r =
      let (s₁, acted, r₁) = run_action-Represents a state s w r in
      let w₁ = noted (step a state).1 w in
      let (s', rest) = run_all-meant as' (step a state).0 s₁ w₁ r₁ in
      (s', ap (λ z. z >>= (λ (v, x). run_all call as' v x)) acted ∙ rest)
