-- ===== src/Jquery/Deferred/Settled.antt =====
-- Settling a deferred whose functions leave it alone, and what can be done to it afterwards.
use terminator.Base.{
  Bool, false, Bool-cases, List, [], ◌∷◌, none, some, ℕ, suc, ◌+◌, ◌<◌, Result, ok, map, length,
  text_eq, ◌≡◌, refl, ap, ◌∙◌, inl, inr, arith,
}
use terminator.Jquery.Callbacks.{Flags, Callbacks, unset, kept, disable, lock, fire_with, perform}
use terminator.Jquery.Callbacks.Plain.{notes}
use terminator.Jquery.Deferred.{
  once_memory, memory_only, Outcome, resolve, reject, Handler, set_state, disable_opposite,
  lock_progress, user, Deferred, Rest, outcome_state, outcome_list, rest_of, join, handle, act_on,
  settle, notify, report_all,
}
use terminator.Jquery.Deferred.Plain.{
  outcome_list-join, refuses_any, note_any, handle_plain, all_notes, notes_users, fire_once,
}

module _ {F A : Type 0} where
  -- A deferred that waits, with the user's functions `fs` for the outcome.
  abbrev pub IsPending : Outcome → List F → Deferred F A → Type 0
  IsPending o fs d =
      let c = outcome_list o d in
      (c.list ≡ some (set_state ∷ disable_opposite ∷ lock_progress ∷ map user fs))
      × (c.stack ≡ some [])
      × (c.memory ≡ unset)
      × (c.firing ≡ false)
      × (c.firing_start ≡ 0)

  -- A deferred that is settled in one way, with the arguments it was settled with.
  abbrev pub IsSettled : Outcome → A → Deferred F A → Type 0
  IsSettled o a d =
      let c = outcome_list o d in
      let r = rest_of o d in
      (r.state ≡ outcome_state o)
      × (c.list ≡ some [])
      × (c.stack ≡ some [])
      × (c.memory ≡ kept a)
      × (c.firing ≡ false)
      × (r.opposite.list ≡ none)
      × (r.opposite.stack ≡ none)
      × (r.progress.stack ≡ none)

module _ {F A W : Type 0} (call : F → A → Deferred F A → W → Result (Bool × Deferred F A × W))
    (refuses : F → A → Bool) (note : F → A → W → W)
    (plain : (f : F) (a : A) (d : Deferred F A) (w : W)
      → call f a d w ≡ ok (refuses f a, d, note f a w)) where
  fire_with_ready :
      (a : A) (c : Callbacks (Handler F) A)
      → c.stack ≡ some []
      → c.memory ≡ unset
      → c.firing ≡ false
      → fire_with once_memory a c ≡ (c, some a)
  unfolding fire_with once_memory text_eq
  fire_with_ready a c stack memory firing = rw (stack, memory, firing) refl

  lock-stack : (c : Callbacks F A) → (lock c).stack ≡ none
  unfolding lock disable
  lock-stack c = ground arith

  -- What the three functions of `Deferred` make of the rest.
  abbrev settled_rest : Outcome → Rest F A → Rest F A
  unfolding disable lock
  settled_rest o r = record {
    opposite = disable r.opposite;
    progress = lock r.progress;
    state = outcome_state o;
  }

  notes_settled :
      (o : Outcome) (a : A) (fs : List F) (r : Rest F A) (w : W)
      → notes once_memory
          (handle call o)
          (refuses_any call refuses note plain)
          (note_any call refuses note plain o)
          (handle_plain call refuses note plain o)
          a
          (set_state ∷ disable_opposite ∷ lock_progress ∷ map user fs)
          (r, w)
        ≡ (settled_rest o r, all_notes call refuses note plain fs a w)
  unfolding notes note_any settled_rest
  notes_settled o a fs r w = notes_users call refuses note plain o a fs (settled_rest o r) w

  -- Settling a deferred that waits calls the user's functions for the outcome, in the order of their
  -- adding, each once, provided that they leave the deferred alone; the deferred then has the state of
  -- the outcome, keeps the arguments, and its other list and its progress list accept no call. It always
  -- returns: fuel for a turn for each function and a few more is enough.
  pub settle-IsSettled :
      (o : Outcome) (fuel : ℕ) (a : A) (fs : List F) (d : Deferred F A) (w : W)
      → IsPending o fs d
      → length (map {B = Handler F} user fs) + 3 < fuel
      → (d' : Deferred F A) × (settle call o (suc fuel) a d w
          ≡ ok (d', all_notes call refuses note plain fs a w))
        × IsSettled o a d'
  unfolding settle act_on perform disable
  settle-IsSettled o fuel a fs d w (list, stack, memory, firing, start) enough =
      let c = outcome_list o d in
      let r = rest_of o d in
      let (c', fired, list', memory', stack', firing') =
        fire_once call refuses note plain o fuel a
          (set_state ∷ disable_opposite ∷ lock_progress ∷ map user fs) c (r, w) list stack start
          (omega (arith, enough)) in
      let (own, others) = outcome_list-join o c' (settled_rest o r) in
      let happened = fired ∙ ap (λ v. ok (c', v)) (notes_settled o a fs r w) in
      (
        join o c' (settled_rest o r),
        rw (fire_with_ready a c stack memory firing, happened) refl,
        rw (own, others) (refl, list', stack', memory', firing', refl, refl, lock-stack r.progress),
      )

  fire_with-settled :
      (b a : A) (c : Callbacks (Handler F) A)
      → c.stack ≡ some []
      → c.memory ≡ kept a
      → fire_with once_memory b c ≡ (c, none)
  unfolding fire_with once_memory text_eq
  fire_with-settled b a c stack memory = elim (Bool-cases c.firing) [
    | inl yes_it ↦ rw (stack, memory, yes_it) refl
    | inr no_it ↦ rw (stack, memory, no_it) refl
  ]

  fire_with-locked :
      {G : Type 0} (flags : Flags) (b : A) (c : Callbacks G A)
      → c.stack ≡ none
      → fire_with flags b c ≡ (c, none)
  unfolding fire_with
  fire_with-locked flags b c stack = rw stack refl

  join_parts : (o : Outcome) (d : Deferred F A) → join o (outcome_list o d) (rest_of o d) ≡ d
  unfolding join outcome_list rest_of
  join_parts resolve d = refl
  join_parts reject d = refl

  act_none :
      (o : Outcome) (fuel : ℕ) (d : Deferred F A) (w : W)
      → act_on call o fuel (outcome_list o d, none) (rest_of o d) w ≡ ok (d, w)
  unfolding act_on perform
  act_none o fuel d w = ap (λ e. ok (e, w)) (join_parts o d)

  abbrev pub opposite_of : Outcome → Outcome
  opposite_of resolve = reject
  opposite_of reject = resolve

  opposite_of_lem :
      (o : Outcome) (d : Deferred F A)
      → (outcome_list (opposite_of o) d ≡ (rest_of o d).opposite)
        × (d.progress_list ≡ (rest_of o d).progress)
  unfolding outcome_list rest_of
  opposite_of_lem resolve d = (refl, refl)
  opposite_of_lem reject d = (refl, refl)

  -- A settled deferred stays as it is, and so does the world: settling it again, with any arguments, in
  -- the same way or in the other, does nothing, and neither does notifying.
  pub settle-IsSettled_again :
      (o : Outcome) (fuel : ℕ) (a b : A) (d : Deferred F A) (w : W)
      → IsSettled o a d
      → (settle call o fuel b d w ≡ ok (d, w))
        × (settle call (opposite_of o) fuel b d w ≡ ok (d, w))
        × (notify call fuel b d w ≡ ok (d, w))
  unfolding settle notify report_all perform
  settle-IsSettled_again o fuel a b d w
        (state, list, stack, memory, firing, closed, opposite, progress) =
      let (other, reports) = opposite_of_lem o d in
      (
        rw (fire_with-settled b a (outcome_list o d) stack memory) (act_none o fuel d w),
        rw
            (fire_with-locked once_memory b (outcome_list (opposite_of o) d)
              (ap (λ c. c.stack) other ∙ opposite))
            (act_none (opposite_of o) fuel d w),
        rw (fire_with-locked memory_only b d.progress_list (ap (λ c. c.stack) reports ∙ progress))
            refl,
      )
