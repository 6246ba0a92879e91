-- ===== src/Jquery/Deferred/Late.antt =====
-- Adding functions to a deferred, before and after it is settled.
use terminator.Base.{
  Bool, false, List, [], ◌∷◌, ◌++◌, none, some, text_eq, ℕ, suc, ◌<◌, Result, ok, map, ◌≡◌, refl,
  ap,
}
use terminator.Jquery.Callbacks.{
  Callbacks, unset, kept, Arguments, function, argument, add, perform,
}
use terminator.Jquery.Callbacks.Plain.{notes}
use terminator.Jquery.Deferred.{
  once_memory, Outcome, resolve, reject, Handler, set_state, disable_opposite, lock_progress, user,
  Deferred, outcome_list, rest_of, join, act_on, on_outcome, new_deferred,
}
use terminator.Jquery.Deferred.Plain.{outcome_list-join, note_any, fire_once}
use terminator.Jquery.Deferred.Settled.{IsPending, IsSettled}

-- One function of the user, as the arguments of `done` or `fail`.
abbrev pub one_function : {F : Type 0} → F → Arguments (Handler F)
one_function f = argument (function (user f)) Arguments.end

module _ {F A : Type 0} (same : Handler F → Handler F → Bool) where
  -- A new deferred waits for either outcome, and has no functions of the user.
  new_deferred-IsPending : (o : Outcome) → IsPending o [] (new_deferred {F = F} {A = A} same)
  unfolding new_deferred outcome_list once_memory text_eq add
  new_deferred-IsPending resolve = (refl, refl, refl, refl, refl)
  new_deferred-IsPending reject = (refl, refl, refl, refl, refl)

  add_waiting :
      (f : F) (l : List (Handler F)) (c : Callbacks (Handler F) A)
      → c.list ≡ some l
      → c.memory ≡ unset
      → c.firing ≡ false
      → add same once_memory (one_function f) c
        ≡ (record c { list = some (l ++ (user f ∷ [])) }, none)
  unfolding add once_memory text_eq
  add_waiting f l c list memory firing =
      rw (add, list, memory, firing)
        (ap (λ m. (record c { list = some (l ++ (user f ∷ [])); memory = m; firing = false }, none))
          memory)

  add-kept :
      (f : F) (a : A) (c : Callbacks (Handler F) A)
      → c.list ≡ some []
      → c.memory ≡ kept a
      → c.firing ≡ false
      → add same once_memory (one_function f) c
        ≡ (record c { list = some (user f ∷ []); firing_start = 0 }, some a)
  unfolding add once_memory text_eq
  add-kept f a c list memory firing =
      rw (add, list, memory, firing)
        (ap
          (λ m. (
            record c { list = some (user f ∷ []); memory = m; firing = false; firing_start = 0 },
            some a,
          ))
          memory)

module _ {F A W : Type 0} (call : F → A → Deferred F A → W → Result (Bool × Deferred F A × W))
    (same : Handler F → Handler F → Bool) (f_eq : F → F → Bool) where
  map-append :
      (fs : List F) (f : F)
      → map {B = Handler F} user (fs ++ (f ∷ [])) ≡ map user fs ++ (user f ∷ [])
  map-append [] f = refl
  map-append (g ∷ fs) f = ap (λ l. user g ∷ l) (map-append fs f)

  -- Adding a function to a deferred that waits calls nothing, and puts the function behind the others.
  on_outcome-IsPending :
      (o : Outcome) (fuel : ℕ) (f : F) (fs : List F) (d : Deferred F A) (w : W)
      → IsPending o fs d
      → (d' : Deferred F A) × (on_outcome call same f_eq o fuel (one_function f) d w ≡ ok (d', w))
        × IsPending o (fs ++ (f ∷ [])) d'
        × (rest_of o d' ≡ rest_of o d)
  unfolding on_outcome act_on perform
  on_outcome-IsPending o fuel f fs d w (list, stack, memory, firing, start) =
      let c = outcome_list o d in
      let c' = record c {
        list = some (set_state ∷ disable_opposite ∷ lock_progress ∷ (map user fs ++ (user f ∷ [])));
      } in
      let (own, others) = outcome_list-join o c' (rest_of o d) in
      (
        join o c' (rest_of o d),
        rw
            (add_waiting same f (set_state ∷ disable_opposite ∷ lock_progress ∷ map user fs) c list
              memory firing)
            refl,
        rw own (rw (map-append fs f) refl, stack, memory, firing, start),
        others,
      )

module _ {F A W : Type 0} (call : F → A → Deferred F A → W → Result (Bool × Deferred F A × W))
    (refuses : F → A → Bool) (note : F → A → W → W)
    (plain : (f : F) (a : A) (d : Deferred F A) (w : W)
      → call f a d w ≡ ok (refuses f a, d, note f a w))
    (same : Handler F → Handler F → Bool) (f_eq : F → F → Bool) where
  -- A function that is added for the outcome of a settled deferred is called at once, with the arguments
  -- the deferred was settled with, provided that it leaves the deferred alone; the deferred stays
  -- settled in that way, with those arguments. Fuel for two turns is enough.
  pub on_outcome-IsSettled :
      (o : Outcome) (fuel : ℕ) (a : A) (f : F) (d : Deferred F A) (w : W)
      → IsSettled o a d
      → 1 < fuel
      → (d' : Deferred F A) × (on_outcome call same f_eq o (suc fuel) (one_function f) d w
          ≡ ok (d', note f a w))
        × IsSettled o a d'
  unfolding on_outcome act_on perform notes note_any
  on_outcome-IsSettled o fuel a f d w (state, list, stack, memory, firing, closed, opposite, locked)
        enough =
      let c = outcome_list o d in
      let c₁ = record c { list = some (user f ∷ []); firing_start = 0 } in
      let (c', fired, list', memory', stack', firing') =
        fire_once call refuses note plain o fuel a (user f ∷ []) c₁ (rest_of o d, w) refl stack refl
          enough in
      let (own, others) = outcome_list-join o c' (rest_of o d) in
      (
        join o c' (rest_of o d),
        rw (add-kept same f a c list memory firing, fired) refl,
        rw (own, others) (state, list', stack', memory', firing', closed, opposite, locked),
      )
