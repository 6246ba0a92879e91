-- ===== src/Jquery/Deferred/Plain.antt =====
-- Firing a list of a deferred whose functions leave the deferred alone.
use terminator.Base.{
  Bool, true, false, ◌&&◌, List, [], ◌∷◌, some, ℕ, suc, ◌<◌, Result, ok, map, length, drop, text_eq,
  ◌≡◌, refl, ap, inl,
}
use terminator.Jquery.Callbacks.{Callbacks, kept, disable, lock, fire}
use terminator.Jquery.Callbacks.Plain.{
  called, stops, notes, left_list, left_memory, left_stack, fire_plain,
}
use terminator.Jquery.Deferred.{
  once_memory, Outcome, resolve, reject, Handler, set_state, disable_opposite, lock_progress, user,
  Deferred, Rest, outcome_state, outcome_list, rest_of, join, handle,
}

-- The flags of the two lists.
pub once_memory_lem :
    once_memory ≡ record { once = true; memory = true; unique = false; stop_on_false = false }
unfolding once_memory text_eq
once_memory_lem = refl

and_false : (b : Bool) → (b && false) ≡ false
and_false true = refl
and_false false = refl

module _ {F A : Type 0} where
  pub outcome_list-join :
      (o : Outcome) (c : Callbacks (Handler F) A) (r : Rest F A)
      → (outcome_list o (join o c r) ≡ c) × (rest_of o (join o c r) ≡ r)
  unfolding outcome_list rest_of join
  outcome_list-join resolve c r = (refl, refl)
  outcome_list-join reject c r = (refl, refl)

module _ {F A W : Type 0} (call : F → A → Deferred F A → W → Result (Bool × Deferred F A × W))
    (refuses : F → A → Bool) (note : F → A → W → W)
    (plain : (f : F) (a : A) (d : Deferred F A) (w : W)
      → call f a d w ≡ ok (refuses f a, d, note f a w)) where
  unfoldable pub refuses_any : Handler F → A → Bool
  refuses_any (user f) a = refuses f a
  refuses_any _ a = false

  unfoldable pub note_any : Outcome → Handler F → A → Rest F A × W → Rest F A × W
  unfolding lock disable
  note_any o set_state a (r, w) = (record r { state = outcome_state o }, w)
  note_any o disable_opposite a (r, w) = (record r { opposite = disable r.opposite }, w)
  note_any o lock_progress a (r, w) = (record r { progress = lock r.progress }, w)
  note_any o (user f) a (r, w) = (r, note f a w)

  pub handle_plain :
      (o : Outcome) (h : Handler F) (a : A) (c : Callbacks (Handler F) A) (v : Rest F A × W)
      → handle call o h a c v ≡ ok (refuses_any h a, c, note_any o h a v)
  unfolding handle note_any refuses_any
  handle_plain o set_state a c (r, w) = refl
  handle_plain o disable_opposite a c (r, w) = refl
  handle_plain o lock_progress a c (r, w) = refl
  handle_plain o (user f) a c (r, w) =
      let (own, others) = outcome_list-join o c r in rw (plain f a (join o c r) w, own, others) refl

  -- The effects of the user's functions on the world, in their order.
  abbrev pub all_notes : List F → A → W → W
  all_notes [] a w = w
  all_notes (f ∷ fs) a w = all_notes fs a (note f a w)

  called_all :
      (o : Outcome) (a : A) (fs : List (Handler F))
      → (called once_memory (handle call o) refuses_any (note_any o) (handle_plain o) a fs ≡ fs)
        × (stops once_memory (handle call o) refuses_any (note_any o) (handle_plain o) a fs ≡ false)
  unfolding called stops
  called_all o a [] = (refl, refl)
  called_all o a (h ∷ fs) =
      let (all, none_stops) = called_all o a fs in
      rw (once_memory_lem, and_false (refuses_any h a)) (ap (λ l. h ∷ l) all, none_stops)

  pub notes_users :
      (o : Outcome) (a : A) (fs : List F) (r : Rest F A) (w : W)
      → notes once_memory
          (handle call o)
          refuses_any
          (note_any o)
          (handle_plain o)
          a
          (map user fs)
          (r, w)
        ≡ (r, all_notes fs a w)
  unfolding notes note_any
  notes_users o a [] r w = refl
  notes_users o a (f ∷ fs) r w = notes_users o a fs r (note f a w)

  -- Firing the list of an outcome, from its start.
  pub fire_once :
      (o : Outcome) (fuel : ℕ) (a : A) (hs : List (Handler F)) (c : Callbacks (Handler F) A)
      (v : Rest F A × W)
      → c.list ≡ some hs
      → c.stack ≡ some []
      → c.firing_start ≡ 0
      → length hs < fuel
      → (c' : Callbacks (Handler F) A) × (fire once_memory (handle call o) (suc fuel) a c v
          ≡ ok (
            c',
            notes once_memory (handle call o) refuses_any (note_any o) (handle_plain o) a hs v,
          ))
        × (c'.list ≡ some [])
        × (c'.memory ≡ kept a)
        × (c'.stack ≡ some [])
        × (c'.firing ≡ false)
  unfolding left_list left_memory left_stack once_memory text_eq
  fire_once o fuel a hs c v list stack start enough =
      let from_start : drop c.firing_start hs ≡ hs = ap (λ n. drop n hs) start in
      let (all, none_stops) = called_all o a hs in
      let (c', fired, list', memory', stack', fired', firing') =
        fire_plain once_memory (handle call o) refuses_any (note_any o) (handle_plain o) fuel a hs c
          v list (inl stack) (rw from_start enough) in
      (
        c',
        rw (from_start, all) at fired,
        rw (from_start, none_stops, once_memory_lem) at list',
        rw (from_start, none_stops, once_memory_lem) at memory',
        rw (from_start, none_stops, once_memory_lem, stack) at stack',
        firing',
      )
