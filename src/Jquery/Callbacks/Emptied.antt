-- ===== src/Jquery/Callbacks/Emptied.antt =====
-- A function that empties the list that is calling it.
use terminator.Base.{
  ℕ, suc, ◌+◌, ◌<◌, Bool, false, List, [], ◌∷◌, some, Result, ok, err, type_error, get_elem?, ◌≡◌,
  refl, ◌∙◌, arith,
}
use terminator.Jquery.Callbacks.{Flags, Callbacks, empty, started, loop, fire}
use terminator.Jquery.Callbacks.Turns.{loop_turn, loop_past_list, fire_turn}

-- Where the first function empties the list while another is waiting for its turn, the call of
-- `fire` throws: the loop still runs to the old length, past the end of the new list.
pub fire-empty :
    {F A W : Type 0} (flags : Flags)
    (call : F → A → Callbacks F A → W → Result (Bool × Callbacks F A × W)) (fuel : ℕ) (a : A)
    (f g : F) (l : List F) (c : Callbacks F A) (w w' : W)
    → c.list ≡ some (f ∷ g ∷ l)
    → c.firing_start ≡ 0
    → ((d : Callbacks F A) → call f a d w ≡ ok (false, empty d, w'))
    → fire flags call (suc (suc (suc fuel))) a c w ≡ err type_error
unfolding empty
fire-empty flags call fuel a f g l c w w' e start empties =
    let s = started flags a (f ∷ g ∷ l) c in
    let d = record s { next = s.next + 1 } in
    let first : get_elem? (f ∷ g ∷ l) s.next ≡ some f = rw start refl in
    let inside : s.next < s.firing_length = omega arith in
    let past : loop flags call (suc fuel) a (empty d) w' ≡ err type_error =
      loop_past_list flags call fuel a [] (empty d) w' refl (omega arith) refl in
    let looped : loop flags call (suc (suc fuel)) a s w ≡ err type_error =
      loop_turn flags call (suc fuel) a (f ∷ g ∷ l) f s w e inside first ∙ rw (empties d) past in
    fire_turn flags call (suc (suc fuel)) a (f ∷ g ∷ l) c w e ∙ rw looped refl
