-- ===== src/Jquery/Callbacks/Turns.antt =====
-- The turns of the loop of `fire`, one equation for each way in which a turn goes.
use terminator.Base.{
  ℕ, suc, ◌+◌, ◌≤◌, ◌<◌, Bool, false, ◌&&◌, List, none, some, Result, ok, err, type_error, ◌>>=◌,
  get_elem?, if◌then◌else◌, ◌≡◌, lt→ltb, le→ltb_false, refl,
}
use terminator.Jquery.Callbacks.{Flags, halted, Callbacks, started, loop, finish, fire}

module _ {F A W : Type 0} (flags : Flags)
    (call : F → A → Callbacks F A → W → Result (Bool × Callbacks F A × W)) where
  pub loop_disabled :
      (fuel : ℕ) (a : A) (c : Callbacks F A) (w : W)
      → c.list ≡ none
      → loop flags call (suc fuel) a c w ≡ ok (c, w)
  unfolding loop
  loop_disabled fuel a c w e = rw e refl

  pub loop_at_end :
      (fuel : ℕ) (a : A) (l : List F) (c : Callbacks F A) (w : W)
      → c.list ≡ some l
      → c.firing_length ≤ c.next
      → loop flags call (suc fuel) a c w ≡ ok (c, w)
  unfolding loop
  loop_at_end fuel a l c w e le = rw (e, le→ltb_false c.next c.firing_length le) refl

  pub loop_past_list :
      (fuel : ℕ) (a : A) (l : List F) (c : Callbacks F A) (w : W)
      → c.list ≡ some l
      → c.next < c.firing_length
      → get_elem? l c.next ≡ none
      → loop flags call (suc fuel) a c w ≡ err type_error
  unfolding loop
  loop_past_list fuel a l c w e lt gone = rw (e, lt→ltb c.next c.firing_length lt, gone) refl

  pub loop_turn :
      (fuel : ℕ) (a : A) (l : List F) (f : F) (c : Callbacks F A) (w : W)
      → c.list ≡ some l
      → c.next < c.firing_length
      → get_elem? l c.next ≡ some f
      → loop flags call (suc fuel) a c w ≡ (
          call f a (record c { next = c.next + 1 }) w >>= λ (refused, c', w').
          let rest = loop flags call fuel a c' w' in
          if refused && flags.stop_on_false then ok (record c' { memory = halted }, w') else rest)
  unfolding loop
  loop_turn fuel a l f c w e lt here = rw (e, lt→ltb c.next c.firing_length lt, here) refl

  pub fire_turn :
      (fuel : ℕ) (a : A) (l : List F) (c : Callbacks F A) (w : W)
      → c.list ≡ some l
      → fire flags call (suc fuel) a c w ≡ (
          loop flags call fuel a (started flags a l c) w >>= λ (c', w').
          finish flags call (λ b d v. fire flags call fuel b d v) (record c' { firing = false }) w')
  unfolding fire
  fire_turn fuel a l c w e = rw e refl
