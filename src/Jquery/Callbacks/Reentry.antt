-- ===== src/Jquery/Callbacks/Reentry.antt =====
-- Functions that call methods of the list that is calling them.
use terminator.Base.{
  ℕ, zero, suc, ◌+◌, ◌-◌, ◌≤◌, ◌<◌, Bool, true, false, Bool-cases, ◌&&◌, List, [], ◌∷◌, Option,
  none, some, Option-cases, Result, ok, err, ◌>>=◌, type_error, length, get_elem?, ltb,
  if◌then◌else◌, ◌≡◌, ◌≢◌, refl, inl, inr, arith, bind-eq-err,
}
use terminator.Jquery.Callbacks.{
  Flags, Memory, halted, kept, Callbacks, Arguments, add, remove_from, remove_one, remove, disable,
  lock, fire_with, started, loop, finish, fire,
}
use terminator.Jquery.Callbacks.Turns.{loop_disabled, loop_at_end, loop_turn, fire_turn}

-- The methods that a function may call, but for `empty`.
pub data Method (F A : Type 0) : Type 0 where
  adds : Arguments F → Method F A
  removes : List F → Method F A
  disables locks : Method F A
  fires : A → Method F A

module _ {F : Type 0} where
  abbrev pub Ends : Option (List F) → ℕ → Type 0
  Ends none n = Unit
  Ends (some l) n = n ≡ length l

module _ {F : Type 0} (f_eq : F → F → Bool) (flags : Flags) where
  -- What removing does to the end of the loop, from index `i` on.
  abbrev Cut : ℕ → List F → ℕ → List F × ℕ × ℕ → Type 0
  Cut i l len (l', len', next') = (len' + length l ≡ len + length l') × (i + length l' ≤ len')

  remove_from-Cut :
      (f : F) (i : ℕ) (l : List F) (len next : ℕ)
      → i + length l ≤ len
      → Cut i l len (remove_from f_eq flags true f i l (len, next))
  unfolding remove_from
  remove_from-Cut f i [] len next h = (refl, h)
  remove_from-Cut f i (g ∷ l) len next h = ground (
    arith,
    remove_from-Cut f i l (len - 1) (if ltb i next then next - 1 else next),
    remove_from-Cut f (i + 1) l len next,
  )

module _ {F A : Type 0} (f_eq : F → F → Bool) (flags : Flags) where
  -- A method while the list is firing.
  unfoldable pub act : Method F A → Callbacks F A → Callbacks F A
  unfolding add remove disable lock fire_with
  act (adds fs) c = (add f_eq flags fs c).0
  act (removes fs) c = remove f_eq flags fs c
  act disables c = disable c
  act locks c = lock c
  act (fires a) c = (fire_with flags a c).0

  unfoldable pub act_all : List (Method F A) → Callbacks F A → Callbacks F A
  act_all [] c = c
  act_all (m ∷ ms) c = act_all ms (act m c)

  -- While a list is firing no method fires it again, so that `act` leaves nothing out.
  no_second_fire :
      (fs : Arguments F) (a : A) (c : Callbacks F A)
      → c.firing ≡ true
      → ((add f_eq flags fs c).1 ≡ none) × ((fire_with flags a c).1 ≡ none)
  unfolding add fire_with
  no_second_fire fs a c h = ground arith

  -- The list is firing, and the end of the loop is the end of the list.
  abbrev pub Tracks : Callbacks F A → Type 0
  Tracks c = (c.firing ≡ true) × Ends c.list c.firing_length

  add-Tracks : (fs : Arguments F) (c : Callbacks F A) → Tracks c → Tracks (add f_eq flags fs c).0
  unfolding add
  add-Tracks fs c t = ground arith

  remove_one-Tracks : (f : F) (c : Callbacks F A) → Tracks c → Tracks (remove_one f_eq flags f c)
  unfolding remove_one
  remove_one-Tracks f c t = elim (Option-cases c.list) [
    | inl e ↦ ground arith
    | inr (l, e) ↦ ground (arith, remove_from-Cut f_eq flags f 0 l c.firing_length c.next)
  ]

  remove-Tracks : (fs : List F) (c : Callbacks F A) → Tracks c → Tracks (remove f_eq flags fs c)
  unfolding remove
  remove-Tracks [] c t = t
  remove-Tracks (f ∷ fs) c t =
      remove-Tracks fs (remove_one f_eq flags f c) (remove_one-Tracks f c t)

  fire_with-Tracks : (a : A) (c : Callbacks F A) → Tracks c → Tracks (fire_with flags a c).0
  unfolding fire_with
  fire_with-Tracks a c t = ground arith

  act-Tracks : (m : Method F A) (c : Callbacks F A) → Tracks c → Tracks (act m c)
  unfolding act disable lock
  act-Tracks (adds fs) c t = add-Tracks fs c t
  act-Tracks (removes fs) c t = remove-Tracks fs c t
  act-Tracks disables c t = (t.0, tt)
  act-Tracks locks c t = ground arith
  act-Tracks (fires a) c t = fire_with-Tracks a c t

  act_all-Tracks : (ms : List (Method F A)) (c : Callbacks F A) → Tracks c → Tracks (act_all ms c)
  unfolding act_all
  act_all-Tracks [] c t = t
  act_all-Tracks (m ∷ ms) c t = act_all-Tracks ms (act m c) (act-Tracks m c t)

get_elem?_lt {ℓ} :
    {A : Type ℓ} (l : List A) (n : ℕ) → n < length l → (x : A) × (get_elem? l n ≡ some x)
get_elem?_lt [] n h = absurd (omega arith)
get_elem?_lt (x ∷ l) zero h = (x, refl)
get_elem?_lt (x ∷ l) (suc n) h = get_elem?_lt l n (omega arith)

module _ {F A W : Type 0} (f_eq : F → F → Bool) (flags : Flags)
    (script : F → A → List (Method F A) × Bool) (effect : F → A → W → W) where
  -- A function that calls the methods of its script, has an effect on the world, and returns.
  unfoldable pub scripted : F → A → Callbacks F A → W → Result (Bool × Callbacks F A × W)
  unfolding act_all
  scripted f a c w =
      let (methods, refused) = script f a in
      ok (refused, act_all f_eq flags methods c, effect f a w)

  turn-ne-type_error :
      (fuel : ℕ) (a : A) (f : F) (c : Callbacks F A) (w : W)
      → loop flags scripted fuel a (act_all f_eq flags (script f a).0 c) (effect f a w)
        ≢ err type_error
      → (scripted f a c w >>= λ (refused, c', w').
          let rest = loop flags scripted fuel a c' w' in
          if refused && flags.stop_on_false then ok (record c' { memory = halted }, w') else rest)
        ≢ err type_error
  unfolding scripted
  turn-ne-type_error fuel a f c w h = elim (Bool-cases ((script f a).1 && flags.stop_on_false)) [
    | inl stop ↦ rw stop (λ e. cc)
    | inr on ↦ rw on h
  ]

  loop-ne-type_error :
      (fuel : ℕ) (a : A) (c : Callbacks F A) (w : W)
      → Tracks f_eq flags c
      → loop flags scripted fuel a c w ≢ err type_error
  loop-ne-type_error zero a c w t = unfold loop in λ e. cc
  loop-ne-type_error (suc fuel) a c w t = elim (Option-cases c.list) [
    | inl e ↦ rw (loop_disabled flags scripted fuel a c w e) (λ x. cc)
    | inr (l, e) ↦ elim (Bool-cases (ltb c.next c.firing_length)) [
      | inr over ↦ rw (loop_at_end flags scripted fuel a l c w e (ground arith)) (λ x. cc)
      | inl inside ↦
          let ends : c.firing_length ≡ length l = ground arith in
          let (f, here) = get_elem?_lt l c.next (ground arith) in
          let c' = record c { next = c.next + 1 } in
          let rest =
            loop-ne-type_error fuel a (act_all f_eq flags (script f a).0 c') (effect f a w)
              (act_all-Tracks f_eq flags (script f a).0 c' t) in
          rw (loop_turn flags scripted fuel a l f c w e (ground arith) here)
            (turn-ne-type_error fuel a f c' w rest)
    ]
  ]

  -- Behind a loop that does not throw, `finish` throws only where the next call of `fire` does.
  finish-ne-type_error :
      (again : A → Callbacks F A → W → Result (Callbacks F A × W)) (c : Callbacks F A) (w : W)
      → ((a : A) (l : List F) (waiting : List A)
          → again a (record c { list = some l; memory = kept a; stack = some waiting }) w
            ≢ err type_error)
      → (list : Option (List F)) (memory : Memory A) (stack : Option (List A))
      → finish flags scripted again (record c { list = list; memory = memory; stack = stack }) w
        ≢ err type_error
  unfolding finish disable
  finish-ne-type_error again c w h none memory stack e = cc
  finish-ne-type_error again c w h (some l) memory (some (a ∷ waiting)) e =
      let next = h a l waiting in ground arith
  finish-ne-type_error again c w h (some l) memory stack e = ground arith

  -- Whatever methods of their list the functions call while it is firing, short of `empty`, whatever
  -- they return and whatever calls are waiting: no call of `fire` on a list that is not disabled
  -- reads past the end of the list and throws.
  pub fire-ne-type_error :
      (fuel : ℕ) (a : A) (l : List F) (c : Callbacks F A) (w : W)
      → c.list ≡ some l
      → fire flags scripted fuel a c w ≢ err type_error
  fire-ne-type_error zero a l c w e = unfold fire in λ x. cc
  fire-ne-type_error (suc fuel) a l c w e = rw (fire_turn flags scripted fuel a l c w e) (λ x.
      elim (bind-eq-err (loop flags scripted fuel a (started flags a l c) w) _ x) [
        | inl bad ↦ loop-ne-type_error fuel a (started flags a l c) w (refl, rw e refl) bad
        | inr ((c', w'), ran, rest) ↦
            finish-ne-type_error (λ b d v. fire flags scripted fuel b d v)
              (record c' { firing = false }) w'
              (λ b m waiting. fire-ne-type_error fuel b m _ w' refl) c'.list c'.memory c'.stack rest
      ])
