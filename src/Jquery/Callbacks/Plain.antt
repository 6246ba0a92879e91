-- ===== src/Jquery/Callbacks/Plain.antt =====
-- Firing functions that leave their list alone, whatever they do to the world.
use terminator.Base.{
  ℕ, zero, suc, ◌+◌, ◌≤◌, ◌<◌, Bool, true, false, Bool-cases, not, ◌&&◌, ◌||◌, List, [], ◌∷◌,
  Option, none, some, Result, ok, length, drop, get_elem?, if◌then◌else◌, ◌≡◌, ◌⊎◌, le→ltb_false,
  refl, ap, ◌∙◌, inl, inr, arith,
}
use terminator.Jquery.Callbacks.{
  Flags, Memory, unset, halted, kept, Callbacks, started, loop, finish, disable, fire,
}
use terminator.Jquery.Callbacks.Turns.{loop_turn, fire_turn}

module _ {A : Type 0} where
  drop_cons :
      (n : ℕ) (l : List A) (x : A) (xs : List A)
      → drop n l ≡ x ∷ xs
      → (get_elem? l n ≡ some x) × (drop (suc n) l ≡ xs) × (n < length l)
  drop_cons zero [] x xs e = cc
  drop_cons zero (y ∷ l) x xs e = ground arith
  drop_cons (suc n) [] x xs e = cc
  drop_cons (suc n) (y ∷ l) x xs e = let (g, d, lt) = drop_cons n l x xs e in (g, d, omega arith)

  drop_nil : (n : ℕ) (l : List A) → drop n l ≡ [] → length l ≤ n
  drop_nil zero [] e = omega arith
  drop_nil zero (y ∷ l) e = cc
  drop_nil (suc n) [] e = omega arith
  drop_nil (suc n) (y ∷ l) e = omega (arith, drop_nil n l e)

module _ {F A W : Type 0} (flags : Flags)
    (call : F → A → Callbacks F A → W → Result (Bool × Callbacks F A × W)) (refuses : F → A → Bool)
    (note : F → A → W → W)
    (plain : (f : F) (a : A) (c : Callbacks F A) (w : W)
      → call f a c w ≡ ok (refuses f a, c, note f a w)) where
  -- The functions that are called: all, or those up to the first that returns `false`.
  unfoldable pub called : A → List F → List F
  called a [] = []
  called a (f ∷ fs) = f ∷ (if refuses f a && flags.stop_on_false then [] else called a fs)

  -- Whether the calls are interrupted.
  unfoldable pub stops : A → List F → Bool
  stops a [] = false
  stops a (f ∷ fs) = (refuses f a && flags.stop_on_false) || stops a fs

  -- The world after the calls, in order.
  unfoldable pub notes : A → List F → W → W
  notes a [] w = w
  notes a (f ∷ fs) w = notes a fs (note f a w)

  over : A → List F → Callbacks F A → W → Callbacks F A × W
  over a [] c w = (c, w)
  over a (f ∷ fs) c w =
      let c' = record c { next = c.next + 1 } in
      let rest = over a fs c' (note f a w) in
      if refuses f a && flags.stop_on_false
      then (record c' { memory = halted }, note f a w)
      else rest

  loop-over :
      (fuel : ℕ) (a : A) (l rest : List F) (c : Callbacks F A) (w : W)
      → c.list ≡ some l
      → c.firing_length ≡ length l
      → drop c.next l ≡ rest
      → length rest < fuel
      → loop flags call fuel a c w ≡ ok (over a rest c w)
  unfolding loop over
  loop-over zero a l rest c w e n d h = absurd (omega arith)
  loop-over (suc fuel) a l [] c w e n d h =
      let le = drop_nil c.next l d in rw (e, le→ltb_false c.next c.firing_length (omega arith)) refl
  loop-over (suc fuel) a l (f ∷ fs) c w e n d h =
      let (here, later, lt) = drop_cons c.next l f fs d in
      let up : c.next + 1 ≡ suc c.next = omega arith in
      let one : drop (c.next + 1) l ≡ drop (suc c.next) l = ap (λ k. drop k l) up in
      let c' = record c { next = c.next + 1 } in
      let rest = loop-over fuel a l fs c' (note f a w) e n (one ∙ later) (omega arith) in
      loop_turn flags call fuel a l f c w e (omega arith) here
      ∙ rw (plain f a c' w) (elim (Bool-cases (refuses f a && flags.stop_on_false)) [
        | inl stop ↦ rw stop refl
        | inr on ↦ rw on rest
      ])

  -- What the loop leaves.
  over_lem :
      (a : A) (fs : List F) (c : Callbacks F A) (w : W)
      → ((over a fs c w).1 ≡ notes a (called a fs) w)
        × ((over a fs c w).0.list ≡ c.list)
        × ((over a fs c w).0.stack ≡ c.stack)
        × ((over a fs c w).0.fired ≡ c.fired)
        × ((over a fs c w).0.firing_start ≡ c.firing_start)
        × ((over a fs c w).0.memory ≡ (if stops a fs then halted else c.memory))
  unfolding over called stops notes
  over_lem a [] c w = (refl, refl, refl, refl, refl, refl)
  over_lem a (f ∷ fs) c w =
      let rest = over_lem a fs (record c { next = c.next + 1 }) (note f a w) in
      elim (Bool-cases (refuses f a && flags.stop_on_false)) [
        | inl stop ↦ rw stop (refl, refl, refl, refl, refl, refl)
        | inr on ↦ rw on rest
      ]

  -- The list and the memory after a call of `fire`, by the flags.
  unfoldable pub left_list : A → List F → List F → Option (List F)
  left_list a l fs =
      if flags.once then (if stops a fs || not flags.memory then none else some []) else some l

  unfoldable pub left_memory : A → List F → Memory A
  left_memory a fs =
      if stops a fs || not flags.memory then (if flags.once then unset else halted) else kept a

  -- The waiting calls afterwards.
  unfoldable pub left_stack : A → List F → Option (List A) → Option (List A)
  left_stack a fs waiting = if flags.once && (stops a fs || not flags.memory) then none else waiting

  -- The variables after `finish`.
  abbrev ended : A → List F → List F → Option (List A) → Callbacks F A → Callbacks F A
  ended a l fs waiting c = record c {
    list = left_list a l fs;
    stack = left_stack a fs waiting;
    memory = left_memory a fs;
  }

  finish-ended :
      (again : A → Callbacks F A → W → Result (Callbacks F A × W)) (a : A) (l fs : List F)
      (waiting : Option (List A)) (c : Callbacks F A) (w : W)
      → (waiting ≡ some []) ⊎ (waiting ≡ none)
      → finish flags call again
          (record c {
            list = some l;
            stack = waiting;
            memory = if stops a fs then halted else if flags.memory then kept a else halted;
          })
          w
        ≡ ok (ended a l fs waiting c, w)
  unfolding finish disable left_list left_memory left_stack
  finish-ended again a l fs waiting c w idle = ground arith

  -- Firing a list with no waiting calls, whose functions leave it alone, calls the functions from
  -- `firingStart` on in order with the arguments, each once, up to the first that returns `false`
  -- where the list stops on that. It always returns: fuel for one turn for each function and two
  -- more is enough. Afterwards the list is not firing; a list that fires once is empty, or disabled
  -- where it was interrupted or keeps no memory, so that it is fired no more; any other has its
  -- functions; and it remembers the
  -- arguments exactly if it keeps a memory and was not interrupted.
  pub fire_plain :
      (fuel : ℕ) (a : A) (l : List F) (c : Callbacks F A) (w : W)
      → c.list ≡ some l
      → (c.stack ≡ some []) ⊎ (c.stack ≡ none)
      → length (drop c.firing_start l) < fuel
      → (c' : Callbacks F A) × (fire flags call (suc fuel) a c w
          ≡ ok (c', notes a (called a (drop c.firing_start l)) w))
        × (c'.list ≡ left_list a l (drop c.firing_start l))
        × (c'.memory ≡ left_memory a (drop c.firing_start l))
        × (c'.stack ≡ left_stack a (drop c.firing_start l) c.stack)
        × (c'.fired ≡ true)
        × (c'.firing ≡ false)
  fire_plain fuel a l c w e idle enough =
      let fs = drop c.firing_start l in
      let s = started flags a l c in
      let (world, same, stack, fired, start, memory) = over_lem a fs s w in
      let d = record (over a fs s w).0 { firing = false } in
      let again = λ (b : A) (x : Callbacks F A) (v : W). fire flags call fuel b x v in
      let looped = loop-over fuel a l fs s w e refl refl enough in
      let shape : d ≡ record d {
        list = some l;
        stack = c.stack;
        memory = if stops a fs then halted else if flags.memory then kept a else halted;
      } =
        λ i. record d { list = (same ∙ e) i; stack = stack i; memory = memory i } in
      (
        ended a l fs c.stack d,
        fire_turn flags call fuel a l c w e
            ∙ rw looped (
                ap (λ x. finish flags call again x (over a fs s w).1) shape
                ∙ finish-ended again a l fs c.stack d (over a fs s w).1 idle
                ∙ ap (λ v. ok (ended a l fs c.stack d, v)) world),
        refl,
        refl,
        refl,
        fired,
        refl,
      )
