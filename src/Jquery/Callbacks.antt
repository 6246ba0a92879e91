-- ===== src/Jquery/Callbacks.antt =====
-- `jQuery.Callbacks`: lists of functions that are called together. The functions may act on their own
-- list while it is being fired; what else they act on is the world `W`.
pub mod Turns
pub mod Plain
pub mod Reentry
pub mod Emptied
use terminator.Base.{
  ℕ, zero, suc, ◌+◌, ◌-◌, Bool, true, false, not, ◌&&◌, ◌||◌, List, [], ◌∷◌, ◌++◌, Option, none,
  some, Text, codes, text_eq, Result, ok, err, ◌>>=◌, type_error, out_of_fuel, length, get_elem?,
  ltb, leb, if◌then◌else◌,
}
use terminator.Mustache.Parse.{split_space}

-- The properties of the object that `createFlags` makes of a string.
pub record Flags : Type 0 where
  pub once : Bool
  pub memory : Bool
  pub unique : Bool
  pub stop_on_false : Bool

unfoldable pub is_flag : Text → List Text → Bool
is_flag flag [] = false
is_flag flag (t ∷ ts) = text_eq t flag || is_flag flag ts

unfoldable pub create_flags : Text → Flags
unfolding is_flag split_space
create_flags flags =
    let names = split_space false [] flags in
    record {
      once = is_flag (codes "once") names;
      memory = is_flag (codes "memory") names;
      unique = is_flag (codes "unique") names;
      stop_on_false = is_flag (codes "stopOnFalse") names;
    }

-- The variable `memory`: undefined, `true`, or a context with arguments.
pub data Memory (A : Type 0) : Type 0 where
  unset halted : Memory A
  kept : A → Memory A

-- The variables of one list over functions `F` and arguments `A`, which hold the context too. `list`
-- and `stack` are none where they are undefined. `next` is `firingIndex + 1`, since the index of the
-- function that runs may fall to -1.
pub record Callbacks (F A : Type 0) : Type 0 where
  pub list : Option (List F)
  pub stack : Option (List A)
  pub memory : Memory A
  pub fired : Bool
  pub firing : Bool
  pub firing_start : ℕ
  pub firing_length : ℕ
  pub next : ℕ

abbrev pub fresh : {F A : Type 0} → Callbacks F A
fresh = record {
  list = some [];
  stack = some [];
  memory = unset;
  fired = false;
  firing = false;
  firing_start = 0;
  firing_length = 0;
  next = 0;
}

-- An argument of `add`: a function, an array of arguments, or anything else.
mutual
  pub data Argument (F : Type 0) : Type 0 where
    function : F → Argument F
    array : Arguments F → Argument F
    other : Argument F

  pub data Arguments (F : Type 0) : Type 0 where
    end : Arguments F
    argument : Argument F → Arguments F → Arguments F

module _ {F : Type 0} (f_eq : F → F → Bool) where
  -- The loop of `has`.
  unfoldable pub has_function : F → List F → Bool
  has_function f [] = false
  has_function f (g ∷ l) = f_eq f g || has_function f l

  unfoldable pub has : {A : Type 0} → F → Callbacks F A → Bool
  unfolding has_function
  has f c = elim c.list [ none ↦ false | some l ↦ has_function f l ]

module _ {F : Type 0} (f_eq : F → F → Bool) (flags : Flags) where
  -- The inner `add`.
  unfoldable mutual
    unfolding has_function

    pub add_argument : Argument F → List F → List F
    add_argument (function f) l = if flags.unique && has_function f_eq f l then l else l ++ (f ∷ [])
    add_argument (array fs) l = add_arguments fs l
    add_argument other l = l

    pub add_arguments : Arguments F → List F → List F
    add_arguments end l = l
    add_arguments (argument f fs) l = add_arguments fs (add_argument f l)

  -- `add` up to its call of `fire`: the list afterwards, and the arguments to fire with, if any.
  unfoldable pub add : {A : Type 0} → Arguments F → Callbacks F A → Callbacks F A × Option A
  unfolding add_arguments
  add fs c = elim c.list [
    | none ↦ (c, none)
    | some l ↦
        let l' = add_arguments fs l in
        if c.firing
        then (record c { list = some l'; firing_length = length l' }, none)
        else elim c.memory [
          | kept a ↦ (record c { list = some l'; firing_start = length l }, some a)
          | _ ↦ (record c { list = some l' }, none)
        ]
  ]

  -- The inner loop of `remove` from index `i` on: the list with `firingLength` and `next`.
  unfoldable pub remove_from : Bool → F → ℕ → List F → ℕ × ℕ → List F × ℕ × ℕ
  remove_from firing f i [] (len, next) = ([], len, next)
  remove_from firing f i (g ∷ l) (len, next) = elim (f_eq f g) [
    | true ↦
        let inside = firing && leb i len in
        let len' = (if inside then len - 1 else len) in
        let next' = (if inside && ltb i next then next - 1 else next) in
        let rest = remove_from firing f i l (len', next') in
        if flags.unique then (l, len', next') else rest
    | false ↦
        let (l', len', next') = remove_from firing f (i + 1) l (len, next) in (g ∷ l', len', next')
  ]

  -- One argument of `remove`.
  unfoldable pub remove_one : {A : Type 0} → F → Callbacks F A → Callbacks F A
  unfolding remove_from
  remove_one f c = elim c.list [
    | none ↦ c
    | some l ↦
        let (l', len, next) = remove_from c.firing f 0 l (c.firing_length, c.next) in
        record c { list = some l'; firing_length = len; next = next }
  ]

  unfoldable pub remove : {A : Type 0} → List F → Callbacks F A → Callbacks F A
  unfolding remove_one
  remove [] c = c
  remove (f ∷ fs) c = remove fs (remove_one f c)

module _ {F A : Type 0} where
  unfoldable pub empty : Callbacks F A → Callbacks F A
  empty c = record c { list = some [] }

  unfoldable pub disable : Callbacks F A → Callbacks F A
  disable c = record c { list = none; stack = none; memory = unset }

  unfoldable pub disabled : Callbacks F A → Bool
  disabled c = elim c.list [ none ↦ true | some l ↦ false ]

  unfoldable pub lock : Callbacks F A → Callbacks F A
  unfolding disable
  lock c = elim c.memory [
    | kept a ↦ record c { stack = none }
    | _ ↦ disable (record c { stack = none })
  ]

  unfoldable pub locked : Callbacks F A → Bool
  locked c = elim c.stack [ none ↦ true | some l ↦ false ]

abbrev pub is_set : {A : Type 0} → Memory A → Bool
is_set unset = false
is_set _ = true

module _ {F A : Type 0} (flags : Flags) where
  -- `fireWith` up to its call of `fire`: the list afterwards, and the arguments to fire with, if any.
  unfoldable pub fire_with : A → Callbacks F A → Callbacks F A × Option A
  fire_with a c = elim c.stack [
    | none ↦ (c, none)
    | some waiting ↦
        if c.firing
        then (if flags.once then c else record c { stack = some (waiting ++ (a ∷ [])) }, none)
        else (c, if flags.once && is_set c.memory then none else some a)
  ]

  -- The variables as `fire` sets them before its loop.
  abbrev pub started : A → List F → Callbacks F A → Callbacks F A
  started a l c = record c {
    memory = if flags.memory then kept a else halted;
    fired = true;
    firing = true;
    next = c.firing_start;
    firing_start = 0;
    firing_length = length l;
  }

-- A function is called with the arguments and acts on the list and on the world; the result tells
-- whether it returned `false`.
module _ {F A W : Type 0} (flags : Flags)
    (call : F → A → Callbacks F A → W → Result (Bool × Callbacks F A × W)) where
  -- The `for` loop of `fire`, on fuel: functions may add functions for ever.
  unfoldable pub loop : ℕ → A → Callbacks F A → W → Result (Callbacks F A × W)
  loop zero a c w = err out_of_fuel
  loop (suc fuel) a c w = elim c.list [
    | none ↦ ok (c, w)
    | some l ↦
        let turn : Result (Callbacks F A × W) = (elim (get_elem? l c.next) [
          | none ↦ err type_error
          | some f ↦ call f a (record c { next = c.next + 1 }) w >>= λ (refused, c', w').
              let rest = loop fuel a c' w' in
              if refused && flags.stop_on_false
              then ok (record c' { memory = halted }, w')
              else rest
        ]) in
        if ltb c.next c.firing_length then turn else ok (c, w)
  ]

  -- `fire` behind its loop, where `again` is the next call of `fire`.
  unfoldable pub finish :
      (A → Callbacks F A → W → Result (Callbacks F A × W))
      → Callbacks F A
      → W
      → Result (Callbacks F A × W)
  unfolding disable
  finish again c w = elim c.list [
    | none ↦ ok (c, w)
    | some l ↦
        if flags.once
        then elim c.memory [ halted ↦ ok (disable c, w) | _ ↦ ok (record c { list = some [] }, w) ]
        else elim c.stack [
          | some (a ∷ as') ↦ again a (record c { memory = kept a; stack = some as' }) w
          | _ ↦ ok (c, w)
        ]
  ]

  unfoldable pub fire : ℕ → A → Callbacks F A → W → Result (Callbacks F A × W)
  unfolding loop finish
  fire zero a c w = err out_of_fuel
  fire (suc fuel) a c w = elim c.list [
    | none ↦ err type_error
    | some l ↦ loop fuel a (started flags a l c) w >>= λ (c', w').
        finish (λ b d v. fire fuel b d v) (record c' { firing = false }) w'
  ]

  -- A method that may end in a call of `fire`.
  unfoldable pub perform : ℕ → Callbacks F A × Option A → W → Result (Callbacks F A × W)
  unfolding fire
  perform fuel (c, none) w = ok (c, w)
  perform fuel (c, some a) w = fire fuel a c w
