-- ===== src/Jquery/Examples.antt =====
-- Callbacks, deferreds, queues and class names at concrete inputs, and the theorems there.
use terminator.Base.{
  ℕ, ◌≡◌, ◌≢◌, refl, Bool, true, false, ◌==◌, List, [], ◌∷◌, ◌++◌, none, some, Text, codes, Result,
  ok, err, type_error, inl, inr, arith, if◌then◌else◌,
}
use terminator.Jquery.Callbacks.{
  Flags, kept, Callbacks, fresh, Arguments, function, argument, empty, fire,
}
use terminator.Jquery.Callbacks.Plain.{
  called, stops, notes, left_list, left_memory, left_stack, fire_plain,
}
use terminator.Jquery.Callbacks.Reentry.{Method, adds, removes, scripted, fire-ne-type_error}
use terminator.Jquery.Deferred.{
  pending, resolved, resolve, reject, set_state, disable_opposite, lock_progress, user, Deferred,
  outcome_list, rest_of, outcome_state, settle, notify, on_outcome,
}
use terminator.Jquery.Deferred.Settled.{IsSettled, settle-IsSettled, settle-IsSettled_again}
use terminator.Jquery.Deferred.Late.{one_function, on_outcome-IsSettled}
use terminator.Mustache.Scanner.{is_space}
use terminator.Mustache.Parse.{split_space}
use terminator.Jquery.Classes.{Element, add_class, remove_class, has_class, toggle_class}
use terminator.Jquery.Classes.Added.{has_class-add_class}
use terminator.Jquery.Queue.{Queues}
use terminator.Jquery.Queue.Plain.{Action, next, step}
use terminator.Jquery.Queue.Fifo.{run_all, meant, run_all-meant}

-- A list that is fired once and keeps its arguments.
abbrev one_shot : Flags
one_shot = record { once = true; memory = true; unique = false; stop_on_false = false }

abbrev repeated : Flags
repeated = record { once = false; memory = false; unique = false; stop_on_false = true }

-- A function writes down its number and its argument.
abbrev write_down : ℕ → ℕ → Callbacks ℕ ℕ → List ℕ → Result (Bool × Callbacks ℕ ℕ × List ℕ)
write_down f a c w = ok (false, c, w ++ (f ∷ a ∷ []))

abbrev two_functions : Callbacks ℕ ℕ
two_functions = record fresh { list = some (1 ∷ 2 ∷ []) }

fire_plain_example :
    (c' : Callbacks ℕ ℕ) × (fire one_shot write_down 4 7 two_functions []
      ≡ ok (c', 1 ∷ 7 ∷ 2 ∷ 7 ∷ []))
    × (c'.list ≡ some [])
    × (c'.memory ≡ kept 7)
    × (c'.stack ≡ some [])
    × (c'.fired ≡ true)
    × (c'.firing ≡ false)
unfolding called stops notes left_list left_memory left_stack
fire_plain_example =
    fire_plain one_shot write_down (λ f a. false) (λ f a w. w ++ (f ∷ a ∷ [])) (λ f a c w. refl) 3 7
      (1 ∷ 2 ∷ []) two_functions [] refl (inl refl) (omega arith)

-- The first function adds a third and removes itself.
abbrev changing : ℕ → ℕ → List (Method ℕ ℕ) × Bool
changing f a =
    if f == 1
    then (adds (argument (function 3) Arguments.end) ∷ removes (1 ∷ []) ∷ [], false)
    else ([], false)

fire-ne-type_error_example :
    fire repeated
      (scripted (λ f g. f == g) repeated changing (λ f a w. w ++ (f ∷ [])))
      9
      7
      two_functions
      []
    ≢ err type_error
fire-ne-type_error_example =
    fire-ne-type_error (λ f g. f == g) repeated changing (λ f a w. w ++ (f ∷ [])) 9 7 (1 ∷ 2 ∷ [])
      two_functions [] refl

-- A function empties the list.
abbrev emptying : ℕ → ℕ → Callbacks ℕ ℕ → ℕ → Result (Bool × Callbacks ℕ ℕ × ℕ)
emptying f a c w = ok (false, empty c, 1)

-- A user's function of a deferred writes down its number and its argument.
abbrev write_pair : ℕ → ℕ → Deferred ℕ ℕ → List ℕ → Result (Bool × Deferred ℕ ℕ × List ℕ)
write_pair f a d w = ok (false, d, w ++ (f ∷ a ∷ []))

-- A deferred for which two functions wait where it is resolved.
abbrev waiting : Deferred ℕ ℕ
waiting = record {
  done_list = record fresh {
    list = some (set_state ∷ disable_opposite ∷ lock_progress ∷ user 1 ∷ user 2 ∷ []);
  };
  fail_list = record fresh { list = some (set_state ∷ disable_opposite ∷ lock_progress ∷ []) };
  progress_list = fresh;
  state = pending;
}

settle-IsSettled_example :
    (d' : Deferred ℕ ℕ) × (settle write_pair resolve 10 7 waiting [] ≡ ok (d', 1 ∷ 7 ∷ 2 ∷ 7 ∷ []))
    × IsSettled resolve 7 d'
unfolding outcome_list
settle-IsSettled_example =
    settle-IsSettled write_pair (λ f a. false) (λ f a w. w ++ (f ∷ a ∷ [])) (λ f a d w. refl)
      resolve 9 7 (1 ∷ 2 ∷ []) waiting [] (refl, refl, refl, refl, refl) (omega arith)

-- A deferred that was resolved with 7.
abbrev settled : Deferred ℕ ℕ
settled = record {
  done_list = record fresh { list = some []; memory = kept 7; fired = true };
  fail_list = record fresh { list = none; stack = none };
  progress_list = record fresh { list = none; stack = none };
  state = resolved;
}

settled-IsSettled : IsSettled resolve 7 settled
unfolding outcome_list rest_of outcome_state
settled-IsSettled = (refl, refl, refl, refl, refl, refl, refl, refl)

settle-IsSettled_again_example :
    (settle write_pair resolve 9 8 settled [] ≡ ok (settled, []))
    × (settle write_pair reject 9 8 settled [] ≡ ok (settled, []))
    × (notify write_pair 9 8 settled [] ≡ ok (settled, []))
settle-IsSettled_again_example =
    settle-IsSettled_again write_pair (λ f a. false) (λ f a w. w ++ (f ∷ a ∷ [])) (λ f a d w. refl)
      resolve 9 7 8 settled [] settled-IsSettled

on_outcome-IsSettled_example :
    (d' : Deferred ℕ ℕ) × (on_outcome write_pair
        (λ h k. false)
        (λ f g. f == g)
        resolve
        3
        (one_function 5)
        settled
        []
      ≡ ok (d', 5 ∷ 7 ∷ []))
    × IsSettled resolve 7 d'
on_outcome-IsSettled_example =
    on_outcome-IsSettled write_pair (λ f a. false) (λ f a w. w ++ (f ∷ a ∷ [])) (λ f a d w. refl)
      (λ h k. false) (λ f g. f == g) resolve 2 7 5 settled [] settled-IsSettled (omega arith)

-- A queue that is idle, with one array left from before.
abbrev idle_queue : Queues ℕ ℕ
idle_queue = record {
  arrays = [] ∷ [];
  queue = none;
  mark = 0;
  run = false;
  defer = none;
  timers = [];
}

abbrev actions : List (Action ℕ)
actions = Action.add 1 ∷ Action.add 2 ∷ Action.add 3 ∷ next ∷ next ∷ next ∷ Action.add 4 ∷ []

run_all-meant_example :
    (s' : Queues ℕ ℕ) × (run_all (λ f s w. ok (s, w ++ (f ∷ []))) actions idle_queue []
      ≡ ok (s', 1 ∷ 2 ∷ 3 ∷ 4 ∷ []))
unfolding meant step
run_all-meant_example =
    run_all-meant (λ f s w. ok (s, w ++ (f ∷ []))) (λ f w. w ++ (f ∷ [])) (λ f s w. refl) actions
      none idle_queue [] refl

abbrev text_node : Element
text_node = record { node_type = 3; class_name = []; stored = none }

abbrev paragraph : Text → Element
paragraph names = record { node_type = 1; class_name = names; stored = none }

has_class-add_class_example :
    has_class (codes "b") (add_class (codes "a b") (text_node ∷ paragraph (codes " c\td") ∷ []))
    ≡ true
unfolding split_space is_space
has_class-add_class_example =
    has_class-add_class (codes "a b") (codes "b") (text_node ∷ paragraph (codes " c\td") ∷ [])
      (refl, (refl, tt)) (inr (inl refl)) (inr (inl refl))

-- A class name that occurs twice is removed once.
remove_class_test :
    has_class (codes "a") (remove_class (some (codes "a")) (paragraph (codes "a a") ∷ [])) ≡ true
unfolding has_class remove_class
remove_class_test = refl

toggle_class_test :
    has_class (codes "a") (toggle_class (codes "a b") none (paragraph (codes "a") ∷ [])) ≡ false
unfolding has_class toggle_class
toggle_class_test = refl
