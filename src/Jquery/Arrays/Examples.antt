-- ===== src/Jquery/Arrays/Examples.antt =====
-- Arrays and sets at concrete inputs, and the theorems there.
use terminator.Base.{
  ℕ, ◌≡◌, refl, Bool, true, ◌==◌, List, [], ◌∷◌, ◌++◌, Option, none, some, codes, Result, ok, pos,
  negsuc,
}
use terminator.Jquery.Arrays.{Matched, root, in_array, grep}
use terminator.Jquery.Arrays.Search.{IsStart, IsFirst, in_array-IsFirst}

abbrev three : Matched ℕ
three = root (4 ∷ 5 ∷ 6 ∷ []) (codes "p")

-- A sparse array.
abbrev sparse : List (Option ℕ)
sparse = some 4 ∷ none ∷ some 6 ∷ some 4 ∷ []

in_array_test : in_array (λ a b. a == b) 4 (some sparse) (negsuc 2) ≡ pos 3
unfolding in_array
in_array_test = refl

in_array-IsFirst_example :
    (start : ℕ) × IsStart (negsuc 2) 4 start
    × IsFirst (λ a b. a == b) 4 sparse start (in_array (λ a b. a == b) 4 (some sparse) (negsuc 2))
in_array-IsFirst_example = in_array-IsFirst (λ a b. a == b) 4 sparse (negsuc 2)

-- A callback that wants the number 5 only, and writes down the index.
abbrev wants_five : ℕ → ℕ → List ℕ → Result (Bool × List ℕ)
wants_five a i w = ok (a == 5, w ++ (i ∷ []))

grep_test : grep wants_five true (4 ∷ 5 ∷ 6 ∷ []) [] ≡ ok (4 ∷ 6 ∷ [], 0 ∷ 1 ∷ 2 ∷ [])
unfolding grep
grep_test = refl
