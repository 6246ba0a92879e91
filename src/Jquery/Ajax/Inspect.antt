-- ===== src/Jquery/Ajax/Inspect.antt =====
-- `addToPrefiltersOrTransports` and `inspectPrefiltersOrTransports`.
pub mod Transport
use terminator.Base.{
  ℕ, zero, suc, Bool, true, false, not, ◌&&◌, ◌||◌, List, [], ◌∷◌, ◌++◌, Option, none, some, Text,
  codes, text_eq, Result, ok, err, out_of_fuel, ◌>>=◌, ◌==◌, if◌then◌else◌,
}
use terminator.Registry.Table.{get, set}
use terminator.Mustache.Parse.{split_space}

-- What a prefilter or a transport returns: a string, another value that is not false, or neither.
pub data Selection (T : Type 0) : Type 0 where
  nothing : Selection T
  redirect : Text → Selection T
  transport : T → Selection T

abbrev pub is_truthy : {T : Type 0} → Selection T → Bool
is_truthy nothing = false
is_truthy (redirect []) = false
is_truthy _ = true

-- The functions of each data type, in order.
abbrev pub Structure : Type 0 → Type 0
Structure F = List (Text × List F)

abbrev pub list_of : {F : Type 0} → Text → Structure F → List F
list_of type structure = elim (get type structure) [ none ↦ [] | some l ↦ l ]

abbrev pub star : Text
star = codes "*"

-- `dataType.substr(1) || "*"`
abbrev or_star : Text → Text
or_star [] = star
or_star t = t

-- One data type of the expression.
unfoldable pub add_function : {F : Type 0} → Text → F → Structure F → Structure F
add_function [] func structure = set [] (list_of [] structure ++ (func ∷ [])) structure
add_function (c ∷ t) func structure =
    if c == b'+'
    then set (or_star t) (func ∷ list_of (or_star t) structure) structure
    else set (c ∷ t) (list_of (c ∷ t) structure ++ (func ∷ [])) structure

unfoldable pub add_functions : {F : Type 0} → List Text → F → Structure F → Structure F
unfolding add_function
add_functions [] func structure = structure
add_functions (t ∷ ts) func structure = add_functions ts func (add_function t func structure)

-- `addToPrefiltersOrTransports`; no expression stands for "*".
unfoldable pub add_to : {F : Type 0} → (Text → Text) → Option Text → F → Structure F → Structure F
unfolding add_functions split_space
add_to lower none func structure = add_functions (star ∷ []) func structure
add_to lower (some expression) func structure =
    add_functions (split_space false [] (lower expression)) func structure

unfoldable pub is_inspected : Text → List Text → Bool
is_inspected t [] = false
is_inspected t (u ∷ us) = text_eq t u || is_inspected t us

-- What the calls change: `options.dataTypes`, `inspected`, and what the functions act on.
pub record Inspection (W : Type 0) : Type 0 where
  pub data_types : List Text
  pub inspected : List Text
  pub world : W

module _ {F T W : Type 0} (call : F → W → Selection T × W) (execute_only : Bool) where
  -- What becomes of the value that a function returned, where `again` inspects another data type.
  unfoldable pub follow :
      (Text → Inspection W → Result (Selection T × Inspection W))
      → Selection T
      → Inspection W
      → Result (Selection T × Inspection W)
  unfolding is_inspected
  follow again (redirect t) s =
      let there = again t (record s { data_types = t ∷ s.data_types }) in
      if not execute_only || is_inspected t s.inspected then ok (nothing, s) else there
  follow again selection s = ok (selection, s)

  -- The loop over the functions, from the selection so far.
  unfoldable pub each_function :
      (Text → Inspection W → Result (Selection T × Inspection W))
      → List F
      → Selection T
      → Inspection W
      → Result (Selection T × Inspection W)
  unfolding follow
  each_function again [] selection s = ok (selection, s)
  each_function again (f ∷ fs) selection s =
      let (value, w) = call f s.world in
      let turn =
        (follow again value (record s { world = w }) >>= λ (found, s').
        each_function again fs found s') in
      if execute_only || not (is_truthy selection) then turn else ok (selection, s)

  -- On fuel, since a function may send the inspection on to another data type.
  unfoldable pub inspect :
      ℕ → Structure F → Text → Inspection W → Result (Selection T × Inspection W)
  unfolding each_function is_inspected
  inspect zero structure type s = err out_of_fuel
  inspect (suc fuel) structure type s =
      let again = λ (t : Text) (s' : Inspection W). inspect fuel structure t s' in
      each_function again (list_of type structure) nothing
        (record s { inspected = type ∷ s.inspected })
      >>= λ (found, s').
          let catch_all = again star s' in
          if (execute_only || not (is_truthy found)) && not (is_inspected star s'.inspected)
          then catch_all
          else ok (found, s')
