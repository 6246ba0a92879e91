-- ===== src/Jquery/Arrays.antt =====
-- The array utilities of jQuery and the sets of elements it hands out. Callbacks act on the world `W` and
-- may throw, but leave the array they are called for alone.
pub mod Search
pub mod Picked
pub mod Parted
pub mod Visits
mod Examples
use terminator.Base.{
  ℕ, zero, suc, ◌+◌, ◌-◌, Bool, true, false, not, List, [], ◌∷◌, ◌++◌, Option, none, some, Text,
  codes, Result, ok, err, ◌>>=◌, ℤ, pos, negsuc, length, get_elem?, take, drop, ltb, if◌then◌else◌,
}

-- The place that an index counts from the end stands for, within the bounds of an array of `len` items.
unfoldable pub bounded : ℤ → ℕ → ℕ
bounded (pos n) len = if ltb len n then len else n
bounded (negsuc n) len = len - suc n

-- `array[ i ]`
unfoldable pub item_at : {A : Type 0} → List A → ℤ → Option A
item_at l (pos n) = get_elem? l n
item_at l (negsuc n) = none

-- `a + n` for an integer `a`
unfoldable pub plus : ℤ → ℕ → ℤ
plus (pos a) n = pos (a + n)
plus (negsuc a) n = if ltb a n then pos (n - suc a) else negsuc (a - n)

-- A value that has a length or has none; `none` stands for an undefined item.
pub data ArrayLike (A : Type 0) : Type 0 where
  sized unsized : List (Option A) → ArrayLike A

-- What `makeArray` is given: null, a value that is no array to it, or one that is.
pub data Given (A : Type 0) : Type 0 where
  missing : Given A
  single : A → Given A
  array : ArrayLike A → Given A

module _ {A : Type 0} where
  -- The loop over `second[j]` until it is undefined.
  unfoldable pub defined : List (Option A) → List (Option A)
  defined [] = []
  defined (none ∷ l) = []
  defined (some a ∷ l) = some a ∷ defined l

  unfoldable pub merge : List (Option A) → ArrayLike A → List (Option A)
  unfolding defined
  merge first (sized second) = first ++ second
  merge first (unsized second) = first ++ defined second

  unfoldable pub make_array : Given A → List (Option A) → List (Option A)
  unfolding merge
  make_array missing results = results
  make_array (single a) results = results ++ (some a ∷ [])
  make_array (array l) results = merge results l

  -- The loop of `inArray` from index `i` on; `none` stands for a hole of a sparse array.
  unfoldable pub index_from : (A → A → Bool) → A → ℕ → List (Option A) → ℤ
  index_from same elem i [] = negsuc 0
  index_from same elem i (none ∷ l) = index_from same elem (i + 1) l
  index_from same elem i (some a ∷ l) =
      let later = index_from same elem (i + 1) l in if same a elem then pos i else later

  unfoldable pub in_array : (A → A → Bool) → A → Option (List (Option A)) → ℤ → ℤ
  unfolding index_from bounded
  in_array same elem none i = negsuc 0
  in_array same elem (some l) i =
      let start = bounded i (length l) in index_from same elem start (drop start l)

-- What a callback of `map` returns: null, an array, which is flattened, or another value.
pub data Mapped (B : Type 0) : Type 0 where
  nothing : Mapped B
  one : B → Mapped B
  many : List B → Mapped B

module _ {A W : Type 0} where
  -- The loop of `grep` from index `i` on.
  unfoldable pub grep_from :
      (A → ℕ → W → Result (Bool × W)) → Bool → ℕ → List A → W → Result (List A × W)
  grep_from callback inv i [] w = ok ([], w)
  grep_from callback inv i (a ∷ l) w = do
    (ret, w₁) ← callback a i w
    (rest, w₂) ← grep_from callback inv (i + 1) l w₁
    let wanted = (if inv then not ret else ret)
    ok (if wanted then a ∷ rest else rest, w₂)

  unfoldable pub grep : (A → ℕ → W → Result (Bool × W)) → Bool → List A → W → Result (List A × W)
  unfolding grep_from
  grep callback inv elems w = grep_from callback inv 0 elems w

  -- The loop of `each`, which a callback ends that returns false.
  unfoldable pub each_from : (A → ℕ → W → Result (Bool × W)) → ℕ → List A → W → Result W
  each_from callback i [] w = ok w
  each_from callback i (a ∷ l) w = do
    (go_on, w₁) ← callback a i w
    let rest = each_from callback (i + 1) l w₁
    if go_on then rest else ok w₁

  -- `each` over an array
  unfoldable pub each : (A → ℕ → W → Result (Bool × W)) → List A → W → Result W
  unfolding each_from
  each callback object w = each_from callback 0 object w

unfoldable pub flatten : {B : Type 0} → Mapped B → List B → List B
flatten nothing rest = rest
flatten (one b) rest = b ∷ rest
flatten (many l) rest = l ++ rest

module _ {A B W : Type 0} where
  unfoldable pub map_from :
      (A → ℕ → W → Result (Mapped B × W)) → ℕ → List A → W → Result (List B × W)
  unfolding flatten
  map_from callback i [] w = ok ([], w)
  map_from callback i (a ∷ l) w = do
    (value, w₁) ← callback a i w
    (rest, w₂) ← map_from callback (i + 1) l w₁
    ok (flatten value rest, w₂)

  -- `map` over an array
  unfoldable pub map_array : (A → ℕ → W → Result (Mapped B × W)) → List A → W → Result (List B × W)
  unfolding map_from
  map_array callback elems w = map_from callback 0 elems w

-- A set of elements, with its selector and the set it was made from.
pub data Matched (A : Type 0) : Type 0 where
  root : List A → Text → Matched A
  pushed : List A → Text → Matched A → Matched A

module _ {A : Type 0} where
  unfoldable pub items : Matched A → List A
  items (root l selector) = l
  items (pushed l selector previous) = l

  unfoldable pub selector_of : Matched A → Text
  selector_of (root l selector) = selector
  selector_of (pushed l selector previous) = selector

  -- `pushStack`, for a name other than `find`
  unfoldable pub push_stack : List A → Text → Text → Matched A → Matched A
  unfolding selector_of
  push_stack elems name selector m =
      pushed elems (selector_of m ++ codes "." ++ name ++ codes "(" ++ selector ++ codes ")") m

  -- `prevObject`, or an empty set
  unfoldable pub end : Matched A → Matched A
  end (root l selector) = root [] []
  end (pushed l selector previous) = previous

  -- `get` with a number
  unfoldable pub get_at : Matched A → ℤ → Option A
  unfolding items item_at plus
  get_at m (pos n) = item_at (items m) (pos n)
  get_at m (negsuc n) = item_at (items m) (plus (negsuc n) (length (items m)))

-- `shown` gives the text of the arguments, joined by commas.
module _ {A : Type 0} (shown : List ℤ → Text) where
  unfoldable pub slice : ℤ → Option ℤ → Matched A → Matched A
  unfolding items push_stack bounded
  slice start none m =
      push_stack (drop (bounded start (length (items m))) (items m)) (codes "slice")
        (shown (start ∷ [])) m
  slice start (some stop) m =
      push_stack
        (drop (bounded start (length (items m))) (take (bounded stop (length (items m))) (items m)))
        (codes "slice") (shown (start ∷ stop ∷ [])) m

  unfoldable pub eq : ℤ → Matched A → Matched A
  unfolding slice plus
  eq (negsuc zero) m = slice (negsuc zero) none m
  eq i m = slice i (some (plus i 1)) m

  unfoldable pub first : Matched A → Matched A
  unfolding eq
  first m = eq (pos 0) m

  unfoldable pub last : Matched A → Matched A
  unfolding eq
  last m = eq (negsuc 0) m
