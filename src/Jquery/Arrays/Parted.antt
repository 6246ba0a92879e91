-- ===== src/Jquery/Arrays/Parted.antt =====
-- `grep` with and without its third argument, and as a `map`.
use terminator.Base.{
  ℕ, ◌+◌, Bool, true, false, not, List, [], ◌∷◌, Result, ok, err, ◌>>=◌, if◌then◌else◌, ◌≡◌, refl,
  ap,
}
use terminator.Jquery.Arrays.{grep_from, grep, Mapped, nothing, one, flatten, map_from, map_array}

-- The items of two lists are those of a third, in the same order, each in one of the two.
pub data Parted {A : Type 0} : List A → List A → List A → Type 0 where
  done : Parted [] [] []
  left : {l r m : List A} (a : A) → Parted l r m → Parted (a ∷ l) r (a ∷ m)
  right : {l r m : List A} (a : A) → Parted l r m → Parted l (a ∷ r) (a ∷ m)

-- Two calls throw alike, or part the list and leave the same world.
abbrev pub IsParting : {A W : Type 0} → List A → Result (List A × W) → Result (List A × W) → Type 0
IsParting elems (err x) r = r ≡ err x
IsParting {A} {W} elems (ok (kept, w)) r =
    (dropped : List A) × (r ≡ ok (dropped, w)) × Parted kept dropped elems

module _ {A W : Type 0} where
  -- The result of one turn of the loop.
  abbrev kept_with : A → Bool → List A × W → Result (List A × W)
  kept_with a wanted (rest, w) = ok (if wanted then a ∷ rest else rest, w)

  IsParting-turn :
      (a : A) (l : List A) (ret : Bool) (x y : Result (List A × W))
      → IsParting l x y
      → IsParting (a ∷ l) (x >>= kept_with a ret) (y >>= kept_with a (not ret))
  IsParting-turn a l ret (err e) y h = rw h refl
  IsParting-turn a l true (ok (kept, w)) y (dropped, e, parted) =
      (dropped, rw e refl, Parted.left a parted)
  IsParting-turn a l false (ok (kept, w)) y (dropped, e, parted) =
      (a ∷ dropped, rw e refl, Parted.right a parted)

  IsParting-call :
      (a : A) (l : List A) (r : Result (Bool × W)) (f t : W → Result (List A × W))
      → ((w : W) → IsParting l (f w) (t w))
      → IsParting
          (a ∷ l)
          (r >>= (λ z. f (z.1) >>= kept_with a (z.0)))
          (r >>= (λ z. t (z.1) >>= kept_with a (not (z.0))))
  IsParting-call a l (err e) f t h = refl
  IsParting-call a l (ok (ret, w)) f t h = IsParting-turn a l ret (f w) (t w) (h w)

  -- What `map` makes of the value that a callback returned.
  abbrev flattened : Mapped A → List A × W → Result (List A × W)
  unfolding flatten
  flattened value (rest, w) = ok (flatten value rest, w)

  -- The item where it is wanted, and null where it is not.
  abbrev as_value : A → Bool × W → Result (Mapped A × W)
  as_value a (ret, w) = ok (if ret then one a else nothing, w)

  map_turn :
      (a : A) (r : Result (Bool × W)) (f g : W → Result (List A × W))
      → ((w : W) → f w ≡ g w)
      → (r >>= (λ z. f (z.1) >>= kept_with a (z.0)))
        ≡ ((r >>= as_value a) >>= (λ z. g (z.1) >>= flattened (z.0)))
  unfolding flatten flattened
  map_turn a (err x) f g h = refl
  map_turn a (ok (true, w)) f g h = ap (λ r. r >>= kept_with a true) (h w)
  map_turn a (ok (false, w)) f g h = ap (λ r. r >>= kept_with a false) (h w)

module _ {A W : Type 0} (callback : A → ℕ → W → Result (Bool × W)) where
  grep_from-IsParting :
      (i : ℕ) (elems : List A) (w : W)
      → IsParting elems (grep_from callback false i elems w) (grep_from callback true i elems w)
  unfolding grep_from
  grep_from-IsParting i [] w = ([], refl, Parted.done)
  grep_from-IsParting i (a ∷ l) w =
      IsParting-call a l (callback a i w) (grep_from callback false (i + 1) l)
        (grep_from callback true (i + 1) l) (grep_from-IsParting (i + 1) l)

  -- `grep` and inverted `grep` over the same array, from the same state of the world, throw the same
  -- exception or leave the same world; each item is in exactly one of the two results, in its order.
  pub grep-IsParting :
      (elems : List A) (w : W)
      → IsParting elems (grep callback false elems w) (grep callback true elems w)
  unfolding grep
  grep-IsParting elems w = grep_from-IsParting 0 elems w

  -- The callback of a `map` that keeps what `grep` keeps.
  abbrev pub kept_or_nothing : A → ℕ → W → Result (Mapped A × W)
  kept_or_nothing a i w = callback a i w >>= as_value a

  grep_from-map_from :
      (i : ℕ) (elems : List A) (w : W)
      → grep_from callback false i elems w ≡ map_from kept_or_nothing i elems w
  unfolding grep_from map_from flattened flatten
  grep_from-map_from i [] w = refl
  grep_from-map_from i (a ∷ l) w =
      map_turn a (callback a i w) (grep_from callback false (i + 1) l)
        (map_from kept_or_nothing (i + 1) l) (grep_from-map_from (i + 1) l)

  -- `grep` is the `map` whose callback returns the item where it is wanted and null where it is not.
  pub grep-map_array :
      (elems : List A) (w : W) → grep callback false elems w ≡ map_array kept_or_nothing elems w
  unfolding grep map_array
  grep-map_array elems w = grep_from-map_from 0 elems w
