-- ===== src/Mustache/Scanner/Consumes.antt =====
-- The scanner moves through its text: what it returns, and what is left, make up what it had.
use mathlib.Core.Option
use mathlib.Core.List.{append-nil}
use terminator.Base.{
  ℕ, suc, ◌+◌, ◌≤◌, Option, none, some, Bool, true, false, [], ◌∷◌, ◌++◌, Text, length, length-drop,
  length-take, take, drop, take-append-drop, if◌then◌else◌, ◌≡◌, refl, sym, ap, arith, ◌==◌,
}
use terminator.Mustache.Scanner.{
  Regex, white, tag_type, spaced, literal_spaced, Scanner, is_space, prefix, white_length,
  spaced_length, match_here, search, scan, scan_until,
}

-- `t` is the scanner that `s` becomes by consuming `m`.
pub record Consumes (s : Scanner) (m : Text) (t : Scanner) : Type 0 where
  pub same : t.string ≡ s.string
  pub splits : s.tail ≡ m ++ t.tail
  pub moved : t.pos ≡ s.pos + length m

-- A match, if there is one, does not run past `k` characters.
abbrev IsWithin : Option ℕ → ℕ → Type 0
IsWithin none k = Unit
IsWithin (some n) k = n ≤ k

IsWithin-suc : (o : Option ℕ) (k : ℕ) → IsWithin o k → IsWithin (Option.map (λ n. n + 1) o) (suc k)
IsWithin-suc none k h = tt
IsWithin-suc (some n) k h = omega arith

IsWithin-le : (o : Option ℕ) (j k : ℕ) → IsWithin o j → j ≤ k → IsWithin o k
IsWithin-le none j k h le = tt
IsWithin-le (some n) j k h le = omega arith

IsWithin-if :
    (b : Bool) (o q : Option ℕ) (k : ℕ)
    → IsWithin o k
    → IsWithin q k
    → IsWithin (if b then o else q) k
IsWithin-if true o q k h g = h
IsWithin-if false o q k h g = g

prefix-IsWithin : (s t : Text) → IsWithin (prefix s t) (length t)
unfolding prefix
prefix-IsWithin [] t = omega arith
prefix-IsWithin (c ∷ s) [] = tt
prefix-IsWithin (c ∷ s) (d ∷ t) =
    IsWithin-if (c == d) _ none _ (IsWithin-suc (prefix s t) (length t) (prefix-IsWithin s t)) tt

white_length-le : (t : Text) → white_length t ≤ length t
unfolding white_length
white_length-le [] = omega arith
white_length-le (c ∷ t) = ground (arith, white_length-le t)

spaced_length-IsWithin : (s t : Text) → IsWithin (spaced_length s t) (length t)
unfolding spaced_length
spaced_length-IsWithin s [] = prefix-IsWithin s []
spaced_length-IsWithin s (c ∷ t) =
    IsWithin-if (is_space c) _ _ _ (later (spaced_length s t) (spaced_length-IsWithin s t))
      (prefix-IsWithin s (c ∷ t))
  where
    later :
        (o : Option ℕ)
        → IsWithin o (length t)
        → IsWithin (elim o [ some n ↦ some (n + 1) | none ↦ prefix s (c ∷ t) ]) (suc (length t))
    later none h = prefix-IsWithin s (c ∷ t)
    later (some n) h = omega arith

match_here-IsWithin : (re : Regex) (t : Text) → IsWithin (match_here re t) (length t)
unfolding match_here
match_here-IsWithin white t = white_length-le t
match_here-IsWithin tag_type [] = tt
match_here-IsWithin tag_type (c ∷ t) = IsWithin-if _ (some 1) none _ (omega arith) tt
match_here-IsWithin (spaced s) t = spaced_length-IsWithin s t
match_here-IsWithin (literal_spaced s) t = longer (prefix s t) (prefix-IsWithin s t)
  where
    longer :
        (o : Option ℕ)
        → IsWithin o (length t)
        → IsWithin (Option.map (λ n. n + white_length (drop n t)) o) (length t)
    longer none h = tt
    longer (some n) h = omega (arith, white_length-le (drop n t), length-drop n t)

search-IsWithin : (re : Regex) (t : Text) → IsWithin (search re t) (length t)
unfolding search
search-IsWithin re [] = first (match_here re [])
  where
    first : (o : Option ℕ) → IsWithin (elim o [ some n ↦ some 0 | none ↦ none ]) 0
    first none = tt
    first (some n) = omega arith
search-IsWithin re (c ∷ t) =
    first (match_here re (c ∷ t)) (IsWithin-suc (search re t) (length t) (search-IsWithin re t))
  where
    first :
        (o : Option ℕ)
        → IsWithin (Option.map (λ n. n + 1) (search re t)) (suc (length t))
        → IsWithin
            (elim o [ some n ↦ some 0 | none ↦ Option.map (λ n. n + 1) (search re t) ])
            (suc (length t))
    first none h = h
    first (some n) h = omega arith

advance_Consumes :
    (n : ℕ) (s : Scanner)
    → n ≤ length s.tail
    → Consumes s (take n s.tail) (record s { tail = drop n s.tail; pos = s.pos + n })
advance_Consumes n s h = record {
  same = refl;
  splits = sym (take-append-drop n s.tail);
  moved = ap (λ k. s.pos + k) (sym (length-take n s.tail h));
}

-- `scan` returns the text that it takes off the tail, and moves the position past it.
pub scan-Consumes : (re : Regex) (s : Scanner) → Consumes s (scan re s).0 (scan re s).1
unfolding scan
scan-Consumes re s = from_match (match_here re s.tail) (match_here-IsWithin re s.tail)
  where
    moves : Option ℕ → Text × Scanner
    moves o = elim o [
      | some n ↦ (take n s.tail, record s { tail = drop n s.tail; pos = s.pos + n })
      | none ↦ ([], s)
    ]

    from_match : (o : Option ℕ) → IsWithin o (length s.tail) → Consumes s (moves o).0 (moves o).1
    from_match none h = record { same = refl; splits = refl; moved = omega arith }
    from_match (some n) h = advance_Consumes n s h

-- `scanUntil` cuts what it returns off the front of the tail, moves the position on by as many
-- characters, and leaves the template as it is.
pub scan_until-Consumes :
    (re : Regex) (s : Scanner) → Consumes s (scan_until re s).0 (scan_until re s).1
unfolding scan_until
scan_until-Consumes re s = from_search (search re s.tail) (search-IsWithin re s.tail)
  where
    moves : Option ℕ → Text × Scanner
    moves o = elim o [
      | none ↦ (s.tail, record s { tail = []; pos = s.pos + length s.tail })
      | some n ↦ (take n s.tail, record s { tail = drop n s.tail; pos = s.pos + n })
    ]

    from_search : (o : Option ℕ) → IsWithin o (length s.tail) → Consumes s (moves o).0 (moves o).1
    from_search none h = record { same = refl; splits = sym (append-nil s.tail); moved = refl }
    from_search (some n) h = advance_Consumes n s h
