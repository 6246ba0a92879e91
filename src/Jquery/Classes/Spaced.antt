-- ===== src/Jquery/Classes/Spaced.antt =====
-- Names between spaces, and what trimming and replacing white space does to them.
use mathlib.Core.List.{append_assoc}
use terminator.Base.{
  ℕ, Bool, true, false, Bool-cases, ◌||◌, [], ◌∷◌, ◌++◌, Text, map, All, ◌≡◌, inl, inr, refl, ap,
  ap₂, sym, ◌∙◌, arith,
}
use terminator.Mustache.Scanner.{is_space}
use terminator.Jquery.Classes.{
  is_prefix, occurs, blank, trim_left, cons_nonblank, trim_right, trim, spaced, is_nothing,
}

-- A class name: not empty, and without spaces.
abbrev pub IsWord : Text → Type 0
IsWord c = (is_nothing c ≡ false) × All (λ d. is_space d ≡ false) c

-- The text occurs in the other.
abbrev Within : Text → Text → Type 0
Within p t = (u : Text) × (v : Text) × (t ≡ u ++ p ++ v)

is_prefix-append : (p v : Text) → is_prefix p (p ++ v) ≡ true
unfolding is_prefix
is_prefix-append [] v = refl
is_prefix-append (c ∷ p) v = ground (arith, is_prefix-append p v)

prefix_split : (p t : Text) → is_prefix p t ≡ true → (v : Text) × (t ≡ p ++ v)
unfolding is_prefix
prefix_split [] t h = (t, refl)
prefix_split (c ∷ p) [] h = cc
prefix_split (c ∷ p) (d ∷ t) h =
    let (v, e) = prefix_split p t (ground arith) in
    let same : d ≡ c = ground arith in (v, ap₂ (λ x y. x ∷ y) same e)

occurs-Within : (p t : Text) → occurs p t ≡ true → Within p t
unfolding occurs
occurs-Within p [] h = let (v, e) = prefix_split p [] h in ([], v, e)
occurs-Within p (d ∷ t) h = elim (Bool-cases (is_prefix p (d ∷ t))) [
  | inl here ↦ let (v, e) = prefix_split p (d ∷ t) here in ([], v, e)
  | inr later ↦ let (u, v, e) = occurs-Within p t (rw later at h) in (d ∷ u, v, ap (λ l. d ∷ l) e)
]

pub or_true : (b : Bool) → (b || true) ≡ true
or_true true = refl
or_true false = refl

Within-occurs : (p u v : Text) → occurs p (u ++ p ++ v) ≡ true
unfolding occurs
Within-occurs [] [] [] = unfold is_prefix in refl
Within-occurs [] [] (d ∷ v) = unfold is_prefix in refl
Within-occurs (c ∷ p) [] v = rw (is_prefix-append (c ∷ p) v) refl
Within-occurs p (d ∷ u) v = rw (Within-occurs p u v) (or_true (is_prefix p (d ∷ (u ++ p ++ v))))

-- The name occurs between two spaces.
abbrev pub IsIn : Text → Text → Type 0
IsIn c t = (u : Text) × (v : Text) × (t ≡ u ++ (b' ' ∷ (c ++ (b' ' ∷ v))))

around : (c u v : Text) → u ++ spaced c ++ v ≡ u ++ (b' ' ∷ (c ++ (b' ' ∷ v)))
around c u v = simp append_assoc refl

pub occurs-IsIn : (c t : Text) → occurs (spaced c) t ≡ true → IsIn c t
occurs-IsIn c t h = let (u, v, e) = occurs-Within (spaced c) t h in (u, v, e ∙ around c u v)

pub IsIn-occurs : (c t : Text) → IsIn c t → occurs (spaced c) t ≡ true
IsIn-occurs c t (u, v, e) =
    ap (occurs (spaced c)) (e ∙ sym (around c u v)) ∙ Within-occurs (spaced c) u v

pub IsIn-append : (c t r : Text) → IsIn c t → IsIn c (t ++ r)
IsIn-append c t r (u, v, e) = (u, v ++ r, ap (λ l. l ++ r) e ∙ simp append_assoc refl)

cons_nonblank_lem : (d : ℕ) (t : Text) → is_space d ≡ false → cons_nonblank d t ≡ d ∷ t
cons_nonblank_lem d [] h = rw h refl
cons_nonblank_lem d (e ∷ t) h = refl

cons_nonblank_more : (x d : ℕ) (a r : Text) → cons_nonblank x (a ++ (d ∷ r)) ≡ x ∷ (a ++ (d ∷ r))
cons_nonblank_more x d [] r = refl
cons_nonblank_more x d (y ∷ a) r = refl

trim_right_tail : (v : Text) → (v' : Text) × (trim_right (b' ' ∷ v) ++ (b' ' ∷ []) ≡ b' ' ∷ v')
unfolding trim_right is_space
trim_right_tail v =
    elim (trim_right v)
      as (λ t. (v' : Text) × (cons_nonblank (b' ') t ++ (b' ' ∷ []) ≡ b' ' ∷ v')) [
        | [] ↦ ([], refl)
        | d ∷ t ↦ (d ∷ (t ++ (b' ' ∷ [])), refl)
      ]

trim_right_word :
    (c r : Text) → All (λ d. is_space d ≡ false) c → trim_right (c ++ r) ≡ c ++ trim_right r
unfolding trim_right
trim_right_word [] r h = refl
trim_right_word (d ∷ c) r (h, hs) =
    ap (cons_nonblank d) (trim_right_word c r hs) ∙ cons_nonblank_lem d (c ++ trim_right r) h

trim_right_before :
    (a c r : Text) → IsWord c → trim_right (a ++ (c ++ r)) ≡ a ++ (c ++ trim_right r)
unfolding trim_right
trim_right_before [] c r (some_char, word) = trim_right_word c r word
trim_right_before (x ∷ a) [] r (some_char, word) = cc
trim_right_before (x ∷ a) (d ∷ c) r word =
    ap (cons_nonblank x) (trim_right_before a (d ∷ c) r word)
    ∙ cons_nonblank_more x d a (c ++ trim_right r)

trim_left_word : (c r : Text) → IsWord c → trim_left (c ++ r) ≡ c ++ r
unfolding trim_left
trim_left_word [] r (some_char, word) = cc
trim_left_word (d ∷ c) r (some_char, (h, hs)) = rw h refl

trim_left_around :
    (c u v : Text)
    → IsWord c
    → (a : Text) × (w : Text) × (trim_left (u ++ (b' ' ∷ (c ++ (b' ' ∷ v))))
        ≡ a ++ (c ++ (b' ' ∷ v)))
      × (b' ' ∷ a ≡ w ++ (b' ' ∷ []))
unfolding trim_left is_space
trim_left_around c [] v word = ([], [], trim_left_word c (b' ' ∷ v) word, refl)
trim_left_around c (x ∷ u) v word = elim (Bool-cases (is_space x)) [
  | inl blank_x ↦ let (a, w, e, ends) = trim_left_around c u v word in (a, w, rw blank_x e, ends)
  | inr char ↦
      (x ∷ (u ++ (b' ' ∷ [])), b' ' ∷ x ∷ u, rw (trim_left, char) (simp append_assoc refl), refl)
]

pub trim-IsIn : (c t : Text) → IsWord c → IsIn c t → IsIn c (spaced (trim t))
unfolding trim
trim-IsIn c t word (u, v, e) =
    let (a, w, left, ends) = trim_left_around c u v word in
    let (v', tail) = trim_right_tail v in
    let whole : trim t ≡ a ++ (c ++ trim_right (b' ' ∷ v)) =
      ap (λ l. trim_right (trim_left l)) e
      ∙ ap trim_right left
      ∙ trim_right_before a c (b' ' ∷ v) word in
    let closed : a ++ (c ++ trim_right (b' ' ∷ v)) ++ (b' ' ∷ []) ≡ a ++ (c ++ (b' ' ∷ v')) =
      simp append_assoc (ap (λ l. a ++ (c ++ l)) tail) in
    (
      w,
      v',
      ap spaced whole
          ∙ ap (λ l. b' ' ∷ l) closed
          ∙ ap (λ l. l ++ (c ++ (b' ' ∷ v'))) ends
          ∙ simp append_assoc refl,
    )

blank_char : (d : ℕ) → is_space d ≡ false → blank d ≡ d
unfolding blank is_space
blank_char d h = ground (arith, h)

blank_word : (c : Text) → All (λ d. is_space d ≡ false) c → map blank c ≡ c
blank_word [] h = refl
blank_word (d ∷ c) (h, hs) = ap₂ (λ x y. x ∷ y) (blank_char d h) (blank_word c hs)

map-append : (s t : Text) → map blank (s ++ t) ≡ map blank s ++ map blank t
map-append [] t = refl
map-append (d ∷ s) t = ap (λ l. blank d ∷ l) (map-append s t)

pub blank-IsIn : (c t : Text) → IsWord c → IsIn c t → IsIn c (map blank t)
unfolding blank
blank-IsIn c t (some_char, word) (u, v, e) = (
  map blank u,
  map blank v,
  ap (map blank) e
      ∙ map-append u (b' ' ∷ (c ++ (b' ' ∷ v)))
      ∙ ap (λ l. map blank u ++ (b' ' ∷ l))
          (map-append c (b' ' ∷ v) ∙ ap (λ l. l ++ (b' ' ∷ map blank v)) (blank_word c word)),
)
