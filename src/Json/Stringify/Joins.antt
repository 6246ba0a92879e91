-- ===== src/Json/Stringify/Joins.antt =====
-- The text between brackets is what the grammar joins, and `quote` writes literals.
use mathlib.Core.List.{append_assoc}
use terminator.Base.{ℕ, List, [], ◌∷◌, ◌++◌, Text, All, ◌≡◌, inl, inr, refl, sym, ap}
use terminator.Json.Quote.{quote}
use terminator.Json.Quote.Reader.{read_string}
use terminator.Json.Quote.Reads.{IsUnit16, read_string-quote}
use terminator.Json.Stringify.{join, bracket}
use terminator.Json.Stringify.Grammar.{Blank, Joined, nothing, last, more, Literal}

Joined-join :
    (w sw w' t : Text) (ts : List Text)
    → Blank w
    → Blank sw
    → Blank w'
    → Joined (t ∷ ts) (w ++ (join (b',' ∷ sw) (t ∷ ts) ++ w'))
unfolding join
Joined-join w sw w' t [] bw bs bw' = last w t w' bw bw'
Joined-join w sw w' t (u ∷ us) bw bs bw' =
    rw
      (
        append_assoc t (b',' ∷ (sw ++ join (b',' ∷ sw) (u ∷ us))) w',
        append_assoc sw (join (b',' ∷ sw) (u ∷ us)) w',
      )
      (more w t bw (Joined-join sw sw w' u us bs bs bw'))

-- The text between the brackets is what the grammar joins.
pub bracket-Joined :
    (o c : ℕ) (gap mind : Text) (ts : List Text)
    → Blank gap
    → Blank mind
    → (inner : Text) × Joined ts inner × (bracket o c gap mind ts ≡ o ∷ (inner ++ (c ∷ [])))
unfolding bracket
bracket-Joined o c gap mind [] g m = ([], nothing, refl)
bracket-Joined o c [] mind (t ∷ ts) g m = (
  join (b',' ∷ []) (t ∷ ts) ++ [],
  Joined-join [] [] [] t ts tt tt tt,
  ap (λ x. o ∷ x) (sym (append_assoc (join (b',' ∷ []) (t ∷ ts)) [] (c ∷ []))),
)
bracket-Joined o c (x ∷ gap) mind (t ∷ ts) g m =
    let w = b'\n' ∷ x ∷ gap in
    let all = join (b',' ∷ w) (t ∷ ts) in
    (
      w ++ (all ++ (b'\n' ∷ mind)),
      Joined-join w w (b'\n' ∷ mind) t ts (inr (inr (inl refl)), g) (inr (inr (inl refl)), g)
          (inr (inr (inl refl)), m),
      rw
          (
            append_assoc gap (all ++ (b'\n' ∷ mind)) (c ∷ []),
            append_assoc all (b'\n' ∷ mind) (c ∷ []),
          )
          refl,
    )

pub quote-Literal : (s : Text) → All IsUnit16 s → Literal s (quote s)
quote-Literal s h rest = read_string-quote s rest h

pub not_Literal_nil : (s : Text) → ¬ Literal s []
unfolding read_string
not_Literal_nil s l = let e = l [] in cc e
