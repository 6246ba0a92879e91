-- ===== src/Mustache/Squash.antt =====
-- `squashTokens`.
use terminator.Base.{
  false, ◌&&◌, List, [], ◌∷◌, ◌++◌, Text, if◌then◌else◌, ◌≡◌, refl, ◌∙◌, ap, Bool-cases, inl, inr,
}
use mathlib.Core.List.{append_assoc}
use terminator.Mustache.Token.{Token, is_text}

-- The loop after `lastToken` was pushed: the squashed tokens from that one on.
unfoldable pub squash_onto : Token → List Token → List Token
squash_onto last [] = last ∷ []
squash_onto last (token ∷ tokens) =
    let merged =
      squash_onto (record last { value = last.value ++ token.value; end = token.end }) tokens in
    let kept = last ∷ squash_onto token tokens in
    if is_text last.type && is_text token.type then merged else kept

unfoldable pub squash_tokens : List Token → List Token
unfolding squash_onto
squash_tokens [] = []
squash_tokens (token ∷ tokens) = squash_onto token tokens

abbrev pub values : List Token → Text
values [] = []
values (t ∷ ts) = t.value ++ values ts

-- No text token follows another.
abbrev pub IsSquashed : List Token → Type 0
IsSquashed [] = Unit
IsSquashed (t ∷ []) = Unit
IsSquashed (t ∷ (u ∷ us)) = (is_text t.type && is_text u.type ≡ false) × IsSquashed (u ∷ us)

squash_onto-values :
    (last : Token) (tokens : List Token)
    → values (squash_onto last tokens) ≡ last.value ++ values tokens
unfolding squash_onto
squash_onto-values last [] = refl
squash_onto-values last (t ∷ ts) = elim (Bool-cases (is_text last.type && is_text t.type)) [
  | inl both ↦ rw both (squash_onto-values _ ts ∙ append_assoc last.value t.value (values ts))
  | inr apart ↦ rw apart (ap (λ v. last.value ++ v) (squash_onto-values t ts))
]

-- The first squashed token keeps the type of the token that it grew from.
squash_onto_head :
    (last : Token) (tokens : List Token)
    → (x : Token) × (xs : List Token) × (squash_onto last tokens ≡ x ∷ xs) × (x.type ≡ last.type)
unfolding squash_onto
squash_onto_head last [] = (last, [], refl, refl)
squash_onto_head last (t ∷ ts) = elim (Bool-cases (is_text last.type && is_text t.type)) [
  | inl both ↦ rw both (squash_onto_head _ ts)
  | inr apart ↦ rw apart (last, squash_onto t ts, refl, refl)
]

squash_onto-IsSquashed : (last : Token) (tokens : List Token) → IsSquashed (squash_onto last tokens)
unfolding squash_onto
squash_onto-IsSquashed last [] = tt
squash_onto-IsSquashed last (t ∷ ts) = elim (Bool-cases (is_text last.type && is_text t.type)) [
  | inl both ↦ rw both (squash_onto-IsSquashed _ ts)
  | inr apart ↦
      let (x, xs, e, same) = squash_onto_head t ts in
      rw (apart, e) (rw same apart, rw e at (squash_onto-IsSquashed t ts))
]

-- Squashing keeps the text that the tokens spell, and leaves no two text tokens side by side.
pub squash_tokens-values :
    (tokens : List Token)
    → (values (squash_tokens tokens) ≡ values tokens) × IsSquashed (squash_tokens tokens)
unfolding squash_tokens
squash_tokens-values [] = (refl, tt)
squash_tokens-values (t ∷ ts) = (squash_onto-values t ts, squash_onto-IsSquashed t ts)
