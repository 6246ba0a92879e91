-- ===== src/Base/Results.antt =====
-- Results of code that may throw.
use Prim.Native.Nat.{ℕ}
use terminator.Base.Texts.{Text}
use mathlib.Core.Path.{◌≡◌, refl, ap}
use mathlib.Core.Logic.{◌⊎◌, inl, inr}

-- The exceptions that the modelled code throws or lets through, and the end of a model's fuel.
pub data Exception : Type 0 where
  null_pointer link_status signer_initialization channel_error class_cast : Exception
  type_error invalid_tags out_of_fuel data_access illegal_argument : Exception
  unclosed_tag : ℕ → Exception
  unopened_section unclosed_section : Text → Exception
  no_conversion : Text → Text → Exception

-- What a call returns: the exception it lets through, or its value.
pub data Result {ℓ} (A : Type ℓ) : Type ℓ where
  err : Exception → Result A
  ok : A → Result A

-- Transparent, so that a chain of calls computes as far as its first calls are known.
infixl 5 ◌>>=◌
abbrev pub ◌>>=◌ {κ ℓ} : {B : Type κ} {A : Type ℓ} → Result A → (A → Result B) → Result B
err thrown >>= k = err thrown
ok value >>= k = k value

-- A chain that returns has a first call that returns.
pub bind-eq-ok {κ ℓ} :
    {B : Type κ} {A : Type ℓ} (r : Result A) (k : A → Result B) {out : B}
    → (r >>= k) ≡ ok out
    → (value : A) × (r ≡ ok value) × (k value ≡ ok out)
bind-eq-ok (err thrown) k h = cc
bind-eq-ok (ok value) k h = (value, refl, h)

pub ok-injective {ℓ} : {A : Type ℓ} (a b : A) → ok a ≡ ok b → a ≡ b
ok-injective a b h = ap (λ r. elim r [ ok x ↦ x | err e ↦ a ]) h

-- A chain that throws does so in its first call or after it.
pub bind-eq-err {κ ℓ} :
    {B : Type κ} {A : Type ℓ} (r : Result A) (k : A → Result B) {x : Exception}
    → (r >>= k) ≡ err x
    → (r ≡ err x) ⊎ ((value : A) × (r ≡ ok value) × (k value ≡ err x))
bind-eq-err (err thrown) k h = inl cc
bind-eq-err (ok value) k h = inr (value, refl, h)
