-- ===== src/Prelude/Ordered.antt =====
-- Lists whose numbers rise, and lists that lie in order inside another.
use mathlib.Core.Logic.{inl, inr}
use mathlib.Core.List.{List, [], ◌∷◌}
use mathlib.Core.Bool.{Bool}
use classwaves_backend.Prelude.Tests.{Bool-cases}
use classwaves_backend.Prelude.Lists.{filter}

-- `xs` is what is left of `ys` after leaving some entries out.
pub data Sublist {ℓ} {A : Type ℓ} : List A → List A → Type ℓ where
  none_left : Sublist [] []
  keep : {x : A} {xs ys : List A} → Sublist xs ys → Sublist (x ∷ xs) (x ∷ ys)
  skip : {y : A} {xs ys : List A} → Sublist xs ys → Sublist xs (y ∷ ys)

module _ {ℓ} {A : Type ℓ} where
  pub Sublist-nil : (ys : List A) → Sublist [] ys
  Sublist-nil [] = none_left
  Sublist-nil (y ∷ ys) = skip (Sublist-nil ys)

  pub Sublist-refl : (ys : List A) → Sublist ys ys
  Sublist-refl [] = none_left
  Sublist-refl (y ∷ ys) = keep (Sublist-refl ys)

  pub filter-Sublist : (p : A → Bool) (xs : List A) → Sublist (filter p xs) xs
  filter-Sublist p [] = none_left
  filter-Sublist p (x ∷ xs) = elim (Bool-cases (p x)) [
    | inl e ↦ rw e (keep (filter-Sublist p xs))
    | inr e ↦ rw e (skip (filter-Sublist p xs))
  ]
