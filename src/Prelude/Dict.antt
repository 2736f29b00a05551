-- ===== src/Prelude/Dict.antt =====
-- A JavaScript `Map` with text keys, as an association list in insertion order: a write to a key
-- that is there keeps its place, a new key goes to the end.
use mathlib.Core.Path.{◌≡◌, refl, subst}
use mathlib.Core.Logic.{inl, inr}
use mathlib.Core.List.{List, [], ◌∷◌}
use mathlib.Core.Option.{Option, none, some}
use native.Mathlib.Omega.{arith}
use classwaves_backend.Prelude.Tests.{if◌then◌else◌, Bool-cases}
use classwaves_backend.Prelude.Texts.{Text, text_eq, text_eq_iff}
use classwaves_backend.Prelude.Lists.{All}

abbrev pub Dict {ℓ} : Type ℓ → Type ℓ
Dict V = List (Text × V)

module _ {ℓ} {V : Type ℓ} where
  unfoldable pub get : Text → Dict V → Option V
  get k [] = none
  get k ((j, v) ∷ m) = if text_eq j k then some v else get k m

  unfoldable pub set : Text → V → Dict V → Dict V
  set k v [] = (k, v) ∷ []
  set k v ((j, w) ∷ m) = if text_eq j k then (j, v) ∷ m else (j, w) ∷ set k v m

  unfoldable pub delete : Text → Dict V → Dict V
  delete k [] = []
  delete k ((j, w) ∷ m) = if text_eq j k then delete k m else (j, w) ∷ delete k m

  pub get-set :
      (k j : Text) (v : V) (m : Dict V)
      → get j (set k v m) ≡ (if text_eq k j then some v else get j m)
  unfolding get set
  get-set k j v [] = refl
  get-set k j v ((i, w) ∷ m) =
      ground (arith, text_eq_iff k j, text_eq_iff i k, text_eq_iff i j, get-set k j v m)

  pub get-delete :
      (k j : Text) (m : Dict V) → get j (delete k m) ≡ (if text_eq k j then none else get j m)
  unfolding get delete
  get-delete k j [] = ground arith
  get-delete k j ((i, w) ∷ m) =
      ground (arith, text_eq_iff k j, text_eq_iff i k, text_eq_iff i j, get-delete k j m)

  -- What holds of every entry holds of the one that is found.
  pub get-All {κ} :
      (P : V → Type κ) (k : Text) (v : V) (m : Dict V) → All (λ e. P e.1) m → get k m ≡ some v → P v
  unfolding get
  get-All P k v [] h e = cc
  get-All P k v ((j, w) ∷ m) h e = elim (Bool-cases (text_eq j k)) [
    | inl hit ↦ subst P (ground arith) h.0
    | inr miss ↦ get-All P k v m h.1 (ground arith)
  ]

  pub set-All {κ} :
      (P : V → Type κ) (k : Text) (v : V) (m : Dict V)
      → P v
      → All (λ e. P e.1) m
      → All (λ e. P e.1) (set k v m)
  unfolding set
  set-All P k v [] p h = (p, tt)
  set-All P k v ((j, w) ∷ m) p h = elim (Bool-cases (text_eq j k)) [
    | inl hit ↦ rw hit (p, h.1)
    | inr miss ↦ rw miss (h.0, set-All P k v m p h.1)
  ]
