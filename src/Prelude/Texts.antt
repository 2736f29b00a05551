-- ===== src/Prelude/Texts.antt =====
-- Text as the list of its code units. `codes` reads a literal; `includes`, `index_of` and
-- `to_lower_case` are the JavaScript methods on ASCII text.
use Prim.Native.Nat.{ℕ, ◌+◌}
use Prim.Native.Char.{code}
use Prim.Native.String.{String}
use mathlib.Core.Path.{◌≡◌, refl}
use mathlib.Core.Logic.{◌↔◌, ◌≢◌}
use mathlib.Core.Bool.{Bool, true, false, ◌&&◌, ◌||◌}
use mathlib.Core.List.{List, [], ◌∷◌, ◌++◌, map, map-append}
use native.Mathlib.Omega.{arith}
use classwaves_backend.Prelude.Tests.{leb, ◌==◌, if◌then◌else◌}

abbrev pub Text : Type 0
Text = List ℕ

abbrev pub codes : String → Text
codes String.[] = []
codes (String.◌∷◌ c s) = code c ∷ codes s

unfoldable pub text_eq : Text → Text → Bool
text_eq [] [] = true
text_eq (a ∷ s) (b ∷ t) = (a == b) && text_eq s t
text_eq _ _ = false

pub text_eq_iff : (s t : Text) → (text_eq s t ≡ true) ↔ (s ≡ t)
unfolding text_eq
text_eq_iff [] [] = ground arith
text_eq_iff (a ∷ s) [] = ground arith
text_eq_iff [] (b ∷ t) = ground arith
text_eq_iff (a ∷ s) (b ∷ t) = ground (arith, text_eq_iff s t)

pub text_eq_refl : (s : Text) → text_eq s s ≡ true
text_eq_refl s = (text_eq_iff s s).1 refl

unfoldable pub starts_with : Text → Text → Bool
starts_with [] t = true
starts_with (a ∷ s) [] = false
starts_with (a ∷ s) (b ∷ t) = (a == b) && starts_with s t

-- `t.includes(s)`, the needle first.
unfoldable pub includes : Text → Text → Bool
unfolding starts_with
includes s [] = starts_with s []
includes s (b ∷ t) = starts_with s (b ∷ t) || includes s t

unfoldable pub lower : ℕ → ℕ
lower c = if leb b'A' c && leb c b'Z' then c + 32 else c

unfoldable pub to_lower_case : Text → Text
unfolding lower
to_lower_case t = map lower t

pub starts_with-append : (s t : Text) → starts_with s (s ++ t) ≡ true
unfolding starts_with
starts_with-append [] t = refl
starts_with-append (a ∷ s) t = ground (arith, starts_with-append s t)

pub includes-prefix : (s t : Text) → starts_with s t ≡ true → includes s t ≡ true
unfolding includes
includes-prefix s [] h = h
includes-prefix s (b ∷ t) h = ground arith

-- A text contains each of its infixes.
pub includes_infix : (s pre post : Text) → includes s (pre ++ s ++ post) ≡ true
unfolding includes
includes_infix s [] post = includes-prefix s (s ++ post) (starts_with-append s post)
includes_infix s (a ∷ pre) post = ground (arith, includes_infix s pre post)

pub includes-append_left : (s pre t : Text) → includes s t ≡ true → includes s (pre ++ t) ≡ true
unfolding includes
includes-append_left s [] t h = h
includes-append_left s (a ∷ pre) t h = ground (arith, includes-append_left s pre t h)

pub to_lower_case-append :
    (s t : Text) → to_lower_case (s ++ t) ≡ to_lower_case s ++ to_lower_case t
unfolding to_lower_case
to_lower_case-append s t = map-append lower s t

-- No colon stands in the text.
abbrev pub NoColon : Text → Type 0
NoColon [] = Unit
NoColon (c ∷ s) = (c ≢ b':') × NoColon s
