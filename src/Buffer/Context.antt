-- ===== src/Buffer/Context.antt =====
-- `getContextWindows` from the sanitized quotes on: the newest quotes go to the tangent window,
-- the ones before them to the aligned window, within a line limit and a common character budget.
-- A list that the pointer walks down is kept newest first.
use classwaves_backend.Prelude.{
  ℕ, ◌+◌, ◌&&◌, List, [], ◌∷◌, length, min, ltb, leb, ◌==◌, if◌then◌else◌, Text,
}
use mathlib.Core.List.{reverse}

pub record ContextQuote : Type 0 where
  pub speaker_label : Text
  pub text : Text
  pub timestamp : ℕ

pub record Limits : Type 0 where
  pub max_chars : ℕ
  pub line_limit : ℕ

-- A window, the characters used, and what is left below the pointer.
pub record Fill : Type 0 where
  pub window : List ContextQuote
  pub used_chars : ℕ
  pub below : List ContextQuote

abbrev pub filled : List ContextQuote → ℕ → List ContextQuote → Fill
filled window used below = record { window = window; used_chars = used; below = below }

pub record Windows : Type 0 where
  pub aligned : List ContextQuote
  pub tangent : List ContextQuote

module _ (l : Limits) where
  -- The first `for` loop.
  unfoldable pub fill_tangent : List ContextQuote → List ContextQuote → ℕ → Fill
  fill_tangent [] tangent used = filled tangent used []
  fill_tangent (q ∷ qs) tangent used =
      let projected = used + length q.text in
      let used' = min l.max_chars projected in
      let skipped = fill_tangent qs tangent used in
      let next = fill_tangent qs (q ∷ tangent) used' in
      if ltb (length tangent) l.line_limit
      then (if length q.text == 0
          then skipped
          else if ltb l.max_chars projected && ltb 0 (length tangent)
          then filled tangent used (q ∷ qs)
          else if leb l.max_chars used'
          then filled (q ∷ tangent) used' qs
          else next)
      else filled tangent used (q ∷ qs)

  -- The second `for` loop.
  unfoldable pub fill_aligned : List ContextQuote → List ContextQuote → ℕ → Fill
  fill_aligned [] aligned used = filled aligned used []
  fill_aligned (q ∷ qs) aligned used =
      let projected = used + length q.text in
      let skipped = fill_aligned qs aligned used in
      let next = fill_aligned qs (q ∷ aligned) projected in
      if ltb (length aligned) l.line_limit && ltb used l.max_chars
      then (if length q.text == 0
          then skipped
          else if ltb l.max_chars projected
          then skipped
          else next)
      else filled aligned used (q ∷ qs)

  unfoldable pub select_windows : List ContextQuote → Windows
  select_windows sanitized =
      let t = fill_tangent (reverse sanitized) [] 0 in
      record { aligned = (fill_aligned t.below [] t.used_chars).window; tangent = t.window }
