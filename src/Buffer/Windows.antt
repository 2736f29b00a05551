-- ===== src/Buffer/Windows.antt =====
-- What the context windows hold.
use classwaves_backend.Prelude.{
  ℕ, ◌+◌, ◌≤◌, ◌<◌, ◌≡◌, ◌⊎◌, ◌∙◌, sym, List, [], ◌∷◌, ◌++◌, arith, length, min, ltb, leb, ◌==◌,
  All, subst, append_assoc, append-nil, Bool-cases, inl, inr, ltb→lt, Sublist, none_left, keep,
  skip,
}
use mathlib.Core.List.{reverse, reverse-cons, reverse-reverse, reverse_aux}
use classwaves_backend.Buffer.Context.{
  ContextQuote, Limits, Fill, fill_tangent, fill_aligned, select_windows,
}

-- The rule of either loop: an invariant of the window, the characters used and the quotes below
-- the pointer holds at the end, if it survives taking a quote that fits and passing one over.
module _ (l : Limits) (P : List ContextQuote → ℕ → List ContextQuote → Type 0)
    (pass : (q : ContextQuote) (qs w : List ContextQuote) (u : ℕ) → P w u (q ∷ qs) → P w u qs) where
  abbrev Holds : Fill → Type 0
  Holds f = P f.window f.used_chars f.below

  fill_tangent_inv :
      ((q : ContextQuote) (qs w : List ContextQuote) (u : ℕ)
        → P w u (q ∷ qs)
        → length w < l.line_limit
        → (u + length q.text ≤ l.max_chars) ⊎ (length w ≡ 0)
        → P (q ∷ w) (min l.max_chars (u + length q.text)) qs)
      → (qs w : List ContextQuote) (u : ℕ) → P w u qs
      → Holds (fill_tangent l qs w u)
  unfolding fill_tangent
  fill_tangent_inv take [] w u p = p
  fill_tangent_inv take (q ∷ qs) w u p = elim (Bool-cases (ltb (length w) l.line_limit)) [
    | inr full ↦ rw full p
    | inl room ↦ elim (Bool-cases (length q.text == 0)) [
      | inl blank ↦ rw (room, blank) (fill_tangent_inv take qs w u (pass q qs w u p))
      | inr some' ↦ elim (Bool-cases (ltb l.max_chars (u + length q.text))) [
        | inl over ↦ elim (Bool-cases (ltb 0 (length w))) [
          | inl later ↦ rw (room, some', over, later) p
          | inr first ↦
              let p' = take q qs w u p (ltb→lt _ _ room) (inr (ground arith)) in
              elim (Bool-cases (leb l.max_chars (min l.max_chars (u + length q.text)))) [
                | inl done ↦ rw (room, some', over, first, done) p'
                | inr more ↦ rw (room, some', over, first, more) (fill_tangent_inv take qs _ _ p')
              ]
        ]
        | inr fits ↦
            let p' = take q qs w u p (ltb→lt _ _ room) (inl (ground arith)) in
            elim (Bool-cases (leb l.max_chars (min l.max_chars (u + length q.text)))) [
              | inl done ↦ rw (room, some', fits, done) p'
              | inr more ↦ rw (room, some', fits, more) (fill_tangent_inv take qs _ _ p')
            ]
      ]
    ]
  ]

  fill_aligned_inv :
      ((q : ContextQuote) (qs w : List ContextQuote) (u : ℕ)
        → P w u (q ∷ qs)
        → length w < l.line_limit
        → u + length q.text ≤ l.max_chars
        → P (q ∷ w) (u + length q.text) qs)
      → (qs w : List ContextQuote) (u : ℕ) → P w u qs
      → Holds (fill_aligned l qs w u)
  unfolding fill_aligned
  fill_aligned_inv take [] w u p = p
  fill_aligned_inv take (q ∷ qs) w u p = elim (Bool-cases (ltb (length w) l.line_limit)) [
    | inr full ↦ rw full p
    | inl room ↦ elim (Bool-cases (ltb u l.max_chars)) [
      | inr spent ↦ rw (room, spent) p
      | inl budget ↦ elim (Bool-cases (length q.text == 0)) [
        | inl blank ↦ rw (room, budget, blank) (fill_aligned_inv take qs w u (pass q qs w u p))
        | inr some' ↦ elim (Bool-cases (ltb l.max_chars (u + length q.text))) [
          | inl over ↦
              rw (room, budget, some', over) (fill_aligned_inv take qs w u (pass q qs w u p))
          | inr fits ↦
              rw (room, budget, some', fits)
                (fill_aligned_inv take qs _ _ (take q qs w u p (ltb→lt _ _ room) (ground arith)))
        ]
      ]
    ]
  ]

abbrev pub chars : List ContextQuote → ℕ
chars [] = 0
chars (q ∷ qs) = length q.text + chars qs

-- A quote that fits the budget by itself, as every sanitized quote does.
abbrev pub IsShort : Limits → ContextQuote → Type 0
IsShort l q = length q.text ≤ l.max_chars

All-reverse_aux :
    (P : ContextQuote → Type 0) (xs ys : List ContextQuote)
    → All P xs
    → All P ys
    → All P (reverse_aux xs ys)
All-reverse_aux P [] ys h k = k
All-reverse_aux P (x ∷ xs) ys h k = All-reverse_aux P xs (x ∷ ys) h.1 (h.0, k)

module _ (l : Limits) where
  -- The characters used are those of the window and of `base` more, and stay in the budget.
  abbrev Budget : ℕ → List ContextQuote → ℕ → List ContextQuote → Type 0
  Budget base w u below = (base + chars w ≡ u) × (u ≤ l.max_chars) × All (IsShort l) below

  fill_tangent-Budget :
      (qs : List ContextQuote)
      → All (IsShort l) qs
      → Holds l (Budget 0) (λ q qs w u p. (p.0, p.1, p.2.1)) (fill_tangent l qs [] 0)
  fill_tangent-Budget qs short =
      fill_tangent_inv l (Budget 0) (λ q qs w u p. (p.0, p.1, p.2.1)) take-Budget qs [] 0
        (omega arith, omega arith, short)
    where
      take-Budget :
          (q : ContextQuote) (qs w : List ContextQuote) (u : ℕ)
          → Budget 0 w u (q ∷ qs)
          → length w < l.line_limit
          → (u + length q.text ≤ l.max_chars) ⊎ (length w ≡ 0)
          → Budget 0 (q ∷ w) (min l.max_chars (u + length q.text)) qs
      take-Budget q qs [] u (sum, le, (fits, rest)) room why = (omega arith, omega arith, rest)
      take-Budget q qs (x ∷ w) u (sum, le, (fits, rest)) room why = (omega arith, omega arith, rest)

  fill_aligned-Budget :
      (base u : ℕ) (qs : List ContextQuote)
      → Budget base [] u qs
      → Holds l (Budget base) (λ q qs w u p. (p.0, p.1, p.2.1)) (fill_aligned l qs [] u)
  fill_aligned-Budget base u qs start =
      fill_aligned_inv l (Budget base) (λ q qs w u p. (p.0, p.1, p.2.1))
        (λ q qs w u p room fits. (omega (arith, p.0), fits, p.2.1)) qs [] u start

  abbrev Within : List ContextQuote → ℕ → List ContextQuote → Type 0
  Within w u below = length w ≤ l.line_limit

  fill_tangent-Within :
      (qs : List ContextQuote) → length (fill_tangent l qs [] 0).window ≤ l.line_limit
  fill_tangent-Within qs =
      fill_tangent_inv l Within (λ q qs w u p. p) (λ q qs w u p room why. room) qs [] 0
        (omega arith)

  fill_aligned-Within :
      (qs : List ContextQuote) (u : ℕ) → length (fill_aligned l qs [] u).window ≤ l.line_limit
  fill_aligned-Within qs u =
      fill_aligned_inv l Within (λ q qs w u p. p) (λ q qs w u p room fits. room) qs [] u
        (omega arith)

module _ (orig base : List ContextQuote) where
  -- The window and what was kept before it lie in order inside what the pointer has passed.
  data Placed (w : List ContextQuote) (u : ℕ) (below : List ContextQuote) : Type 0 where
    placed :
        (passed : List ContextQuote)
        → reverse below ++ passed ≡ orig
        → Sublist (w ++ base) passed
        → Placed w u below

  step_over :
      (q : ContextQuote) (qs passed : List ContextQuote)
      → reverse qs ++ (q ∷ passed) ≡ reverse (q ∷ qs) ++ passed
  step_over q qs passed = sym (rw (reverse-cons q qs) (append_assoc (reverse qs) (q ∷ []) passed))

  Placed-take :
      (q : ContextQuote) (qs w : List ContextQuote) (u u' : ℕ)
      → Placed w u (q ∷ qs)
      → Placed (q ∷ w) u' qs
  Placed-take q qs w u u' (placed passed e s) =
      placed (q ∷ passed) (step_over q qs passed ∙ e) (keep s)

  Placed-skip :
      (q : ContextQuote) (qs w : List ContextQuote) (u : ℕ) → Placed w u (q ∷ qs) → Placed w u qs
  Placed-skip q qs w u (placed passed e s) =
      placed (q ∷ passed) (step_over q qs passed ∙ e) (skip s)

Sublist-append_left {ℓ} : {A : Type ℓ} (zs xs ys : List A) → Sublist xs ys → Sublist xs (zs ++ ys)
Sublist-append_left [] xs ys s = s
Sublist-append_left (z ∷ zs) xs ys s = skip (Sublist-append_left zs xs ys s)

Placed-Sublist :
    (orig base w : List ContextQuote) (u : ℕ) (below : List ContextQuote)
    → Placed orig base w u below
    → Sublist (w ++ base) orig
Placed-Sublist orig base w u below (placed passed e s) =
    subst (Sublist (w ++ base)) e (Sublist-append_left (reverse below) (w ++ base) passed s)

Placed-rebase :
    (orig w : List ContextQuote) (u u' : ℕ) (below : List ContextQuote)
    → Placed orig [] w u below
    → Placed orig w [] u' below
Placed-rebase orig w u u' below (placed passed e s) =
    placed passed e (subst (λ x. Sublist x passed) (append-nil w) s)

select_windows-Sublist :
    (l : Limits) (qs : List ContextQuote)
    → Sublist ((select_windows l qs).aligned ++ (select_windows l qs).tangent) qs
unfolding select_windows
select_windows-Sublist l qs =
    let t = fill_tangent l (reverse qs) [] 0 in
    let first : Placed qs [] t.window t.used_chars t.below =
      fill_tangent_inv l (Placed qs []) (Placed-skip qs [])
        (λ q rest w u p room why. Placed-take qs [] q rest w u _ p) (reverse qs) [] 0
        (placed [] (append-nil _ ∙ reverse-reverse qs) none_left) in
    let a = fill_aligned l t.below [] t.used_chars in
    Placed-Sublist qs t.window a.window a.used_chars a.below (
      fill_aligned_inv l (Placed qs t.window) (Placed-skip qs t.window)
        (λ q rest w u p room fits. Placed-take qs t.window q rest w u _ p) t.below [] t.used_chars
        (Placed-rebase qs t.window t.used_chars t.used_chars t.below first))

select_windows-chars :
    (l : Limits) (qs : List ContextQuote)
    → All (IsShort l) qs
    → chars (select_windows l qs).aligned + chars (select_windows l qs).tangent ≤ l.max_chars
unfolding select_windows
select_windows-chars l qs short =
    let t = fill_tangent l (reverse qs) [] 0 in
    let (sum, le, rest) =
      fill_tangent-Budget l (reverse qs) (All-reverse_aux (IsShort l) qs [] short tt) in
    let (sum', le', rest') =
      fill_aligned-Budget l (chars t.window) t.used_chars t.below (omega (arith, sum), le, rest) in
    omega (arith, sum', le')

select_windows-lines :
    (l : Limits) (qs : List ContextQuote)
    → (length (select_windows l qs).aligned ≤ l.line_limit)
      × (length (select_windows l qs).tangent ≤ l.line_limit)
unfolding select_windows
select_windows-lines l qs = (fill_aligned-Within l _ _, fill_tangent-Within l (reverse qs))

-- Where each quote fits the character budget by itself, the two windows, the aligned one first, are
-- quotes of the given ones in their order; each is within the line limit, and together they stay
-- within the character budget.
pub select_windows_sound :
    (l : Limits) (qs : List ContextQuote)
    → All (IsShort l) qs
    → Sublist ((select_windows l qs).aligned ++ (select_windows l qs).tangent) qs
      × (length (select_windows l qs).aligned ≤ l.line_limit)
      × (length (select_windows l qs).tangent ≤ l.line_limit)
      × (chars (select_windows l qs).aligned + chars (select_windows l qs).tangent ≤ l.max_chars)
select_windows_sound l qs short =
    let (a, t) = select_windows-lines l qs in
    (select_windows-Sublist l qs, a, t, select_windows-chars l qs short)
