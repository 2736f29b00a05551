-- ===== src/Dedupe/Window.antt =====
-- How long a broadcast suppresses its repetitions.
use classwaves_backend.Prelude.{
  ℕ, ◌+◌, ◌<◌, ◌≡◌, ◌∙◌, true, false, List, [], ◌∷◌, some, arith, refl, lt→ltb, All, Text, text_eq,
  text_eq_refl, text_eq_iff, Bool-cases, inl, inr,
}
use classwaves_backend.Prelude.Dict
use classwaves_backend.Prelude.Dict.{get-set}
use classwaves_backend.Dedupe.{Sent, DedupeWindow, repeats, is_duplicate}

pub record Broadcast : Type 0 where
  pub key : Text
  pub hash : Text
  pub now : ℕ

unfoldable pub broadcast_all : List Broadcast → DedupeWindow → DedupeWindow
broadcast_all [] w = w
broadcast_all (b ∷ bs) w = broadcast_all bs (is_duplicate b.key b.hash b.now w).1

module _ (key hash : Text) (t : ℕ) where
  -- What is broadcast under the key is the same, and comes before the window's end.
  abbrev pub IsQuiet : ℕ → Broadcast → Type 0
  IsQuiet ms b = text_eq b.key key ≡ true → (b.hash ≡ hash) × (b.now < t + ms)

  abbrev sent : Sent
  sent = record { hash = hash; ts = t }

  -- The broadcast at `t` is the last one that is noted under the key.
  abbrev Noted : DedupeWindow → Type 0
  Noted w = Dict.get key w.map ≡ some sent

  repeats-sent : (now ms : ℕ) → now < t + ms → repeats hash now ms (some sent) ≡ true
  repeats-sent now ms h = rw (text_eq_refl hash) (lt→ltb now (t + ms) h)

  is_duplicate-Noted :
      (b : Broadcast) (w : DedupeWindow)
      → IsQuiet w.window_ms b
      → Noted w
      → Noted (is_duplicate b.key b.hash b.now w).1
        × ((is_duplicate b.key b.hash b.now w).1.window_ms ≡ w.window_ms)
  unfolding is_duplicate
  is_duplicate-Noted b w quiet noted = elim (Bool-cases (text_eq b.key key)) [
    | inl same ↦
        let (same_hash, early) = quiet same in
        rw ((text_eq_iff b.key key).0 same, noted, same_hash, repeats-sent b.now w.window_ms early)
          (noted, refl)
    | inr other ↦ elim (Bool-cases (repeats b.hash b.now w.window_ms (Dict.get b.key w.map))) [
      | inl again ↦ rw again (noted, refl)
      | inr fresh ↦ rw fresh (get-set b.key key _ w.map ∙ rw other noted, refl)
    ]
  ]

  broadcast_all-Noted :
      (bs : List Broadcast) (w : DedupeWindow)
      → All (IsQuiet w.window_ms) bs
      → Noted w
      → Noted (broadcast_all bs w) × ((broadcast_all bs w).window_ms ≡ w.window_ms)
  unfolding broadcast_all
  broadcast_all-Noted [] w quiet noted = (noted, refl)
  broadcast_all-Noted (b ∷ bs) w quiet noted =
      let (noted', same) = is_duplicate-Noted b w quiet.0 noted in
      let (noted2, same2) = broadcast_all-Noted bs _ (rw same quiet.1) noted' in
      (noted2, same2 ∙ same)

  is_duplicate-passed :
      (w : DedupeWindow)
      → (is_duplicate key hash t w).0 ≡ false
      → Noted (is_duplicate key hash t w).1
        × ((is_duplicate key hash t w).1.window_ms ≡ w.window_ms)
  unfolding is_duplicate
  is_duplicate-passed w passed =
      elim (Bool-cases (repeats hash t w.window_ms (Dict.get key w.map))) [
        | inl again ↦ absurd (let no' = rw again at passed in ground arith)
        | inr fresh ↦ rw fresh (get-set key key _ w.map ∙ rw (text_eq_refl key), refl)
      ]

  is_duplicate_again :
      (t' : ℕ) (w : DedupeWindow)
      → Noted w
      → t' < t + w.window_ms
      → (is_duplicate key hash t' w).0 ≡ true
  unfolding is_duplicate
  is_duplicate_again t' w noted early = rw (noted, repeats-sent t' w.window_ms early)

-- A broadcast that passes at `t` suppresses its repetition at any time before the window from `t`
-- is over, if what was broadcast in between is under other keys, or is the same and comes before
-- the window's end.
pub is_duplicate-repeated :
    (key hash : Text) (t t' : ℕ) (bs : List Broadcast) (w : DedupeWindow)
    → (is_duplicate key hash t w).0 ≡ false
    → All (IsQuiet key hash t w.window_ms) bs
    → t' < t + w.window_ms
    → (is_duplicate key hash t' (broadcast_all bs (is_duplicate key hash t w).1)).0 ≡ true
is_duplicate-repeated key hash t t' bs w passed quiet early =
    let w1 = (is_duplicate key hash t w).1 in
    let (noted, same) = is_duplicate-passed key hash t w passed in
    let (later, same') = broadcast_all-Noted key hash t bs w1 (rw same quiet) noted in
    is_duplicate_again key hash t t' (broadcast_all bs w1) later (rw (same', same) early)
