-- ===== src/Buffer/Cleanup.antt =====
-- What the periodic cleanup drops and keeps.
use classwaves_backend.Prelude.{
  ℕ, ◌+◌, ◌*◌, ◌≤◌, ◌≡◌, ◌↔◌, ◌∙◌, Bool, false, ◌&&◌, ◌||◌, [], ◌∷◌, Option, none, some, arith,
  refl, if◌then◌else◌, Text, text_eq, text_eq_iff, Bool-cases, inl, inr,
}
use classwaves_backend.Prelude.Dict
use classwaves_backend.Prelude.Dict.{Dict, get-delete}
use classwaves_backend.Buffer.{
  TranscriptBuffer, Service, is_expired, cleanup_entries, cleanup_buffer_map, perform_cleanup,
}

-- Each key stands once, as in a `Map`.
abbrev pub IsUnique : Dict TranscriptBuffer → Type 0
IsUnique [] = Unit
IsUnique ((k, b) ∷ m) = (Dict.get k m ≡ none) × IsUnique m

module _ (now max_age : ℕ) where
  -- Some entry of the list is old and has the key.
  abbrev drops : Text → Dict TranscriptBuffer → Bool
  drops key [] = false
  drops key ((k, b) ∷ m) = (is_expired now max_age b && text_eq k key) || drops key m

  abbrev pub unless_expired : Option TranscriptBuffer → Option TranscriptBuffer
  unless_expired none = none
  unless_expired (some b) = if is_expired now max_age b then none else some b

  cleanup_entries-get :
      (key : Text) (entries m : Dict TranscriptBuffer) (cleaned : ℕ)
      → Dict.get key (cleanup_entries now max_age entries m cleaned).0
        ≡ (if drops key entries then none else Dict.get key m)
  unfolding cleanup_entries
  cleanup_entries-get key [] m cleaned = refl
  cleanup_entries-get key ((k, b) ∷ entries) m cleaned =
      elim (Bool-cases (is_expired now max_age b)) [
        | inl old ↦ rw old (
            cleanup_entries-get key entries (Dict.delete k m) (cleaned + 1)
            ∙ rw (get-delete k key m) (ground arith))
        | inr recent ↦ rw recent (cleanup_entries-get key entries m cleaned)
      ]

  drops_absent :
      (key : Text) (m : Dict TranscriptBuffer) → Dict.get key m ≡ none → drops key m ≡ false
  unfolding Dict.get
  drops_absent key [] h = refl
  drops_absent key ((k, b) ∷ m) h = ground (arith, drops_absent key m)

  drops_unique :
      (key : Text) (m : Dict TranscriptBuffer)
      → IsUnique m
      → (if drops key m then none else Dict.get key m) ≡ unless_expired (Dict.get key m)
  unfolding Dict.get
  drops_unique key [] u = refl
  drops_unique key ((k, b) ∷ m) (alone, u) = elim (Bool-cases (text_eq k key)) [
    | inl same ↦
        let gone = drops_absent key m (rw (← (text_eq_iff k key).0 same) alone) in
        elim (Bool-cases (is_expired now max_age b)) [
          | inl old ↦ rw (same, gone, old)
          | inr recent ↦ rw (same, gone, recent)
        ]
    | inr other ↦ elim (Bool-cases (is_expired now max_age b)) [
      | inl old ↦ rw (other, old) (drops_unique key m u)
      | inr recent ↦ rw (other, recent) (drops_unique key m u)
    ]
  ]

same_update : (c b : TranscriptBuffer) → some c ≡ some b → c.last_update ≡ b.last_update
same_update c b e = cc

module _ (now max_age : ℕ) where
  -- An entry is kept in the list of entries that its age allows.
  unless_expired_iff :
      (o : Option TranscriptBuffer) (b : TranscriptBuffer)
      → (unless_expired now max_age o ≡ some b) ↔ ((o ≡ some b) × (now ≤ b.last_update + max_age))
  unless_expired_iff none b = (λ e. absurd (cc), λ (e, _). absurd (cc))
  unless_expired_iff (some c) b = elim (Bool-cases (is_expired now max_age c)) [
    | inl old ↦ rw old (λ e. absurd (cc), λ (e, young). absurd (ground (arith, same_update c b e)))
    | inr recent ↦ rw recent (λ e. (e, ground (arith, same_update c b e)), λ (e, _). e)
  ]

-- Where each key stands once in either tier, a key has a buffer after a cleanup exactly when it had
-- that buffer before and at most twice its tier's window has passed since the buffer's last update.
pub perform_cleanup-get :
    (now : ℕ) (s : Service) (key : Text) (b : TranscriptBuffer)
    → IsUnique s.tier1_buffers
    → IsUnique s.tier2_buffers
    → let r = (perform_cleanup now s).0 in
      ((Dict.get key r.tier1_buffers ≡ some b) ↔ (
        (Dict.get key s.tier1_buffers ≡ some b)
        × (now ≤ b.last_update + s.config.tier1_window_ms * 2)))
      × ((Dict.get key r.tier2_buffers ≡ some b) ↔ (
          (Dict.get key s.tier2_buffers ≡ some b)
          × (now ≤ b.last_update + s.config.tier2_window_ms * 2)))
unfolding perform_cleanup cleanup_buffer_map
perform_cleanup-get now s key b u1 u2 = (
  rw
      (cleanup_entries-get now (s.config.tier1_window_ms * 2) key s.tier1_buffers s.tier1_buffers 0
        ∙ drops_unique now (s.config.tier1_window_ms * 2) key s.tier1_buffers u1)
      (unless_expired_iff now (s.config.tier1_window_ms * 2) (Dict.get key s.tier1_buffers) b),
  rw
      (cleanup_entries-get now (s.config.tier2_window_ms * 2) key s.tier2_buffers s.tier2_buffers 0
        ∙ drops_unique now (s.config.tier2_window_ms * 2) key s.tier2_buffers u2)
      (unless_expired_iff now (s.config.tier2_window_ms * 2) (Dict.get key s.tier2_buffers) b),
)
