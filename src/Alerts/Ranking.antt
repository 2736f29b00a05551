-- ===== src/Alerts/Ranking.antt =====
-- The order of the queues, through every call of the service.
use classwaves_backend.Prelude.{
  ℕ, ◌+◌, ◌≤◌, ◌<◌, ◌≡◌, ◌≢◌, ◌⊎◌, Bool, false, List, [], ◌∷◌, some, arith, filter, ltb, All,
  All-map, All-filter, Bool-cases, compare-cases, inl, inr,
}
use classwaves_backend.Prelude.Dict
use classwaves_backend.Prelude.Dict.{Dict, get-All, set-All}
use classwaves_backend.AlertScore.{Config}
use classwaves_backend.Alerts.{
  Alert, Service, Task, retry_alert, confirm_alert, run_batch, confirm_batch, insert_alert,
  is_immediate_group,
}

-- `a` comes before `b`: a higher score, or the same score and an earlier arrival.
abbrev pub Before : Alert → Alert → Type 0
Before a b =
    (b.priority_score < a.priority_score)
    ⊎ ((b.priority_score ≡ a.priority_score) × (a.ref < b.ref))

abbrev pub IsRanked : List Alert → Type 0
IsRanked [] = Unit
IsRanked (a ∷ alerts) = All (Before a) alerts × IsRanked alerts

-- No alert stands twice.
abbrev pub IsDistinct : List Alert → Type 0
IsDistinct [] = Unit
IsDistinct (a ∷ alerts) = All (λ b. b.ref ≢ a.ref) alerts × IsDistinct alerts

-- An alert that waits for a batch has no more than the threshold of a high priority.
abbrev pub IsGrouped : Config → Alert → Type 0
IsGrouped config a =
    is_immediate_group a.batch_group ≡ false → a.priority_score ≤ config.high_priority_threshold

-- A queue in the order of its alerts, which were numbered before `next`.
pub record IsQueue (config : Config) (next : ℕ) (queue : List Alert) : Type 0 where
  pub ranked : IsRanked queue
  pub distinct : IsDistinct queue
  pub numbered : All (λ a. a.ref < next) queue
  pub grouped : All (IsGrouped config) queue

IsRanked-filter :
    (p : Alert → Bool) (queue : List Alert) → IsRanked queue → IsRanked (filter p queue)
IsRanked-filter p [] h = tt
IsRanked-filter p (a ∷ queue) h = elim (Bool-cases (p a)) [
  | inl kept ↦ rw kept (All-filter (Before a) p queue h.0, IsRanked-filter p queue h.1)
  | inr dropped ↦ rw dropped (IsRanked-filter p queue h.1)
]

All-insert :
    (P : Alert → Type 0) (a : Alert) (queue : List Alert)
    → P a
    → All P queue
    → All P (insert_alert a queue)
All-insert P a [] p h = (p, tt)
All-insert P a (b ∷ queue) p h = elim (Bool-cases (ltb b.priority_score a.priority_score)) [
  | inl here ↦ rw here (p, h)
  | inr later ↦ rw later (h.0, All-insert P a queue p h.1)
]

IsDistinct-filter :
    (p : Alert → Bool) (queue : List Alert) → IsDistinct queue → IsDistinct (filter p queue)
IsDistinct-filter p [] h = tt
IsDistinct-filter p (a ∷ queue) h = elim (Bool-cases (p a)) [
  | inl kept ↦ rw kept (All-filter (λ b. b.ref ≢ a.ref) p queue h.0, IsDistinct-filter p queue h.1)
  | inr dropped ↦ rw dropped (IsDistinct-filter p queue h.1)
]

IsDistinct-insert :
    (a : Alert) (queue : List Alert)
    → All (λ b. b.ref < a.ref) queue
    → IsDistinct queue
    → IsDistinct (insert_alert a queue)
IsDistinct-insert a [] older h = (tt, tt)
IsDistinct-insert a (b ∷ queue) older h =
    elim (Bool-cases (ltb b.priority_score a.priority_score)) [
      | inl here ↦ rw here (
        All-map (λ b. b.ref < a.ref) (λ b. b.ref ≢ a.ref) (λ b below. omega (arith, below))
            (b ∷ queue) older,
        h,
      )
      | inr later ↦ rw later (
        All-insert (λ c. c.ref ≢ b.ref) a queue (omega (arith, older.0)) h.0,
        IsDistinct-insert a queue older.1 h.1,
      )
    ]

Before-trans_lower : (a b c : Alert) → b.priority_score < a.priority_score → Before b c → Before a c
Before-trans_lower a b c h (inl lower) = inl (omega (arith, h, lower))
Before-trans_lower a b c h (inr same) = inl (omega (arith, h, same.0))

Before-not_lower :
    (a b : Alert) → ltb b.priority_score a.priority_score ≡ false → b.ref < a.ref → Before b a
Before-not_lower a b later older = elim (compare-cases a.priority_score b.priority_score) [
  | inl above ↦ inl above
  | inr (inl same) ↦ inr (same, older)
  | inr (inr below) ↦ absurd (ground arith)
]

IsRanked-insert :
    (a : Alert) (queue : List Alert)
    → All (λ b. b.ref < a.ref) queue
    → IsRanked queue
    → IsRanked (insert_alert a queue)
IsRanked-insert a [] older h = (tt, tt)
IsRanked-insert a (b ∷ queue) older h = elim (Bool-cases (ltb b.priority_score a.priority_score)) [
  | inl here ↦
      let lower : b.priority_score < a.priority_score = ground arith in
      rw here (
        (inl lower, All-map (Before b) (Before a) (λ c. Before-trans_lower a b c lower) queue h.0),
        h,
      )
  | inr later ↦
      let after = Before-not_lower a b later older.0 in
      rw later (All-insert (Before b) a queue after h.0, IsRanked-insert a queue older.1 h.1)
]

module _ (config : Config) where
  pub IsQueue-filter :
      (next : ℕ) (p : Alert → Bool) (queue : List Alert)
      → IsQueue config next queue
      → IsQueue config next (filter p queue)
  IsQueue-filter next p queue q = record {
    ranked = IsRanked-filter p queue q.ranked;
    distinct = IsDistinct-filter p queue q.distinct;
    numbered = All-filter (λ a. a.ref < next) p queue q.numbered;
    grouped = All-filter (IsGrouped config) p queue q.grouped;
  }

  pub IsQueue-nil : (next : ℕ) → IsQueue config next []
  IsQueue-nil next = record { ranked = tt; distinct = tt; numbered = tt; grouped = tt }

  pub IsQueue-later :
      (next : ℕ) (queue : List Alert) → IsQueue config next queue → IsQueue config (next + 1) queue
  IsQueue-later next queue q = record {
    ranked = q.ranked;
    distinct = q.distinct;
    numbered =
        All-map (λ a. a.ref < next) (λ a. a.ref < next + 1) (λ a h. omega (arith, h)) queue
          q.numbered;
    grouped = q.grouped;
  }

  pub IsQueue-insert :
      (next : ℕ) (a : Alert) (queue : List Alert)
      → a.ref ≡ next
      → IsGrouped config a
      → IsQueue config next queue
      → IsQueue config (next + 1) (insert_alert a queue)
  IsQueue-insert next a queue e g q =
      let later = IsQueue-later next queue q in
      record {
        ranked = IsRanked-insert a queue (rw e q.numbered) q.ranked;
        distinct = IsDistinct-insert a queue (rw e q.numbered) q.distinct;
        numbered = All-insert (λ b. b.ref < next + 1) a queue (omega (arith, e)) later.numbered;
        grouped = All-insert (IsGrouped config) a queue g q.grouped;
      }

  -- A timer of a batch is the one that its session's entry names.
  abbrev pub IsScheduled : Dict ℕ → ℕ × Task → Type 0
  IsScheduled scheduler (n, retry_alert a) = Unit
  IsScheduled scheduler (n, confirm_alert a) = Unit
  IsScheduled scheduler (n, run_batch session) = Dict.get session scheduler ≡ some n
  IsScheduled scheduler (n, confirm_batch) = Unit

  -- Every queue is in order, every timer was numbered before the next one, and every batch timer is
  -- the one that is noted for its session.
  abbrev pub IsSound : Service → Type 0
  IsSound s =
      All (λ e. IsQueue config s.next_ref e.1) s.alert_queues
      × All (λ t. t.0 < s.next_timer) s.timers
      × All (IsScheduled s.batch_scheduler) s.timers
