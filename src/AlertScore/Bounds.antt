-- ===== src/AlertScore/Bounds.antt =====
-- How far a score goes, and what a higher priority does to it.
use classwaves_backend.Prelude.{ℕ, ◌≤◌, ◌≡◌, Option, none, some, arith}
use classwaves_backend.AlertScore.{
  Prompt, Priority, AlertContext, Config, Profile, Category, Factors, urgency_of, weighted,
  calculate_urgency_score, calculate_relevance_score, calculate_timing_score, history_score,
  engagement_score, calculate_factors, calculate_priority_score, determine_batch_group,
  calculate_scheduled_delivery,
}

-- Every factor is at most one.
record IsUnit (f : Factors) : Type 0 where
  urgency : f.urgency ≤ 10000
  relevance : f.relevance ≤ 10000
  timing : f.timing ≤ 10000
  teacher_history : f.teacher_history ≤ 10000
  session_context : f.session_context ≤ 10000

history_score_le : (c : Category) (profile : Option Profile) → history_score c profile ≤ 10000
history_score_le c none = omega arith
history_score_le c (some p) = omega arith

engagement_score_le : (e : Option ℕ) → engagement_score e ≤ 10000
engagement_score_le none = omega arith
engagement_score_le (some e) = ground arith

calculate_factors-IsUnit :
    (config : Config) (now : ℕ) (profile : Option Profile) (p : Prompt) (c : AlertContext)
    → IsUnit (calculate_factors config now profile p c)
unfolding calculate_factors calculate_urgency_score calculate_relevance_score calculate_timing_score
calculate_factors-IsUnit config now profile p c = record {
  urgency = omega arith;
  relevance = omega arith;
  timing = omega arith;
  teacher_history = history_score_le p.category profile;
  session_context = engagement_score_le c.teacher_engagement_score;
}

-- The weights sum to one and every factor is at most one, so that the clamp never acts: the score is
-- the weighted sum of the factors, and at most one.
pub calculate_priority_score-weighted :
    (config : Config) (now : ℕ) (profile : Option Profile) (p : Prompt) (c : AlertContext)
    → (calculate_priority_score config now profile p c
        ≡ weighted (calculate_factors config now profile p c))
      × (calculate_priority_score config now profile p c ≤ 1000000)
unfolding calculate_priority_score
calculate_priority_score-weighted config now profile p c =
    let u = calculate_factors-IsUnit config now profile p c in
    (
      omega (arith, u.urgency, u.relevance, u.timing, u.teacher_history, u.session_context),
      omega arith,
    )

abbrev pub with_priority : Priority → Prompt → Prompt
with_priority a p = record p { priority = a }

urgency_mono :
    (a b : Priority) (p : Prompt)
    → urgency_of a ≤ urgency_of b
    → calculate_urgency_score (with_priority a p) ≤ calculate_urgency_score (with_priority b p)
unfolding calculate_urgency_score
urgency_mono a b p h = omega arith

score_mono :
    (config : Config) (now : ℕ) (profile : Option Profile) (p : Prompt) (c : AlertContext)
    (a b : Priority)
    → urgency_of a ≤ urgency_of b
    → calculate_priority_score config now profile (with_priority a p) c
      ≤ calculate_priority_score config now profile (with_priority b p) c
unfolding calculate_priority_score calculate_factors calculate_relevance_score
score_mono config now profile p c a b h = omega (arith, urgency_mono a b p h)

scheduled_mono :
    (config : Config) (now s t : ℕ) (p : Prompt) (a b : Priority)
    → s ≤ t
    → calculate_scheduled_delivery config (determine_batch_group config t (with_priority b p)) now
      ≤ calculate_scheduled_delivery config (determine_batch_group config s (with_priority a p)) now
unfolding determine_batch_group
scheduled_mono config now s t p a b h = ground arith

-- Of two prompts that differ only in their priority, the one with the higher priority has a score
-- that is not lower, and is scheduled not later.
pub priority_mono :
    (config : Config) (now : ℕ) (profile : Option Profile) (p : Prompt) (c : AlertContext)
    (a b : Priority)
    → urgency_of a ≤ urgency_of b
    → let s = calculate_priority_score config now profile (with_priority a p) c in
      let t = calculate_priority_score config now profile (with_priority b p) c in
      (s ≤ t)
      × (calculate_scheduled_delivery config
            (determine_batch_group config t (with_priority b p))
            now
          ≤ calculate_scheduled_delivery config
              (determine_batch_group config s (with_priority a p))
              now)
priority_mono config now profile p c a b h =
    let le = score_mono config now profile p c a b h in (le, scheduled_mono config now _ _ p a b le)
