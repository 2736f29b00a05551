-- ===== src/AlertScore.antt =====
-- src/services/alert-prioritization.service.ts, the part that rates an alert. The factors are in
-- ten-thousandths, the score in millionths, in which the decimals of the source are exact; an
-- effectiveness, an engagement or a dismissal rate is given in thousandths.
pub mod Bounds
use classwaves_backend.Prelude.{
  ℕ, zero, suc, ◌+◌, ◌-◌, ◌*◌, Bool, true, false, ◌||◌, List, [], ◌∷◌, Option, none, some, min, max,
  any, ltb, ◌==◌, if◌then◌else◌, Text,
}

pub data Category : Type 0 where
  facilitation deepening redirection collaboration assessment energy clarity : Category

pub data Priority : Type 0 where
  high medium low : Priority

pub data Timing : Type 0 where
  immediately next_break session_end : Timing

pub data Phase : Type 0 where
  opening development synthesis closure : Phase

pub record Prompt : Type 0 where
  pub session_id : Text
  pub teacher_id : Text
  pub category : Category
  pub priority : Priority
  pub suggested_timing : Timing
  pub effectiveness_score : Option ℕ

pub record AlertContext : Type 0 where
  pub session_id : Text
  pub teacher_id : Text
  pub session_phase : Phase
  pub current_alert_count : Option ℕ
  pub last_alert_timestamp : Option ℕ
  pub teacher_engagement_score : Option ℕ

pub record Config : Type 0 where
  pub max_alerts_per_minute : ℕ
  pub batch_interval_ms : ℕ
  pub high_priority_threshold : ℕ
  pub learning_enabled : Bool
  pub response_timeout_ms : ℕ

pub record Profile : Type 0 where
  pub responsiveness : ℕ
  pub effective_alert_types : List Category
  pub dismissal_patterns : List (Category × ℕ)
  pub last_updated : ℕ

pub record Factors : Type 0 where
  pub urgency : ℕ
  pub relevance : ℕ
  pub timing : ℕ
  pub teacher_history : ℕ
  pub session_context : ℕ

abbrev pub code_of : Category → ℕ
code_of facilitation = 0
code_of deepening = 1
code_of redirection = 2
code_of collaboration = 3
code_of assessment = 4
code_of energy = 5
code_of clarity = 6

abbrev pub same_category : Category → Category → Bool
same_category a b = code_of a == code_of b

abbrev pub includes_category : List Category → Category → Bool
includes_category cs c = any (same_category c) cs

abbrev pub is_immediate : Timing → Bool
is_immediate immediately = true
is_immediate next_break = false
is_immediate session_end = false

abbrev pub urgency_of : Priority → ℕ
urgency_of high = 9000
urgency_of medium = 6000
urgency_of low = 3000

unfoldable pub calculate_urgency_score : Prompt → ℕ
calculate_urgency_score p =
    let by_category =
      if includes_category (redirection ∷ collaboration ∷ energy ∷ []) p.category
      then 1000
      else 0 in
    let by_timing = if is_immediate p.suggested_timing then 2000 else 0 in
    min 10000 (urgency_of p.priority + by_category + by_timing)

abbrev pub phase_relevance : Phase → List Category
phase_relevance opening = facilitation ∷ energy ∷ []
phase_relevance development = deepening ∷ collaboration ∷ assessment ∷ []
phase_relevance synthesis = collaboration ∷ clarity ∷ []
phase_relevance closure = assessment ∷ clarity ∷ []

abbrev pub effect_of : Option ℕ → ℕ
effect_of none = 0
effect_of (some e) = e * 2

unfoldable pub calculate_relevance_score : Prompt → AlertContext → ℕ
calculate_relevance_score p c =
    let by_phase =
      if includes_category (phase_relevance c.session_phase) p.category then 3000 else 0 in
    min 10000 (5000 + by_phase + effect_of p.effectiveness_score)

-- `value ?? 0`.
abbrev pub or_zero : Option ℕ → ℕ
or_zero none = 0
or_zero (some n) = n

-- The effect of the time since the last alert on the score so far.
abbrev pub by_last_alert : ℕ → ℕ → Option ℕ → ℕ → ℕ
by_last_alert now interval none score = score
by_last_alert now interval (some last) score =
    if ltb now (last + interval)
    then score - 4000
    else if ltb (last + interval * 3) now
    then score + 2000
    else score

unfoldable pub calculate_timing_score : Config → ℕ → AlertContext → ℕ
calculate_timing_score config now c =
    let start =
      if ltb config.max_alerts_per_minute (or_zero c.current_alert_count) then 2000 else 5000 in
    min 10000 (by_last_alert now config.batch_interval_ms c.last_alert_timestamp start)

abbrev pub dismissal_rate : Category → List (Category × ℕ) → ℕ
dismissal_rate c [] = 0
dismissal_rate c ((d, rate) ∷ rates) = if same_category c d then rate else dismissal_rate c rates

abbrev pub history_score : Category → Option Profile → ℕ
history_score c none = 5000
history_score c (some p) =
    let by_type = if includes_category p.effective_alert_types c then 2000 else 0 in
    min 10000 (p.responsiveness + by_type - dismissal_rate c p.dismissal_patterns * 3)

abbrev pub engagement_score : Option ℕ → ℕ
engagement_score none = 5000
engagement_score (some e) = if ltb 700 e then 8000 else if ltb e 300 then 3000 else 5000

-- The defaults of `prioritizeAlert`: an engagement above one is one.
abbrev pub at_most_one : Option ℕ → Option ℕ
at_most_one none = none
at_most_one (some e) = some (min 1000 e)

abbrev pub validated : AlertContext → AlertContext
validated c = record c {
  current_alert_count = some (or_zero c.current_alert_count);
  teacher_engagement_score = at_most_one c.teacher_engagement_score;
}

unfoldable pub calculate_factors : Config → ℕ → Option Profile → Prompt → AlertContext → Factors
calculate_factors config now profile p c = record {
  urgency = calculate_urgency_score p;
  relevance = calculate_relevance_score p c;
  timing = calculate_timing_score config now c;
  teacher_history = history_score p.category profile;
  session_context = engagement_score c.teacher_engagement_score;
}

abbrev pub weighted : Factors → ℕ
weighted f =
    f.urgency * 30
    + f.relevance * 25
    + f.timing * 20
    + f.teacher_history * 15
    + f.session_context * 10

unfoldable pub calculate_priority_score : Config → ℕ → Option Profile → Prompt → AlertContext → ℕ
calculate_priority_score config now profile p c =
    min 1000000 (weighted (calculate_factors config now profile p c))

pub data BatchGroup : Type 0 where
  immediate next_batch low_priority : BatchGroup

unfoldable pub determine_batch_group : Config → ℕ → Prompt → BatchGroup
determine_batch_group config score p =
    if ltb config.high_priority_threshold score || is_immediate p.suggested_timing
    then immediate
    else if ltb 400000 score
    then next_batch
    else low_priority

abbrev pub calculate_scheduled_delivery : Config → BatchGroup → ℕ → ℕ
calculate_scheduled_delivery config immediate now = now
calculate_scheduled_delivery config next_batch now = now + config.batch_interval_ms
calculate_scheduled_delivery config low_priority now = now + config.batch_interval_ms * 2
