-- ===== src/Alerts/Calls.antt =====
-- The calls of the alert service, and its timers.
use classwaves_backend.Prelude.{
  ℕ, ◌+◌, ◌-◌, Bool, true, false, not, ◌&&◌, List, [], ◌∷◌, ◌++◌, Option, none, some, min, map,
  filter, length, ltb, ◌==◌, if◌then◌else◌, Text, text_eq,
}
use classwaves_backend.Prelude.Dict
use classwaves_backend.Prelude.Dict.{Dict}
use classwaves_backend.AlertScore.{
  Prompt, AlertContext, Config, Profile, Category, BatchGroup, immediate, next_batch, low_priority,
  same_category, validated, calculate_factors, calculate_priority_score, determine_batch_group,
  calculate_scheduled_delivery,
}
use classwaves_backend.Alerts.{
  Alert, Service, Socket, Task, retry_alert, confirm_alert, run_batch, confirm_batch, urgent,
  queue_of, put_queue, without_timer, update, deliver_alert_immediately, deliver_alert_batch,
  process_batch_delivery, determine_delivery_strategy, queue_alert, is_high, includes_alert,
}

abbrev pub retries_of : BatchGroup → ℕ
retries_of immediate = 3
retries_of next_batch = 1
retries_of low_priority = 1

unfoldable pub create_prioritized_alert :
    Config → Text → ℕ → Option Profile → Prompt → AlertContext → ℕ → ℕ → Alert
create_prioritized_alert config id ref profile p c score now =
    let group = determine_batch_group config score p in
    record {
      ref = ref;
      id = id;
      prompt = p;
      priority_score = score;
      batch_group = group;
      scheduled_delivery = calculate_scheduled_delivery config group now;
      context_factors = calculate_factors config now profile p c;
      max_retries = retries_of group;
    }

-- `prioritizeAlert`; `id` is the name from the clock and a random number.
unfoldable pub prioritize_alert :
    Config → Text → Prompt → AlertContext → ℕ → Socket → Service → Alert × Service
prioritize_alert config id p c now socket s =
    let v = validated c in
    let profile = Dict.get v.teacher_id s.teacher_profiles in
    let score = calculate_priority_score config now profile p v in
    let a = create_prioritized_alert config id s.next_ref profile p v score now in
    let strategy = determine_delivery_strategy config a v.session_id now s in
    (a, queue_alert a strategy now socket (record s { next_ref = s.next_ref + 1 }))

pub data Response : Type 0 where
  acknowledged used dismissed expired : Response

abbrev pub fresh_profile : ℕ → Profile
fresh_profile now = record {
  responsiveness = 5000;
  effective_alert_types = [];
  dismissal_patterns = [];
  last_updated = now;
}

abbrev pub profile_of : ℕ → Option Profile → Profile
profile_of now none = fresh_profile now
profile_of now (some p) = p

abbrev pub responded : Response → ℕ → ℕ
responded used n = n + 1000
responded dismissed n = n - 500
responded acknowledged n = n
responded expired n = n

unfoldable pub update_teacher_profile : Text → Response → ℕ → Service → Service
update_teacher_profile teacher r now s =
    let p = profile_of now (Dict.get teacher s.teacher_profiles) in
    let p1 = record p {
      responsiveness = min 10000 (responded r p.responsiveness);
      last_updated = now;
    } in
    record s { teacher_profiles = Dict.set teacher p1 s.teacher_profiles }

unfoldable pub remove_alert_from_queue : Text → Text → Service → Service
remove_alert_from_queue session id s = elim (Dict.get session s.alert_queues) [
  | none ↦ s
  | some queue ↦ put_queue session (filter (λ a. not (text_eq a.id id)) queue) s
]

abbrev pub ends_alert : Response → Bool
ends_alert acknowledged = false
ends_alert used = true
ends_alert dismissed = true
ends_alert expired = true

unfoldable pub record_alert_response :
    Config → Text → Text → Text → Response → ℕ → Service → Service
record_alert_response config id session teacher r now s =
    let s1 = if config.learning_enabled then update_teacher_profile teacher r now s else s in
    if ends_alert r then remove_alert_from_queue session id s1 else s1

abbrev pub find_alert : Text → List Alert → Option Alert
find_alert id [] = none
find_alert id (a ∷ alerts) = if text_eq a.id id then some a else find_alert id alerts

abbrev pub clear_confirmation : Alert → Option ℕ → Service → Service
clear_confirmation a none s = s
clear_confirmation a (some n) s = record s {
  timers = without_timer n s.timers;
  confirmation_timeout_id = update a.ref none s.confirmation_timeout_id;
}

unfoldable pub confirm_alert_delivery : Text → Text → Service → Service
confirm_alert_delivery id session s = elim (find_alert id (queue_of session s)) [
  | none ↦ s
  | some a ↦ clear_confirmation a (s.confirmation_timeout_id a.ref) s
]

unfoldable pub flush_high_priority_alerts : Config → Text → ℕ → Socket → Service → ℕ × Service
flush_high_priority_alerts config session now socket s =
    let alerts = queue_of session s in
    let high = filter (is_high config) alerts in
    let count = length high in
    let s1 = deliver_alert_batch urgent session high now socket s in
    let done = put_queue session (filter (λ a. not (includes_alert high a)) alerts) s1 in
    elim high [ [] ↦ (0, s) | a ∷ rest ↦ (count, done) ]

abbrev pub is_alive : Config → ℕ → Alert → Bool
is_alive config now a = not (ltb (a.scheduled_delivery + config.response_timeout_ms) now)

abbrev pub clean_queue : Config → ℕ → Text × List Alert → Text × List Alert
clean_queue config now (session, alerts) = (session, filter (is_alive config now) alerts)

unfoldable pub cleanup_expired_alerts : Config → ℕ → Service → Service
cleanup_expired_alerts config now s = record s {
  alert_queues = map (clean_queue config now) s.alert_queues;
}

pub record Statistics : Type 0 where
  pub total_pending : ℕ
  pub high : ℕ
  pub medium : ℕ
  pub low : ℕ
  pub by_category : Category → ℕ

abbrev pub concat_queues : Dict (List Alert) → List Alert
concat_queues [] = []
concat_queues ((k, q) ∷ m) = q ++ concat_queues m

abbrev pub alerts_for : Option Text → Service → List Alert
alerts_for none s = concat_queues s.alert_queues
alerts_for (some []) s = concat_queues s.alert_queues
alerts_for (some (x ∷ session)) s = queue_of (x ∷ session) s

unfoldable pub get_alert_statistics : Option Text → Service → Statistics
get_alert_statistics session s =
    let all = alerts_for session s in
    record {
      total_pending = length all;
      high = length (filter (λ a. ltb 700000 a.priority_score) all);
      medium =
          length
            (filter (λ a. ltb 400000 a.priority_score && not (ltb 700000 a.priority_score)) all);
      low = length (filter (λ a. not (ltb 400000 a.priority_score)) all);
      by_category = λ c. length (filter (λ a. same_category c a.prompt.category) all);
    }

abbrev pub perform : Config → Task → ℕ → Socket → Service → Service
perform config (retry_alert a) now socket s = deliver_alert_immediately a now socket s
perform config (confirm_alert a) now socket s =
    if ltb (s.current_retries a.ref) a.max_retries
    then deliver_alert_immediately a now socket s
    else s
perform config (run_batch session) now socket s =
    let s1 = process_batch_delivery config session now socket s in
    record s1 { batch_scheduler = Dict.delete session s1.batch_scheduler }
perform config confirm_batch now socket s = s

abbrev pub task_at : ℕ → List (ℕ × Task) → Option Task
task_at n [] = none
task_at n ((m, t) ∷ timers) = if m == n then some t else task_at n timers

-- The timer `n` fires, if it is pending.
unfoldable pub fire : Config → ℕ → ℕ → Socket → Service → Service
fire config n now socket s = elim (task_at n s.timers) [
  | none ↦ s
  | some t ↦ perform config t now socket (record s { timers = without_timer n s.timers })
]

-- The calls that change the state, a firing timer included.
pub data Request : Type 0 where
  prioritize : Text → Prompt → AlertContext → Request
  respond : Text → Text → Text → Response → Request
  confirm : Text → Text → Request
  flush_session : Text → Request
  clean : Request
  fires : ℕ → Request

unfoldable pub serve : Config → Request → ℕ → Socket → Service → Service
serve config (prioritize id p c) now socket s = (prioritize_alert config id p c now socket s).1
serve config (respond id session teacher r) now socket s =
    record_alert_response config id session teacher r now s
serve config (confirm id session) now socket s = confirm_alert_delivery id session s
serve config (flush_session session) now socket s =
    (flush_high_priority_alerts config session now socket s).1
serve config clean now socket s = cleanup_expired_alerts config now s
serve config (fires n) now socket s = fire config n now socket s

unfoldable pub serve_all : Config → List (Request × ℕ × Socket) → Service → Service
serve_all config [] s = s
serve_all config ((r, now, socket) ∷ rs) s = serve_all config rs (serve config r now socket s)
