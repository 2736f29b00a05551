-- ===== src/Alerts.antt =====
-- src/services/alert-prioritization.service.ts, the queues and the deliveries. An alert is an object:
-- `ref` is its identity, by which its retries and its confirmation timer are found. Pending timers
-- are kept in `timers`, what is sent to the sockets in `emitted`. A delivery is atomic: nothing else
-- happens while the socket module is loaded. The calls of the service are in Alerts/Calls.antt.
pub mod Calls
pub mod Ranking
pub mod Soundness
pub mod Batches
use classwaves_backend.Prelude.{
  ℕ, zero, suc, ◌+◌, ◌*◌, Bool, true, false, not, ◌&&◌, List, [], ◌∷◌, ◌++◌, Option, none, some,
  filter, any, length, ltb, leb, ◌==◌, if◌then◌else◌, Text,
}
use classwaves_backend.Prelude.Dict
use classwaves_backend.Prelude.Dict.{Dict}
use classwaves_backend.AlertScore.{
  Prompt, Config, Profile, Factors, BatchGroup, immediate, next_batch, low_priority,
}

pub record Alert : Type 0 where
  pub ref : ℕ
  pub id : Text
  pub prompt : Prompt
  pub priority_score : ℕ
  pub batch_group : BatchGroup
  pub scheduled_delivery : ℕ
  pub context_factors : Factors
  pub max_retries : ℕ

pub data BatchType : Type 0 where
  urgent regular : BatchType

pub data Emission : Type 0 where
  alert_sent : Alert → Emission
  batch_sent : Text → BatchType → List Alert → Emission

-- What a timer does when it fires.
pub data Task : Type 0 where
  retry_alert confirm_alert : Alert → Task
  run_batch : Text → Task
  confirm_batch : Task

-- Whether the sockets service is there, and whether its `emit` throws.
pub data Socket : Type 0 where
  works absent fails : Socket

pub record Service : Type 0 where
  pub alert_queues : Dict (List Alert)
  pub batch_scheduler : Dict ℕ
  pub teacher_profiles : Dict Profile
  pub delivery_history : Dict (List ℕ)
  pub current_retries : ℕ → ℕ
  pub confirmation_timeout_id : ℕ → Option ℕ
  pub timers : List (ℕ × Task)
  pub next_ref : ℕ
  pub next_timer : ℕ
  pub emitted : List Emission

abbrev pub create : Service
create = record {
  alert_queues = [];
  batch_scheduler = [];
  teacher_profiles = [];
  delivery_history = [];
  current_retries = λ ref. 0;
  confirmation_timeout_id = λ ref. none;
  timers = [];
  next_ref = 0;
  next_timer = 0;
  emitted = [];
}

abbrev pub list_of {ℓ} : {A : Type ℓ} → Option (List A) → List A
list_of none = []
list_of (some xs) = xs

-- `this.alertQueues.get(sessionId) || []`.
abbrev pub queue_of : Text → Service → List Alert
queue_of session s = list_of (Dict.get session s.alert_queues)

abbrev pub put_queue : Text → List Alert → Service → Service
put_queue session alerts s = record s { alert_queues = Dict.set session alerts s.alert_queues }

abbrev pub emit : Emission → Service → Service
emit e s = record s { emitted = s.emitted ++ e ∷ [] }

-- `setTimeout`, whose handle is the number of the timer.
abbrev pub set_timer : Task → Service → Service
set_timer task s = record s {
  timers = s.timers ++ (s.next_timer, task) ∷ [];
  next_timer = s.next_timer + 1;
}

abbrev pub without_timer : ℕ → List (ℕ × Task) → List (ℕ × Task)
without_timer n timers = filter (λ t. not (t.0 == n)) timers

abbrev pub update {ℓ} : {A : Type ℓ} → ℕ → A → (ℕ → A) → ℕ → A
update k a f j = if k == j then a else f j

abbrev pub is_later_than : ℕ → ℕ → ℕ → Bool
is_later_than now ms d = ltb now (d + ms)

-- Deliveries of the last five minutes are kept.
unfoldable pub record_delivery : Text → ℕ → Service → Service
record_delivery session now s =
    let history = list_of (Dict.get session s.delivery_history) ++ now ∷ [] in
    record s {
      delivery_history =
          Dict.set session (filter (is_later_than now 300000) history) s.delivery_history;
    }

unfoldable pub get_recent_deliveries : Text → ℕ → Service → List ℕ
get_recent_deliveries session now s =
    filter (is_later_than now 60000) (list_of (Dict.get session s.delivery_history))

unfoldable pub setup_delivery_confirmation : Alert → Service → Service
setup_delivery_confirmation a s = record (set_timer (confirm_alert a) s) {
  confirmation_timeout_id = update a.ref (some s.next_timer) s.confirmation_timeout_id;
}

-- The `catch`: one more retry is counted, and made after five seconds if there is one left.
unfoldable pub retry_later : Alert → Service → Service
retry_later a s =
    let n = s.current_retries a.ref + 1 in
    let s1 = record s { current_retries = update a.ref n s.current_retries } in
    if ltb n a.max_retries then set_timer (retry_alert a) s1 else s1

unfoldable pub deliver_alert_immediately : Alert → ℕ → Socket → Service → Service
deliver_alert_immediately a now works s =
    setup_delivery_confirmation a (record_delivery a.prompt.session_id now (emit (alert_sent a) s))
deliver_alert_immediately a now absent s = s
deliver_alert_immediately a now fails s = retry_later a s

abbrev pub confirm_urgent : BatchType → Service → Service
confirm_urgent urgent s = set_timer confirm_batch s
confirm_urgent regular s = s

unfoldable pub deliver_alert_batch : BatchType → Text → List Alert → ℕ → Socket → Service → Service
deliver_alert_batch type session alerts now works s =
    confirm_urgent type (record_delivery session now (emit (batch_sent session type alerts) s))
deliver_alert_batch type session alerts now absent s = s
deliver_alert_batch type session alerts now fails s = s

-- A batch that is delivered only if it has alerts.
abbrev pub deliver_some : BatchType → Text → List Alert → ℕ → Socket → Service → Service
deliver_some type session [] now socket s = s
deliver_some type session (a ∷ alerts) now socket s =
    deliver_alert_batch type session (a ∷ alerts) now socket s

unfoldable pub schedule_batch_delivery : Text → Service → Service
schedule_batch_delivery session s = elim (Dict.get session s.batch_scheduler) [
  | some n ↦ s
  | none ↦ record (set_timer (run_batch session) s) {
    batch_scheduler = Dict.set session s.next_timer s.batch_scheduler;
  }
]

abbrev pub is_immediate_group : BatchGroup → Bool
is_immediate_group immediate = true
is_immediate_group next_batch = false
is_immediate_group low_priority = false

abbrev pub is_ready : ℕ → Alert → Bool
is_ready now a = leb a.scheduled_delivery now && not (is_immediate_group a.batch_group)

-- `alerts.includes(a)`, by identity.
abbrev pub includes_alert : List Alert → Alert → Bool
includes_alert alerts a = any (λ b. b.ref == a.ref) alerts

abbrev pub is_high : Config → Alert → Bool
is_high config a = ltb config.high_priority_threshold a.priority_score

unfoldable pub process_batch_delivery : Config → Text → ℕ → Socket → Service → Service
process_batch_delivery config session now socket s =
    let alerts = queue_of session s in
    let ready = filter (is_ready now) alerts in
    let high = filter (is_high config) ready in
    let others = filter (λ a. not (is_high config a)) ready in
    let s1 =
      deliver_some regular session others now socket
        (deliver_some urgent session high now socket s) in
    let done = put_queue session (filter (λ a. not (includes_alert ready a)) alerts) s1 in
    elim ready [ [] ↦ s | a ∷ rest ↦ done ]

-- Before the first alert of a lower score, or at the end.
abbrev pub insert_alert : Alert → List Alert → List Alert
insert_alert a [] = a ∷ []
insert_alert a (b ∷ queue) =
    let rest = insert_alert a queue in
    if ltb b.priority_score a.priority_score then a ∷ b ∷ queue else b ∷ rest

pub data Strategy : Type 0 where
  at_once batch delayed : Strategy

unfoldable pub determine_delivery_strategy : Config → Alert → Text → ℕ → Service → Strategy
determine_delivery_strategy config a session now s =
    let busy = leb config.max_alerts_per_minute (length (get_recent_deliveries session now s)) in
    if is_immediate_group a.batch_group then at_once else if busy then delayed else batch

abbrev pub hand_over : Strategy → Alert → ℕ → Socket → Service → Service
hand_over at_once a now socket s = deliver_alert_immediately a now socket s
hand_over batch a now socket s = schedule_batch_delivery a.prompt.session_id s
hand_over delayed a now socket s = schedule_batch_delivery a.prompt.session_id s

unfoldable pub queue_alert : Alert → Strategy → ℕ → Socket → Service → Service
queue_alert a strategy now socket s =
    let session = a.prompt.session_id in
    hand_over strategy a now socket (put_queue session (insert_alert a (queue_of session s)) s)
