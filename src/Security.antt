-- ===== src/Security.antt =====
-- src/services/websocket/websocket-security-validator.service.ts: who may enter a namespace, and
-- who may use a session. The socket adapter, Redis and the database are a parameter, `Services`,
-- with the world that they act on; a reply `none` is a call that throws. Of a denial the error
-- code is kept, of the security events the type.
pub mod Access
pub mod Rate
mod Examples
use classwaves_backend.Prelude.{
  ℕ, zero, suc, ◌+◌, ◌-◌, Bool, true, false, ◌&&◌, List, [], ◌∷◌, ◌++◌, Option, none, some, any,
  filter, length, ltb, leb, ◌==◌, if◌then◌else◌, Text, text_eq, codes,
}

pub data Role : Type 0 where
  teacher student admin super_admin : Role

pub record SecurityContext : Type 0 where
  pub user_id : Text
  pub role : Role
  pub school_id : Option Text

pub record NamespaceConfig : Type 0 where
  pub allowed_roles : List Role
  pub require_school_verification : Bool
  pub require_session_access : Bool
  pub max_connections_per_user : ℕ
  pub rate_limit_window : ℕ
  pub rate_limit_max_requests : ℕ

pub data ErrorCode : Type 0 where
  invalid_namespace role_access_denied connection_limit_exceeded rate_limit_exceeded
        school_access_denied :
      ErrorCode
  school_validation_error session_access_denied session_enrollment_required
        session_validation_error :
      ErrorCode

pub data Decision : Type 0 where
  allowed : Decision
  denied : ErrorCode → Decision

-- The types of `logSecurityEvent`.
pub data SecurityEvent : Type 0 where
  entry_refused : ErrorCode → SecurityEvent
  access_granted : SecurityEvent
  disconnected : ℕ → SecurityEvent

pub record Services (S : Type 0) : Type 0 where
  -- The user ids of the namespace's sockets.
  pub fetch_sockets : Text → S → Option (List (Option Text)) × S
  -- The number under a key of Redis; a write for some seconds, and whether it was made.
  pub get : Text → S → Option (Option ℕ) × S
  pub set : Text → ℕ → ℕ → S → Bool × S
  pub incr : Text → S → Option ℕ × S
  pub del : Text → S → Bool × S
  -- Whether a row is found: the member of the school by role, the session by owner and school or
  -- by its id alone, the participant of the session.
  pub query_school : Role → Text → Text → S → Option Bool × S
  pub query_session : Text → Option (Text × Text) → S → Option Bool × S
  pub query_participant : Text → Text → S → Option Bool × S
  -- The audit log, which does not fail.
  pub log : SecurityEvent → S → S

abbrev pub same_role : Role → Role → Bool
same_role teacher teacher = true
same_role student student = true
same_role admin admin = true
same_role super_admin super_admin = true
same_role _ _ = false

abbrev pub sessions_config : Bool → NamespaceConfig
sessions_config development = record {
  allowed_roles = teacher ∷ admin ∷ super_admin ∷ student ∷ [];
  require_school_verification = true;
  require_session_access = false;
  max_connections_per_user = if development then 50 else 5;
  rate_limit_window = 60;
  rate_limit_max_requests = 100;
}

abbrev pub guidance_config : NamespaceConfig
guidance_config = record {
  allowed_roles = teacher ∷ admin ∷ super_admin ∷ [];
  require_school_verification = true;
  require_session_access = false;
  max_connections_per_user = 3;
  rate_limit_window = 60;
  rate_limit_max_requests = 50;
}

abbrev pub admin_config : NamespaceConfig
admin_config = record {
  allowed_roles = admin ∷ super_admin ∷ [];
  require_school_verification = false;
  require_session_access = false;
  max_connections_per_user = 2;
  rate_limit_window = 60;
  rate_limit_max_requests = 200;
}

-- `NAMESPACE_CONFIGS[name]`, by whether NODE_ENV is development.
unfoldable pub config_for : Bool → Text → Option NamespaceConfig
config_for development name =
    if text_eq name (codes "/sessions")
    then some (sessions_config development)
    else if text_eq name (codes "/guidance")
    then some guidance_config
    else if text_eq name (codes "/admin")
    then some admin_config
    else none

unfoldable pub validate_role_access : Role → NamespaceConfig → Decision
validate_role_access role config =
    if any (same_role role) config.allowed_roles then allowed else denied role_access_denied

abbrev pub is_user : Text → Option Text → Bool
is_user user none = false
is_user user (some u) = text_eq u user

abbrev pub rate_key : Text → Text → Text
rate_key name user = codes "rate_limit:" ++ name ++ b':' ∷ user

abbrev pub connection_key : Text → Text → Text
connection_key name user = codes "websocket_connections:" ++ name ++ b':' ∷ user

-- `currentRequests ? parseInt(currentRequests, 10) : 0`.
abbrev pub count_in : Option ℕ → ℕ
count_in none = 0
count_in (some n) = n

-- `context.schoolId || ''`.
abbrev pub school_text : Option Text → Text
school_text none = []
school_text (some t) = t

module _ {S : Type 0} (v : Services S) where
  abbrev pub after_fetch :
      Text → Text → NamespaceConfig → Option (List (Option Text)) × S → Decision × S
  after_fetch name user config (none, s) = (allowed, s)
  after_fetch name user config (some users, s) =
      let active = length (filter (is_user user) users) in
      if leb config.max_connections_per_user active
      then (denied connection_limit_exceeded, s)
      else (allowed, (v.set (connection_key name user) (active + 1) 3600 s).1)

  unfoldable pub validate_connection_limits : Text → Text → NamespaceConfig → S → Decision × S
  validate_connection_limits name user config s =
      after_fetch name user config (v.fetch_sockets name s)

  abbrev pub after_count : Text → Text → NamespaceConfig → Option (Option ℕ) × S → Decision × S
  after_count name user config (none, s) = (allowed, s)
  after_count name user config (some reply, s) =
      let key = rate_key name user in
      let n = count_in reply in
      if leb config.rate_limit_max_requests n
      then (denied rate_limit_exceeded, s)
      else if n == 0
      then (allowed, (v.set key 1 config.rate_limit_window s).1)
      else (allowed, (v.incr key s).1)

  unfoldable pub validate_rate_limit : Text → Text → NamespaceConfig → S → Decision × S
  validate_rate_limit name user config s =
      after_count name user config (v.get (rate_key name user) s)

  -- What is made of the reply of a query, with the codes for no row and for an error.
  abbrev pub row_decision : ErrorCode → ErrorCode → Option Bool × S → Decision × S
  row_decision missing error (none, s) = (denied error, s)
  row_decision missing error (some true, s) = (allowed, s)
  row_decision missing error (some false, s) = (denied missing, s)

  unfoldable pub validate_school_access : SecurityContext → S → Decision × S
  validate_school_access c s = elim c.school_id [
    | none ↦ (allowed, s)
    | some [] ↦ (allowed, s)
    | some (x ∷ school) ↦
        row_decision school_access_denied school_validation_error
          (v.query_school c.role c.user_id (x ∷ school) s)
  ]

  -- One check of `validateNamespaceAccess`: a denial is logged and ends the call.
  abbrev pub guard : Decision × S → (S → Decision × S) → Decision × S
  guard (allowed, s) next = next s
  guard (denied e, s) next = (denied e, v.log (entry_refused e) s)

  -- A failed school check is logged as SCHOOL_ACCESS_DENIED whatever its own code is.
  abbrev pub guard_school : Decision × S → Decision × S
  guard_school (allowed, s) = (allowed, v.log access_granted s)
  guard_school (denied e, s) = (denied e, v.log (entry_refused school_access_denied) s)

  abbrev pub check_school : NamespaceConfig → SecurityContext → S → Decision × S
  check_school config c s =
      guard_school
        (if config.require_school_verification then validate_school_access c s else (allowed, s))

  abbrev pub check_config : Text → SecurityContext → Option NamespaceConfig → S → Decision × S
  check_config name c none s = (denied invalid_namespace, v.log (entry_refused invalid_namespace) s)
  check_config name c (some config) s =
      guard (validate_role_access c.role config, s)
        (λ s1.
          guard (validate_connection_limits name c.user_id config s1)
            (λ s2. guard (validate_rate_limit name c.user_id config s2) (check_school config c)))

  unfoldable pub validate_namespace_access : Bool → Text → SecurityContext → S → Decision × S
  validate_namespace_access development name c s =
      check_config name c (config_for development name) s

  unfoldable pub validate_session_access : SecurityContext → Text → S → Decision × S
  validate_session_access c session s = elim c.role [
    | student ↦
        row_decision session_enrollment_required session_validation_error
          (v.query_participant session c.user_id s)
    | super_admin ↦
        row_decision session_access_denied session_validation_error (v.query_session session none s)
    | teacher ↦
        row_decision session_access_denied session_validation_error
          (v.query_session session (some (c.user_id, school_text c.school_id)) s)
    | admin ↦
        row_decision session_access_denied session_validation_error
          (v.query_session session (some (c.user_id, school_text c.school_id)) s)
  ]

  -- The event is logged unless the write before it throws.
  abbrev log_disconnection : ℕ → Bool × S → S
  log_disconnection n (true, s) = v.log (disconnected (n - 1)) s
  log_disconnection n (false, s) = s

  abbrev after_connections : Text → Option (Option ℕ) × S → S
  after_connections key (none, s) = s
  after_connections key (some reply, s) =
      let n = count_in reply in
      if ltb 1 n
      then log_disconnection n (v.set key (n - 1) 3600 s)
      else log_disconnection n (v.del key s)

  unfoldable pub handle_disconnection : SecurityContext → Text → S → S
  handle_disconnection c name s =
      let key = connection_key name c.user_id in after_connections key (v.get key s)
