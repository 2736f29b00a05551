-- ===== src/Security/Access.antt =====
-- What a granted access rests on.
use classwaves_backend.Prelude.{
  ℕ, ◌<◌, ◌≡◌, ◌⊎◌, Bool, true, false, List, [], ◌∷◌, Option, none, some, arith, refl, any, filter,
  length, Text, text_eq, codes, inl, inr, Option-cases,
}
use classwaves_backend.Security.{
  Role, student, SecurityContext, NamespaceConfig, Decision, allowed, denied, ErrorCode, Services,
  same_role, role_access_denied, invalid_namespace, entry_refused, config_for, is_user, rate_key,
  count_in, row_decision, validate_role_access, validate_connection_limits, validate_rate_limit,
  validate_school_access, validate_namespace_access, after_fetch, after_count, guard, guard_school,
  check_config,
}

-- The reply of the socket adapter leaves room for one more connection; an error does.
abbrev pub HasRoom : Text → ℕ → Option (List (Option Text)) → Type 0
HasRoom user most none = Unit
HasRoom user most (some users) = length (filter (is_user user) users) < most

-- The reply of Redis leaves room for one more request; an error does.
abbrev pub HasBudget : ℕ → Option (Option ℕ) → Type 0
HasBudget most none = Unit
HasBudget most (some reply) = count_in reply < most

-- A school that is named is confirmed by the database; an error does not confirm it.
abbrev pub IsConfirmed : Option Text → (Text → Option Bool) → Type 0
IsConfirmed none query = Unit
IsConfirmed (some []) query = Unit
IsConfirmed (some (x ∷ school)) query = query (x ∷ school) ≡ some true

listed_role :
    (role : Role) (config : NamespaceConfig)
    → validate_role_access role config ≡ allowed
    → any (same_role role) config.allowed_roles ≡ true
unfolding validate_role_access
listed_role role config h = ground arith

module _ {S : Type 0} (v : Services S) where
  after_fetch-allowed :
      (name user : Text) (config : NamespaceConfig) (r : Option (List (Option Text))) (s : S)
      → (after_fetch v name user config (r, s)).0 ≡ allowed
      → HasRoom user config.max_connections_per_user r
  after_fetch-allowed name user config none s h = tt
  after_fetch-allowed name user config (some users) s h = ground arith

  after_count-allowed :
      (name user : Text) (config : NamespaceConfig) (r : Option (Option ℕ)) (s : S)
      → (after_count v name user config (r, s)).0 ≡ allowed
      → HasBudget config.rate_limit_max_requests r
  after_count-allowed name user config none s h = tt
  after_count-allowed name user config (some reply) s h = ground arith

  row_decision-allowed :
      (missing error : ErrorCode) (r : Option Bool) (s : S)
      → (row_decision v missing error (r, s)).0 ≡ allowed
      → r ≡ some true
  row_decision-allowed missing error none s h = ground arith
  row_decision-allowed missing error (some true) s h = refl
  row_decision-allowed missing error (some false) s h = ground arith

  guard-allowed :
      (d : Decision × S) (next : S → Decision × S)
      → (guard v d next).0 ≡ allowed
      → (d.0 ≡ allowed) × ((next d.1).0 ≡ allowed)
  guard-allowed (allowed, s) next h = (refl, h)
  guard-allowed (denied e, s) next h = absurd (ground arith)

  guard_school-allowed : (d : Decision × S) → (guard_school v d).0 ≡ allowed → d.0 ≡ allowed
  guard_school-allowed (allowed, s) h = refl
  guard_school-allowed (denied e, s) h = absurd (ground arith)

  school-IsConfirmed :
      (c : SecurityContext) (school : Option Text) (s : S)
      → c.school_id ≡ school
      → (validate_school_access v c s).0 ≡ allowed
      → IsConfirmed school (λ t. (v.query_school c.role c.user_id t s).0)
  unfolding validate_school_access
  school-IsConfirmed c none s e h = tt
  school-IsConfirmed c (some []) s e h = tt
  school-IsConfirmed c (some (x ∷ school)) s e h =
      row_decision-allowed _ _ _ _ (rw (e, validate_school_access) at h)

  module _ (development : Bool) (name : Text) (c : SecurityContext) (s : S) where
    abbrev pub connected : NamespaceConfig → S
    connected config = (validate_connection_limits v name c.user_id config s).1

    abbrev pub counted : NamespaceConfig → S
    counted config = (validate_rate_limit v name c.user_id config (connected config)).1

    -- The replies that a granted access has had, each in the world that the checks before it left.
    pub record Granted : Type 0 where
      pub config : NamespaceConfig
      pub configured : config_for development name ≡ some config
      pub role_listed : any (same_role c.role) config.allowed_roles ≡ true
      pub room : HasRoom c.user_id config.max_connections_per_user (v.fetch_sockets name s).0
      pub budget :
          HasBudget config.rate_limit_max_requests
            (v.get (rate_key name c.user_id) (connected config)).0
      pub member :
          config.require_school_verification ≡ true
          → IsConfirmed c.school_id (λ t. (v.query_school c.role c.user_id t (counted config)).0)

    check_config-Granted :
        (config : NamespaceConfig)
        → config_for development name ≡ some config
        → (check_config v name c (some config) s).0 ≡ allowed
        → Granted
    unfolding validate_role_access validate_connection_limits validate_rate_limit
    check_config-Granted config e h =
        let (role, h1) = guard-allowed (validate_role_access c.role config, s) _ h in
        let (room', h2) =
          guard-allowed (validate_connection_limits v name c.user_id config s) _ h1 in
        let (budget', h3) =
          guard-allowed (validate_rate_limit v name c.user_id config (connected config)) _ h2 in
        let school = guard_school-allowed _ h3 in
        record {
          config = config;
          configured = e;
          role_listed = listed_role c.role config role;
          room = after_fetch-allowed name c.user_id config _ _ room';
          budget = after_count-allowed name c.user_id config _ _ budget';
          member = λ needed.
              school-IsConfirmed c c.school_id (counted config) refl (rw needed at school);
        }

    -- Access to a namespace is granted only if the namespace is configured, the role is on its list,
    -- the user has fewer sockets there than the limit and fewer requests in the window than the
    -- limit (or the adapter, or Redis, fails to say), and, where the namespace asks for it and the
    -- context names a school, the database confirms the user's membership without an error.
    pub validate_namespace_access-Granted :
        (validate_namespace_access v development name c s).0 ≡ allowed → Granted
    unfolding validate_namespace_access
    validate_namespace_access-Granted h = elim (Option-cases (config_for development name)) [
      | inl e ↦
          let refused : denied invalid_namespace ≡ allowed = rw e at h in absurd (ground arith)
      | inr (config, e) ↦ check_config-Granted config e (rw e at h)
    ]

-- A student is turned away from the guidance and the admin namespaces whatever the services say:
-- the only effect is one security event.
pub validate_namespace_access-student :
    {S : Type 0} (v : Services S) (development : Bool) (name : Text) (c : SecurityContext) (s : S)
    → c.role ≡ student
    → (name ≡ codes "/guidance") ⊎ (name ≡ codes "/admin")
    → validate_namespace_access v development name c s
      ≡ (denied role_access_denied, v.log (entry_refused role_access_denied) s)
unfolding validate_namespace_access validate_role_access config_for text_eq
validate_namespace_access-student v development name c s is_student (inl e) = rw (e, is_student)
validate_namespace_access-student v development name c s is_student (inr e) = rw (e, is_student)
