-- ===== src/Security/Examples.antt =====
-- The security checks with services that answer, over a store of numbers.
use classwaves_backend.Prelude.{
  ℕ, ◌+◌, ◌-◌, ◌≤◌, ◌≡◌, true, false, [], some, arith, refl, min, Text, codes, inr, text_eq,
  text_eq_refl,
}
use classwaves_backend.Prelude.Dict
use classwaves_backend.Prelude.Dict.{Dict, get-set}
use classwaves_backend.Security.{
  teacher, student, SecurityContext, allowed, denied, role_access_denied, Services, rate_key,
  count_in, guidance_config, config_for, validate_role_access, validate_connection_limits,
  validate_rate_limit, validate_school_access, validate_namespace_access,
}
use classwaves_backend.Security.Access.{
  Granted, validate_namespace_access-Granted, validate_namespace_access-student,
}
use classwaves_backend.Security.Rate.{Counter, requests, requests-limit}

-- Nobody is connected yet, and every row is found.
abbrev services : Services (Dict ℕ)
services = record {
  fetch_sockets = λ name s. (some [], s);
  get = λ key s. (some (Dict.get key s), s);
  set = λ key n ttl s. (true, Dict.set key n s);
  incr = λ key s.
      (some (count_in (Dict.get key s) + 1), Dict.set key (count_in (Dict.get key s) + 1) s);
  del = λ key s. (true, Dict.delete key s);
  query_school = λ role user school s. (some true, s);
  query_session = λ session owner s. (some true, s);
  query_participant = λ session user s. (some true, s);
  log = λ e s. s;
}

abbrev counter : (key : Text) → Counter services key
counter key = record {
  view = λ s. count_in (Dict.get key s);
  read = λ s. Dict.get key s;
  get_reads = λ s. refl;
  read_view = λ s. refl;
  get_keeps = λ s. refl;
  set_writes = λ n ttl s. rw (get-set key key n s, text_eq_refl key);
  incr_adds = λ s. rw (get-set key key (count_in (Dict.get key s) + 1) s, text_eq_refl key);
}

abbrev ms_lee : SecurityContext
ms_lee = record { user_id = codes "t1"; role = teacher; school_id = some (codes "s1") }

abbrev sam : SecurityContext
sam = record { user_id = codes "p1"; role = student; school_id = some (codes "s1") }

guidance_opens :
    (validate_namespace_access services false (codes "/guidance") ms_lee []).0 ≡ allowed
unfolding validate_namespace_access config_for validate_role_access validate_connection_limits
    validate_rate_limit validate_school_access text_eq Dict.get Dict.set
guidance_opens = refl

validate_namespace_access-Granted_example : Granted services false (codes "/guidance") ms_lee []
validate_namespace_access-Granted_example =
    validate_namespace_access-Granted services false (codes "/guidance") ms_lee [] guidance_opens

validate_namespace_access-student_example :
    validate_namespace_access services false (codes "/admin") sam []
    ≡ (denied role_access_denied, [])
validate_namespace_access-student_example =
    validate_namespace_access-student services false (codes "/admin") sam [] refl (inr refl)

abbrev key : Text
key = rate_key (codes "/guidance") (codes "t1")

fresh_count : count_in (Dict.get key []) ≤ 50
unfolding Dict.get
fresh_count = omega arith

abbrev sixty : ℕ × Dict ℕ
sixty = requests services (codes "/guidance") (codes "t1") guidance_config (counter key) 60 []

requests-limit_example :
    (sixty.0 ≡ min 60 (50 - count_in (Dict.get key [])))
    × (count_in (Dict.get key sixty.1) ≡ min (count_in (Dict.get key []) + 60) 50)
requests-limit_example =
    requests-limit services (codes "/guidance") (codes "t1") guidance_config (counter key) 60 []
      fresh_count
