-- ===== src/Security/Rate.antt =====
-- The rate limit over a run of requests in one window.
use classwaves_backend.Prelude.{
  ℕ, zero, suc, ◌+◌, ◌-◌, ◌≤◌, ◌≡◌, ◌∙◌, ap, Option, some, arith, refl, min, leb, ◌==◌,
  if◌then◌else◌, Text, Bool-cases, inl, inr,
}
use classwaves_backend.Security.{
  NamespaceConfig, Decision, allowed, denied, Services, rate_key, count_in, validate_rate_limit,
}

-- The documented behaviour of the commands on one key while its time is not over: `view` is the
-- number under it, 0 where there is none.
pub record Counter {S : Type 0} (v : Services S) (key : Text) : Type 0 where
  pub view : S → ℕ
  pub read : S → Option ℕ
  pub get_reads : (s : S) → (v.get key s).0 ≡ some (read s)
  pub read_view : (s : S) → count_in (read s) ≡ view s
  pub get_keeps : (s : S) → view (v.get key s).1 ≡ view s
  pub set_writes : (n ttl : ℕ) (s : S) → view (v.set key n ttl s).1 ≡ n
  pub incr_adds : (s : S) → view (v.incr key s).1 ≡ view s + 1

abbrev pub allowed_count : Decision → ℕ
allowed_count allowed = 1
allowed_count (denied e) = 0

module _ {S : Type 0} (v : Services S) (name user : Text) (config : NamespaceConfig)
    (k : Counter v (rate_key name user)) where
  -- `n` requests, one after the other, with the number of those that are allowed.
  unfoldable pub requests : ℕ → S → ℕ × S
  requests zero s = (0, s)
  requests (suc n) s =
      let (d, s1) = validate_rate_limit v name user config s in
      let (rest, s2) = requests n s1 in (allowed_count d + rest, s2)

  one_request :
      (s : S)
      → (allowed_count (validate_rate_limit v name user config s).0
          ≡ (if leb config.rate_limit_max_requests (k.view s) then 0 else 1))
        × (k.view (validate_rate_limit v name user config s).1
            ≡ (if leb config.rate_limit_max_requests (k.view s) then k.view s else k.view s + 1))
  unfolding validate_rate_limit
  one_request s =
      rw (k.get_reads s, k.read_view s)
        (elim (Bool-cases (leb config.rate_limit_max_requests (k.view s))) [
          | inl full ↦ rw full (refl, k.get_keeps s)
          | inr room ↦ elim (Bool-cases (k.view s == 0)) [
            | inl first ↦ rw (room, first) (refl, k.set_writes 1 _ _ ∙ ground arith)
            | inr later ↦ rw (room, later) (refl, k.incr_adds _ ∙ ap (λ n. n + 1) (k.get_keeps s))
          ]
        ])

  -- Of any number of requests of a user in one window of a namespace, one after the other, exactly
  -- as many are allowed as the limit leaves, and the counter never goes beyond the limit.
  pub requests-limit :
      (n : ℕ) (s : S)
      → k.view s ≤ config.rate_limit_max_requests
      → ((requests n s).0 ≡ min n (config.rate_limit_max_requests - k.view s))
        × (k.view (requests n s).1 ≡ min (k.view s + n) config.rate_limit_max_requests)
  unfolding requests
  requests-limit zero s h = (omega arith, omega arith)
  requests-limit (suc n) s h =
      let (count, next) = one_request s in
      let s1 = (validate_rate_limit v name user config s).1 in
      elim (Bool-cases (leb config.rate_limit_max_requests (k.view s))) [
        | inl full ↦
            let c0 = rw full at count in
            let n0 = rw full at next in
            let (a, b) = requests-limit n s1 (omega (arith, n0)) in
            (ground (arith, a, c0, n0), ground (arith, b, n0))
        | inr room ↦
            let c1 = rw room at count in
            let n1 = rw room at next in
            let (a, b) = requests-limit n s1 (ground (arith, n1)) in
            (ground (arith, a, c1, n1), ground (arith, b, n1))
      ]
