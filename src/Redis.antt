-- ===== src/Redis.antt =====
-- What the services use of Redis, a client of a third party with the world it acts on: the store,
-- the clock, and whatever other processes do meanwhile. A reply `none` is a call that throws.
use classwaves_backend.Prelude.{ℕ, ◌≡◌, ◌≢◌, Bool, true, List, Option, none, some, Text}

-- A stored text: a lock that names its holder, or a non-empty
-- text that does not parse.
pub data Stored : Type 0 where
  lock : Text → Stored
  garbage : Text → Stored

pub record Client (S : Type 0) : Type 0 where
  -- `Date.now()`.
  pub now : S → ℕ
  -- `SET key value EX ttl NX`: whether the reply is `OK`.
  pub set_nx : Text → Stored → ℕ → S → Option Bool × S
  pub get : Text → S → Option (Option Stored) × S
  -- The seconds left; 0 stands for every reply that is not positive.
  pub ttl : Text → S → Option ℕ × S
  pub del : Text → S → Option ℕ × S
  pub expire : Text → ℕ → S → Option ℕ × S
  -- A `SCAN` from cursor to cursor, to the end.
  pub scan : Text → S → Option (List Text) × S
  -- A timer of so many milliseconds, and what happens until it fires.
  pub sleep : ℕ → S → S

-- The documented behaviour of the commands on one key, `view` being its live value: `NX` writes
-- only where there is none, reading changes nothing, and `DEL` removes.
pub record Store {S : Type 0} (c : Client S) (key : Text) : Type 0 where
  pub view : S → Option Stored
  pub set_free :
      (v : Stored) (ttl : ℕ) (s : S)
      → view s ≡ none
      → (c.set_nx key v ttl s).0 ≢ none
      → ((c.set_nx key v ttl s).0 ≡ some true) × (view (c.set_nx key v ttl s).1 ≡ some v)
  pub set_held :
      (v w : Stored) (ttl : ℕ) (s : S)
      → view s ≡ some w
      → ((c.set_nx key v ttl s).0 ≢ some true) × (view (c.set_nx key v ttl s).1 ≡ some w)
  pub get_view : (s : S) → (c.get key s).0 ≢ none → (c.get key s).0 ≡ some (view s)
  pub get_keeps : (s : S) → view (c.get key s).1 ≡ view s
  pub ttl_keeps : (s : S) → view (c.ttl key s).1 ≡ view s
  pub del_removes :
      (w : Stored) (s : S)
      → view s ≡ some w
      → (c.del key s).0 ≢ none
      → ((c.del key s).0 ≡ some 1) × (view (c.del key s).1 ≡ none)
