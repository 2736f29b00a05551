-- ===== src/Dedupe.antt =====
-- src/services/websocket/utils/dedupe.util.ts: the window in which a broadcast with the same hash is
-- dropped. `now - last.ts < windowMs` is written as `now < last.ts + windowMs`.
pub mod Window
mod Examples
use classwaves_backend.Prelude.{
  ℕ, ◌+◌, Bool, true, false, ◌&&◌, List, [], ◌∷◌, Option, none, some, ltb, if◌then◌else◌, Text,
  text_eq,
}
use classwaves_backend.Prelude.Dict
use classwaves_backend.Prelude.Dict.{Dict}

pub record Sent : Type 0 where
  pub hash : Text
  pub ts : ℕ

pub record DedupeWindow : Type 0 where
  pub window_ms : ℕ
  pub map : Dict Sent

abbrev pub new_window : ℕ → DedupeWindow
new_window ms = record { window_ms = ms; map = [] }

abbrev pub repeats : Text → ℕ → ℕ → Option Sent → Bool
repeats hash now ms none = false
repeats hash now ms (some last) = text_eq last.hash hash && ltb now (last.ts + ms)

unfoldable pub is_duplicate : Text → Text → ℕ → DedupeWindow → Bool × DedupeWindow
is_duplicate key hash now w =
    if repeats hash now w.window_ms (Dict.get key w.map)
    then (true, w)
    else (false, record w { map = Dict.set key (record { hash = hash; ts = now }) w.map })
