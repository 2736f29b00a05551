-- ===== src/Buffer.antt =====
-- src/services/ai-analysis-buffer.service.ts: the two tiers of transcript buffers, their limits,
-- cleanup and statistics, and the choice of quotes for the context windows. Times are the numbers
-- of `Date.getTime()`; the audit port's calls are kept in order in `audit`, and do not fail the
-- operation. Masking of quotes and the insights from the database are not modelled.
pub mod Context
pub mod History
pub mod Numbering
pub mod Cleanup
pub mod Windows
mod Examples
use classwaves_backend.Prelude.{
  ℕ, zero, suc, ◌+◌, ◌-◌, ◌*◌, Bool, true, false, List, [], ◌∷◌, ◌++◌, Option, none, some, map,
  length, drop, min, max, ltb, if◌then◌else◌, Text, text_eq,
}
use classwaves_backend.Prelude.Dict
use classwaves_backend.Prelude.Dict.{Dict}

pub record Transcript : Type 0 where
  pub content : Text
  pub timestamp : ℕ
  pub sequence_number : ℕ

pub record TranscriptBuffer : Type 0 where
  pub transcripts : List Transcript
  pub window_start : ℕ
  pub last_update : ℕ
  pub last_analysis : Option ℕ
  pub group_id : Text
  pub session_id : Text
  pub sequence_counter : ℕ

pub data Tier : Type 0 where
  tier1 tier2 : Tier

pub record Config : Type 0 where
  pub max_buffer_size : ℕ
  pub max_buffer_age_ms : ℕ
  pub tier1_window_ms : ℕ
  pub tier2_window_ms : ℕ

pub record PartialConfig : Type 0 where
  pub max_buffer_size : Option ℕ
  pub max_buffer_age_ms : Option ℕ
  pub tier1_window_ms : Option ℕ
  pub tier2_window_ms : Option ℕ

-- The calls of `auditLog`: what they are about, the group, the session, and the size they report.
pub data AuditEvent : Type 0 where
  buffered accessed : Text → Text → ℕ → AuditEvent
  analyzed : Text → Text → AuditEvent

pub record Service : Type 0 where
  pub tier1_buffers : Dict TranscriptBuffer
  pub tier2_buffers : Dict TranscriptBuffer
  pub config : Config
  pub audit : List AuditEvent

abbrev pub buffers : Tier → Service → Dict TranscriptBuffer
buffers tier1 s = s.tier1_buffers
buffers tier2 s = s.tier2_buffers

abbrev pub put_buffers : Tier → Dict TranscriptBuffer → Service → Service
put_buffers tier1 m s = record s { tier1_buffers = m }
put_buffers tier2 m s = record s { tier2_buffers = m }

abbrev pub create : Config → Service
create c = record { tier1_buffers = []; tier2_buffers = []; config = c; audit = [] }

abbrev pub log : AuditEvent → Service → Service
log e s = record s { audit = s.audit ++ e ∷ [] }

-- `${sessionId}:${groupId}`.
unfoldable pub buffer_key : Text → Text → Text
buffer_key session group = session ++ b':' ∷ group

abbrev pub clamp : ℕ → ℕ → ℕ → ℕ
clamp lo hi n = max lo (min hi n)

-- `option ?? fallback`.
abbrev pub or_else : Option ℕ → ℕ → ℕ
or_else none d = d
or_else (some n) d = n

abbrev pub normalized : PartialConfig → Config → Config
normalized o c = record {
  max_buffer_size = clamp 1 100 (or_else o.max_buffer_size c.max_buffer_size);
  max_buffer_age_ms = clamp 1000 300000 (or_else o.max_buffer_age_ms c.max_buffer_age_ms);
  tier1_window_ms = clamp 5000 120000 (or_else o.tier1_window_ms c.tier1_window_ms);
  tier2_window_ms = clamp 60000 600000 (or_else o.tier2_window_ms c.tier2_window_ms);
}

-- `number || fallback`.
abbrev pub or_number : ℕ → ℕ → ℕ
or_number zero d = d
or_number (suc n) d = suc n

abbrev pub fresh_buffer : Text → Text → ℕ → TranscriptBuffer
fresh_buffer group session now = record {
  transcripts = [];
  window_start = now;
  last_update = now;
  last_analysis = none;
  group_id = group;
  session_id = session;
  sequence_counter = 0;
}

-- `transcripts.slice(-maxSize)` where there are more than `maxSize`.
abbrev pub limited {ℓ} : {A : Type ℓ} → ℕ → List A → List A
limited size xs = if ltb size (length xs) then drop (length xs - size) xs else xs

unfoldable pub append_transcript : Text → ℕ → ℕ → TranscriptBuffer → TranscriptBuffer
append_transcript text now size b =
    let counter = b.sequence_counter + 1 in
    let entry : Transcript = record {
      content = text;
      timestamp = now;
      sequence_number = counter;
    } in
    record b {
      transcripts = limited size (b.transcripts ++ entry ∷ []);
      last_update = now;
      sequence_counter = counter;
    }

abbrev pub found_or_fresh : Text → Text → ℕ → Option TranscriptBuffer → TranscriptBuffer
found_or_fresh group session now none = fresh_buffer group session now
found_or_fresh group session now (some b) = b

-- `addToBuffer`. The buffer is mutated in place where the source mutates it.
unfoldable pub add_to_buffer : Tier → Text → Text → Text → ℕ → Config → Service → Service
add_to_buffer tier group session text now options s =
    let key = buffer_key session group in
    let buffer = found_or_fresh group session now (Dict.get key (buffers tier s)) in
    let size = or_number options.max_buffer_size s.config.max_buffer_size in
    put_buffers tier (Dict.set key (append_transcript text now size buffer) (buffers tier s)) s

-- `bufferTranscription`, with the clock read once for each tier.
unfoldable pub buffer_transcription : Text → Text → Text → PartialConfig → ℕ → ℕ → Service → Service
buffer_transcription group session text options now1 now2 s =
    let o = normalized options s.config in
    let s1 = log (buffered group session (length text)) s in
    add_to_buffer tier2 group session text now2 o (add_to_buffer tier1 group session text now1 o s1)

unfoldable pub get_buffered_transcripts : Tier → Text → Text → Service → List Text × Service
get_buffered_transcripts tier group session s =
    elim (Dict.get (buffer_key session group) (buffers tier s)) [
      | none ↦ ([], s)
      | some b ↦ (
        map (λ t. t.content) b.transcripts,
        log (accessed group session (length b.transcripts)) s,
      )
    ]

-- The scan for tier 2: the latest update of the session's buffers.
abbrev pub later_update : Text → Option ℕ → TranscriptBuffer → Option ℕ
later_update session latest b =
    if text_eq b.session_id session
    then elim latest [
      | none ↦ some b.last_update
      | some t ↦ if ltb t b.last_update then some b.last_update else some t
    ]
    else latest

pub scan_updates : Text → Option ℕ → Dict TranscriptBuffer → Option ℕ
scan_updates session latest [] = latest
scan_updates session latest ((k, b) ∷ m) = scan_updates session (later_update session latest b) m

-- `getLastBufferedAt`; an empty group is no group.
unfoldable pub get_last_buffered_at : Tier → Text → Option Text → Service → Option ℕ
unfolding scan_updates
get_last_buffered_at tier1 session none s = none
get_last_buffered_at tier1 session (some []) s = none
get_last_buffered_at tier1 session (some (c ∷ group)) s =
    elim (Dict.get (buffer_key session (c ∷ group)) s.tier1_buffers) [
      | none ↦ none
      | some b ↦ some b.last_update
    ]
get_last_buffered_at tier2 session group s = scan_updates session none s.tier2_buffers

unfoldable pub mark_buffer_analyzed : Tier → Text → Text → ℕ → Service → Service
mark_buffer_analyzed tier group session now s =
    let key = buffer_key session group in
    elim (Dict.get key (buffers tier s)) [
      | none ↦ s
      | some b ↦ log (analyzed group session) (
          put_buffers tier (Dict.set key (record b { last_analysis = some now }) (buffers tier s))
            s)
    ]

-- `age > maxAgeMs` with `age = now - lastUpdate`.
abbrev pub is_expired : ℕ → ℕ → TranscriptBuffer → Bool
is_expired now max_age b = ltb (b.last_update + max_age) now

-- The loop of `cleanupBufferMap` over a copy of the entries.
unfoldable pub cleanup_entries :
    ℕ → ℕ → Dict TranscriptBuffer → Dict TranscriptBuffer → ℕ → Dict TranscriptBuffer × ℕ
cleanup_entries now max_age [] m cleaned = (m, cleaned)
cleanup_entries now max_age ((k, b) ∷ entries) m cleaned =
    let dropped = cleanup_entries now max_age entries (Dict.delete k m) (cleaned + 1) in
    let kept = cleanup_entries now max_age entries m cleaned in
    if is_expired now max_age b then dropped else kept

unfoldable pub cleanup_buffer_map : ℕ → ℕ → Dict TranscriptBuffer → Dict TranscriptBuffer × ℕ
cleanup_buffer_map now max_age m = cleanup_entries now max_age m m 0

-- `performCleanup`, with the number of buffers that it drops.
unfoldable pub perform_cleanup : ℕ → Service → Service × ℕ
perform_cleanup now s =
    let (m1, n1) = cleanup_buffer_map now (s.config.tier1_window_ms * 2) s.tier1_buffers in
    let (m2, n2) = cleanup_buffer_map now (s.config.tier2_window_ms * 2) s.tier2_buffers in
    (record s { tier1_buffers = m1; tier2_buffers = m2 }, n1 + n2)

abbrev pub shutdown : Service → Service
shutdown s = record s { tier1_buffers = []; tier2_buffers = [] }

pub record BufferStats : Type 0 where
  pub total_buffers : ℕ
  pub total_transcripts : ℕ
  pub memory_usage_bytes : ℕ
  pub oldest_buffer : Option ℕ
  pub newest_buffer : Option ℕ

pub memory_of : List Transcript → ℕ → ℕ
memory_of [] bytes = bytes
memory_of (t ∷ ts) bytes = memory_of ts (bytes + length t.content * 2)

abbrev pub earliest : Option ℕ → ℕ → Option ℕ
earliest none t = some t
earliest (some old) t = if ltb t old then some t else some old

abbrev pub latest : Option ℕ → ℕ → Option ℕ
latest none t = some t
latest (some new') t = if ltb new' t then some t else some new'

pub stats_from : BufferStats → Dict TranscriptBuffer → BufferStats
unfolding memory_of
stats_from acc [] = acc
stats_from acc ((k, b) ∷ m) =
    stats_from
      (record acc {
        total_transcripts = acc.total_transcripts + length b.transcripts;
        memory_usage_bytes = memory_of b.transcripts acc.memory_usage_bytes;
        oldest_buffer = earliest acc.oldest_buffer b.window_start;
        newest_buffer = latest acc.newest_buffer b.last_update;
      })
      m

unfoldable pub calculate_buffer_stats : Dict TranscriptBuffer → BufferStats
unfolding stats_from
calculate_buffer_stats m =
    stats_from
      (record {
        total_buffers = length m;
        total_transcripts = 0;
        memory_usage_bytes = 0;
        oldest_buffer = none;
        newest_buffer = none;
      })
      m
