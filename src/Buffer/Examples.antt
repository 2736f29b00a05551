-- ===== src/Buffer/Examples.antt =====
-- The transcript buffers at concrete inputs.
use classwaves_backend.Prelude.{
  ◌↔◌, ◌≤◌, ◌+◌, ◌*◌, ℕ, ◌+◌, ◌≤◌, ◌≡◌, List, [], ◌∷◌, ◌++◌, none, some, arith, refl, length, Text,
  text_eq, codes, Sublist,
}
use classwaves_backend.Prelude.Dict
use classwaves_backend.Buffer.{
  TranscriptBuffer, fresh_buffer, tier1, tier2, Config, PartialConfig, Service, create, buffer_key,
  buffer_transcription, get_buffered_transcripts, perform_cleanup, append_transcript, add_to_buffer,
}
use classwaves_backend.Buffer.History.{
  Call, run_calls, take_last, size_of, texts_for, get_buffered_transcripts-history,
  buffer_key-injective,
}
use classwaves_backend.Buffer.Numbering.{IsSound, buffer_transcription-IsSound}
use classwaves_backend.Buffer.Cleanup.{perform_cleanup-get}
use classwaves_backend.Buffer.Context.{
  ContextQuote, Limits, select_windows, fill_tangent, fill_aligned,
}
use classwaves_backend.Buffer.Windows.{select_windows_sound, chars}

abbrev defaults : Config
defaults = record {
  max_buffer_size = 50;
  max_buffer_age_ms = 30000;
  tier1_window_ms = 30000;
  tier2_window_ms = 180000;
}

abbrev pairs : PartialConfig
pairs = record {
  max_buffer_size = some 2;
  max_buffer_age_ms = none;
  tier1_window_ms = none;
  tier2_window_ms = none;
}

abbrev says : Text → Text → ℕ → Call
says group text now = record {
  group = group;
  session = codes "s";
  text = text;
  now1 = now;
  now2 = now;
}

abbrev calls : List Call
calls =
    says (codes "a") (codes "one") 10
    ∷ says (codes "b") (codes "other") 11
    ∷ says (codes "a") (codes "two") 12
    ∷ says (codes "a") (codes "three") 13
    ∷ []

newest_two :
    (get_buffered_transcripts tier1
      (codes "a")
      (codes "s")
      (run_calls pairs calls (create defaults))).0
    ≡ codes "two" ∷ codes "three" ∷ []
unfolding text_eq run_calls get_buffered_transcripts buffer_transcription add_to_buffer
    append_transcript Dict.get Dict.set buffer_key
newest_two = refl

get_buffered_transcripts-history_example :
    (get_buffered_transcripts tier2
      (codes "a")
      (codes "s")
      (run_calls pairs calls (create defaults))).0
    ≡ take_last (size_of pairs defaults) (texts_for (buffer_key (codes "s") (codes "a")) calls)
get_buffered_transcripts-history_example =
    get_buffered_transcripts-history tier2 (codes "a") (codes "s") pairs defaults calls

buffer_key-injective_example : (codes "s1" ≡ codes "s1") × (codes "g:2" ≡ codes "g:2")
buffer_key-injective_example =
    buffer_key-injective (codes "s1") (codes "s1") (codes "g:2") (codes "g:2") (ground arith)
      (ground arith) refl

created : IsSound (create defaults)
created = record { sound1 = tt; sound2 = tt }

abbrev buffered_once : Service
buffered_once =
    buffer_transcription (codes "a") (codes "s") (codes "one") pairs 10 11 (create defaults)

buffer_transcription-IsSound_example : IsSound buffered_once
buffer_transcription-IsSound_example =
    buffer_transcription-IsSound (codes "a") (codes "s") (codes "one") pairs 10 11 (create defaults)
      created

buffered_once-IsSound : IsSound buffered_once
buffered_once-IsSound =
    buffer_transcription-IsSound (codes "a") (codes "s") (codes "one") pairs 10 11 (create defaults)
      created

-- The one buffer of either tier, as `bufferTranscription` leaves it in tier 1.
abbrev noted : TranscriptBuffer
noted = append_transcript (codes "one") 10 10 (fresh_buffer (codes "a") (codes "s") 10)

perform_cleanup-get_example :
    let r = (perform_cleanup 60011 buffered_once).0 in
    ((Dict.get (codes "s:a") r.tier1_buffers ≡ some noted) ↔ (
      (Dict.get (codes "s:a") buffered_once.tier1_buffers ≡ some noted)
      × (60011 ≤ noted.last_update + buffered_once.config.tier1_window_ms * 2)))
    × ((Dict.get (codes "s:a") r.tier2_buffers ≡ some noted) ↔ (
        (Dict.get (codes "s:a") buffered_once.tier2_buffers ≡ some noted)
        × (60011 ≤ noted.last_update + buffered_once.config.tier2_window_ms * 2)))
unfolding buffer_transcription add_to_buffer append_transcript Dict.get Dict.set buffer_key
perform_cleanup-get_example =
    perform_cleanup-get 60011 buffered_once (codes "s:a") noted (refl, tt) (refl, tt)

abbrev quote : Text → ℕ → ContextQuote
quote text t = record { speaker_label = codes "S1"; text = text; timestamp = t }

abbrev quotes : List ContextQuote
quotes =
    quote (codes "plants use light") 1
    ∷ quote (codes "yes") 2
    ∷ quote (codes "lunch") 3
    ∷ quote (codes "ok") 4
    ∷ []

abbrev limits : Limits
limits = record { max_chars = 20; line_limit = 2 }

two_windows : select_windows limits quotes ≡ record {
  aligned = quote (codes "yes") 2 ∷ [];
  tangent = quote (codes "lunch") 3 ∷ quote (codes "ok") 4 ∷ [];
}
unfolding select_windows fill_tangent fill_aligned
two_windows = refl

select_windows_sound_example :
    Sublist
      ((select_windows limits quotes).aligned ++ (select_windows limits quotes).tangent)
      quotes
    × (length (select_windows limits quotes).aligned ≤ 2)
    × (length (select_windows limits quotes).tangent ≤ 2)
    × (chars (select_windows limits quotes).aligned + chars (select_windows limits quotes).tangent
        ≤ 20)
select_windows_sound_example =
    select_windows_sound limits quotes
      (omega arith, (omega arith, (omega arith, (omega arith, tt))))
