-- ===== src/Buffer/Numbering.antt =====
-- The sequence numbers of a buffer, and its bounds.
use classwaves_backend.Prelude.{
  ℕ, zero, suc, ◌+◌, ◌-◌, ◌≤◌, ◌<◌, ◌≡◌, List, [], ◌∷◌, ◌++◌, Option, none, some, arith, refl,
  length, drop, ltb, All, Text, length-append, length-drop, Bool-cases, inl, inr, Option-cases,
  subst,
}
use native.Mathlib.Nat.{add-zero}
use classwaves_backend.Prelude.Dict
use classwaves_backend.Prelude.Dict.{Dict, get-All, set-All}
use classwaves_backend.Buffer.{
  Transcript, TranscriptBuffer, Tier, tier1, tier2, Config, PartialConfig, Service, buffers,
  buffer_key, normalized, append_transcript, found_or_fresh, put_buffers, add_to_buffer,
  buffer_transcription, mark_buffer_analyzed,
}
use classwaves_backend.Buffer.History.{or_number_pos}

-- Sequence numbers that go up by one from `k`.
abbrev pub IsNumbered : ℕ → List Transcript → Type 0
IsNumbered k [] = Unit
IsNumbered k (t ∷ ts) = (t.sequence_number ≡ k) × IsNumbered (suc k) ts

-- A buffer holds the last of the entries that it was given: their numbers are consecutive and end
-- at the counter, and there are between one and a hundred of them.
pub record IsValid (b : TranscriptBuffer) : Type 0 where
  pub counted : length b.transcripts ≤ b.sequence_counter
  pub numbered : IsNumbered (suc b.sequence_counter - length b.transcripts) b.transcripts
  pub bounded : length b.transcripts ≤ 100
  pub nonempty : 0 < length b.transcripts

IsNumbered-append :
    (k : ℕ) (ts : List Transcript) (t : Transcript)
    → IsNumbered k ts
    → t.sequence_number ≡ k + length ts
    → IsNumbered k (ts ++ t ∷ [])
IsNumbered-append k [] t h e = (omega arith, tt)
IsNumbered-append k (u ∷ ts) t h e = (h.0, IsNumbered-append (suc k) ts t h.1 (omega arith))

IsNumbered-drop :
    (n k : ℕ) (ts : List Transcript)
    → n ≤ length ts
    → IsNumbered k ts
    → IsNumbered (k + n) (drop n ts)
IsNumbered-drop zero k ts le h = rw add-zero h
IsNumbered-drop (suc n) k [] le h = absurd (omega arith)
IsNumbered-drop (suc n) k (t ∷ ts) le h =
    let e : k + suc n ≡ suc k + n = omega arith in
    rw e (IsNumbered-drop n (suc k) ts (omega arith) h.1)

-- What a buffer has before its first entry is added, too.
abbrev IsOpen : TranscriptBuffer → Type 0
IsOpen b =
    (length b.transcripts ≤ b.sequence_counter)
    × IsNumbered (suc b.sequence_counter - length b.transcripts) b.transcripts

module _ (text : Text) (now size : ℕ) (b : TranscriptBuffer) (open' : IsOpen b) where
  abbrev entry : Transcript
  entry = record { content = text; timestamp = now; sequence_number = b.sequence_counter + 1 }

  longer : length (b.transcripts ++ entry ∷ []) ≡ length b.transcripts + 1
  longer = length-append b.transcripts (entry ∷ [])

  renumbered :
      IsNumbered
        (suc (b.sequence_counter + 1) - length (b.transcripts ++ entry ∷ []))
        (b.transcripts ++ entry ∷ [])
  renumbered =
      let e : suc (b.sequence_counter + 1) - length (b.transcripts ++ entry ∷ [])
          ≡ suc b.sequence_counter - length b.transcripts =
        omega (arith, longer) in
      rw e (IsNumbered-append _ b.transcripts entry open'.1 (omega (arith, open'.0)))

  abbrev all : List Transcript
  all = b.transcripts ++ entry ∷ []

  cut : length (drop (length all - size) all) ≡ length all - (length all - size)
  cut = length-drop (length all - size) all

  append_transcript-IsValid : 0 < size → size ≤ 100 → IsValid (append_transcript text now size b)
  unfolding append_transcript
  append_transcript-IsValid lo hi =
      elim (Bool-cases (ltb size (length (b.transcripts ++ entry ∷ [])))) [
        | inl over ↦ rw over (record {
          counted = omega (arith, longer, cut, open'.0);
          numbered =
              subst (λ k. IsNumbered k (drop (length all - size) all))
                (omega (arith, longer, cut, open'.0))
                (IsNumbered-drop (length all - size) _ all (omega arith) renumbered);
          bounded = ground (arith, cut);
          nonempty = ground (arith, cut);
        })
        | inr fits ↦ rw fits (record {
          counted = omega (arith, longer, open'.0);
          numbered = renumbered;
          bounded = ground arith;
          nonempty = omega (arith, longer);
        })
      ]

found_or_fresh-IsOpen :
    (group session : Text) (now : ℕ) (o : Option TranscriptBuffer)
    → ((b : TranscriptBuffer) → o ≡ some b → IsValid b)
    → IsOpen (found_or_fresh group session now o)
found_or_fresh-IsOpen group session now none h = (omega arith, tt)
found_or_fresh-IsOpen group session now (some b) h = let v = h b refl in (v.counted, v.numbered)

abbrev pub AllValid : Dict TranscriptBuffer → Type 0
AllValid m = All (λ e. IsValid e.1) m

-- Every buffer of both tiers is valid.
pub record IsSound (s : Service) : Type 0 where
  pub sound1 : AllValid s.tier1_buffers
  pub sound2 : AllValid s.tier2_buffers

sound_at : (tier : Tier) (s : Service) → IsSound s → AllValid (buffers tier s)
sound_at tier1 s v = v.sound1
sound_at tier2 s v = v.sound2

put_buffers-IsSound :
    (tier : Tier) (m : Dict TranscriptBuffer) (s : Service)
    → AllValid m
    → IsSound s
    → IsSound (put_buffers tier m s)
put_buffers-IsSound tier1 m s h v = record { sound1 = h; sound2 = v.sound2 }
put_buffers-IsSound tier2 m s h v = record { sound1 = v.sound1; sound2 = h }

add_to_buffer-IsSound :
    (tier : Tier) (group session text : Text) (now : ℕ) (o : Config) (s : Service)
    → 0 < o.max_buffer_size
    → o.max_buffer_size ≤ 100
    → IsSound s
    → IsSound (add_to_buffer tier group session text now o s)
unfolding add_to_buffer
add_to_buffer-IsSound tier group session text now o s lo hi v =
    put_buffers-IsSound tier _ s
      (set-All IsValid (buffer_key session group) _ (buffers tier s)
        (rw (or_number_pos o.max_buffer_size s.config.max_buffer_size lo) (
          append_transcript-IsValid text now o.max_buffer_size _
            (found_or_fresh-IsOpen group session now _ (λ b e.
              get-All IsValid (buffer_key session group) b (buffers tier s) (sound_at tier s v) e))
            lo hi))
        (sound_at tier s v))
      v

-- Where every buffer is valid, buffering a transcription keeps them so: from one to a hundred entries, with
-- consecutive sequence numbers that end at the buffer's counter.
pub buffer_transcription-IsSound :
    (group session text : Text) (o : PartialConfig) (now1 now2 : ℕ) (s : Service)
    → IsSound s
    → IsSound (buffer_transcription group session text o now1 now2 s)
unfolding buffer_transcription
buffer_transcription-IsSound group session text o now1 now2 s v =
    add_to_buffer-IsSound tier2 group session text now2 (normalized o s.config) _ (omega arith)
      (omega arith)
      (add_to_buffer-IsSound tier1 group session text now1 (normalized o s.config) _ (omega arith)
        (omega arith) (record { sound1 = v.sound1; sound2 = v.sound2 }))

-- Where every buffer is valid, marking a buffer as analysed keeps them so.
pub mark_buffer_analyzed-IsSound :
    (tier : Tier) (group session : Text) (now : ℕ) (s : Service)
    → IsSound s
    → IsSound (mark_buffer_analyzed tier group session now s)
unfolding mark_buffer_analyzed
mark_buffer_analyzed-IsSound tier group session now s v =
    elim (Option-cases (Dict.get (buffer_key session group) (buffers tier s))) [
      | inl e ↦ rw (e, mark_buffer_analyzed) v
      | inr (b, e) ↦
          let w =
            get-All IsValid (buffer_key session group) b (buffers tier s) (sound_at tier s v) e in
          let w' : IsValid (record b { last_analysis = some now }) = record {
            counted = w.counted;
            numbered = w.numbered;
            bounded = w.bounded;
            nonempty = w.nonempty;
          } in
          let p =
            put_buffers-IsSound tier _ s
              (set-All IsValid (buffer_key session group) _ (buffers tier s) w' (sound_at tier s v))
              v in
          rw (e, mark_buffer_analyzed) (record { sound1 = p.sound1; sound2 = p.sound2 })
    ]
