-- ===== src/Buffer/History.antt =====
-- What a buffer holds: the newest texts of its group.
use classwaves_backend.Prelude.{
  ℕ, zero, suc, ◌+◌, ◌-◌, ◌≤◌, ◌<◌, ◌≡◌, ◌∙◌, ap, sym, List, [], ◌∷◌, ◌++◌, Option, none, some,
  arith, refl, map, length, drop, ltb, if◌then◌else◌, Text, text_eq, text_eq_iff, append_assoc,
  append-nil, length-append, length-drop, Bool-cases, inl, inr, Option-cases, NoColon,
}
use Prim.Native.Nat.add
use mathlib.Core.List.{map-append}
use native.Mathlib.Nat.{zero-add}
use classwaves_backend.Prelude.Dict
use classwaves_backend.Prelude.Dict.{Dict, get-set}
use classwaves_backend.Buffer.{
  Transcript, TranscriptBuffer, Tier, tier1, tier2, Config, PartialConfig, Service, buffers, create,
  buffer_key, normalized, or_number, clamp, limited, append_transcript, found_or_fresh,
  add_to_buffer, buffer_transcription, get_buffered_transcripts, log, put_buffers, buffered,
}

module _ {ℓ} {A : Type ℓ} where
  -- The last `n` entries of a list.
  abbrev pub take_last : ℕ → List A → List A
  take_last n xs = drop (length xs - n) xs

  limited_lem : (n : ℕ) (xs : List A) → limited n xs ≡ take_last n xs
  limited_lem n xs = elim (Bool-cases (ltb n (length xs))) [
    | inl more ↦ rw more
    | inr few ↦ rw few (let none_over : length xs - n ≡ 0 = ground arith in rw none_over)
  ]

  drop-append_left : (k : ℕ) (xs ys : List A) → k ≤ length xs → drop k (xs ++ ys) ≡ drop k xs ++ ys
  drop-append_left zero xs ys h = refl
  drop-append_left (suc k) [] ys h = absurd (omega arith)
  drop-append_left (suc k) (x ∷ xs) ys h = drop-append_left k xs ys (omega arith)

  drop-drop : (i k : ℕ) (xs : List A) → drop k (drop i xs) ≡ drop (i + k) xs
  drop-drop zero k xs = rw zero-add
  drop-drop (suc i) zero [] = rw add.suc
  drop-drop (suc i) (suc k) [] = rw add.suc
  drop-drop (suc i) k (x ∷ xs) = rw add.suc (drop-drop i k xs)

  drop-nil : (k : ℕ) → drop {A = A} k [] ≡ []
  drop-nil zero = refl
  drop-nil (suc k) = refl

  -- Cutting before an entry is added makes no difference.
  take_last-snoc :
      (n : ℕ) (xs : List A) (x : A)
      → take_last n (take_last n xs ++ x ∷ []) ≡ take_last n (xs ++ x ∷ [])
  take_last-snoc n xs x = rw (sym (drop-append_left (length xs - n) xs (x ∷ []) (omega arith))) (
      drop-drop (length xs - n) _ (xs ++ x ∷ [])
      ∙ ap (λ k. drop k (xs ++ x ∷ []))
          (omega (arith, length-append xs (x ∷ []), length-drop (length xs - n) (xs ++ x ∷ []))))

map-drop {ℓ κ} :
    {A : Type ℓ} {B : Type κ} (f : A → B) (k : ℕ) (xs : List A)
    → map f (drop k xs) ≡ drop k (map f xs)
map-drop f zero xs = refl
map-drop f (suc k) [] = refl
map-drop f (suc k) (x ∷ xs) = map-drop f k xs

length-map {ℓ κ} :
    {A : Type ℓ} {B : Type κ} (f : A → B) (xs : List A) → length (map f xs) ≡ length xs
length-map f [] = refl
length-map f (x ∷ xs) = ap suc (length-map f xs)

map-limited {ℓ κ} :
    {A : Type ℓ} {B : Type κ} (f : A → B) (n : ℕ) (xs : List A)
    → map f (limited n xs) ≡ take_last n (map f xs)
map-limited f n xs =
    ap (map f) (limited_lem n xs)
    ∙ (map-drop f (length xs - n) xs ∙ ap (λ k. drop (k - n) (map f xs)) (sym (length-map f xs)))

abbrev pub content_of : Transcript → Text
content_of t = t.content

abbrev pub texts_in : TranscriptBuffer → List Text
texts_in b = map content_of b.transcripts

append_transcript-texts :
    (text : Text) (now size : ℕ) (b : TranscriptBuffer)
    → texts_in (append_transcript text now size b) ≡ take_last size (texts_in b ++ text ∷ [])
unfolding append_transcript
append_transcript-texts text now size b =
    map-limited content_of size _ ∙ ap (take_last size) (map-append content_of b.transcripts _)

-- The texts that are buffered under a key.
abbrev pub texts_of : Option TranscriptBuffer → List Text
texts_of none = []
texts_of (some b) = texts_in b

abbrev pub texts_at : Tier → Text → Service → List Text
texts_at tier key s = texts_of (Dict.get key (buffers tier s))

found_or_fresh-texts :
    (group session : Text) (now : ℕ) (o : Option TranscriptBuffer)
    → texts_in (found_or_fresh group session now o) ≡ texts_of o
found_or_fresh-texts group session now none = refl
found_or_fresh-texts group session now (some b) = refl

buffers-put :
    (tier : Tier) (m : Dict TranscriptBuffer) (s : Service)
    → buffers tier (put_buffers tier m s) ≡ m
buffers-put tier1 m s = refl
buffers-put tier2 m s = refl

pub or_number_pos : (n d : ℕ) → 0 < n → or_number n d ≡ n
or_number_pos zero d h = absurd (omega arith)
or_number_pos (suc n) d h = refl

module _ (group session text : Text) (now : ℕ) (o : Config) (s : Service)
    (pos : 0 < o.max_buffer_size) where
  -- One addition, at every key of its tier.
  add_to_buffer-texts :
      (tier : Tier) (key : Text)
      → texts_at tier key (add_to_buffer tier group session text now o s) ≡ (
          if text_eq (buffer_key session group) key
          then take_last o.max_buffer_size (texts_at tier key s ++ text ∷ [])
          else texts_at tier key s)
  unfolding add_to_buffer
  add_to_buffer-texts tier key =
      ap (λ m. texts_of (Dict.get key m)) (buffers-put tier _ s)
      ∙ rw (get-set (buffer_key session group) key _ (buffers tier s))
          (elim (Bool-cases (text_eq (buffer_key session group) key)) [
            | inl same ↦ rw same (
                append_transcript-texts text now _ _
                ∙ rw (
                  or_number_pos o.max_buffer_size s.config.max_buffer_size pos,
                  found_or_fresh-texts group session now
                      (Dict.get (buffer_key session group) (buffers tier s)),
                  (text_eq_iff _ _).0 same,
                ))
            | inr other ↦ rw other
          ])

  add_to_buffer-other :
      (key : Text)
      → (texts_at tier1 key (add_to_buffer tier2 group session text now o s) ≡ texts_at tier1 key s)
        × (texts_at tier2 key (add_to_buffer tier1 group session text now o s)
            ≡ texts_at tier2 key s)
  unfolding add_to_buffer
  add_to_buffer-other key = (refl, refl)

  add_to_buffer-config :
      (tier : Tier) → (add_to_buffer tier group session text now o s).config ≡ s.config
  unfolding add_to_buffer
  add_to_buffer-config tier1 = refl
  add_to_buffer-config tier2 = refl

-- One call of `bufferTranscription`.
pub record Call : Type 0 where
  pub group : Text
  pub session : Text
  pub text : Text
  pub now1 : ℕ
  pub now2 : ℕ

abbrev pub run_call : PartialConfig → Call → Service → Service
run_call o c s = buffer_transcription c.group c.session c.text o c.now1 c.now2 s

-- Calls with the same options.
unfoldable pub run_calls : PartialConfig → List Call → Service → Service
run_calls o [] s = s
run_calls o (c ∷ cs) s = run_calls o cs (run_call o c s)

abbrev pub size_of : PartialConfig → Config → ℕ
size_of o c = (normalized o c).max_buffer_size

clamp-pos : (n : ℕ) → 0 < clamp 1 100 n
clamp-pos n = omega arith

run_call-texts :
    (tier : Tier) (key : Text) (o : PartialConfig) (c : Call) (s : Service)
    → texts_at tier key (run_call o c s) ≡ (
        if text_eq (buffer_key c.session c.group) key
        then take_last (size_of o s.config) (texts_at tier key s ++ c.text ∷ [])
        else texts_at tier key s)
unfolding buffer_transcription
run_call-texts tier1 key o c s =
    (add_to_buffer-other c.group c.session c.text c.now2 (normalized o s.config) _ (clamp-pos _)
      key).0
    ∙ add_to_buffer-texts c.group c.session c.text c.now1 (normalized o s.config) _ (clamp-pos _)
        tier1 key
run_call-texts tier2 key o c s =
    add_to_buffer-texts c.group c.session c.text c.now2 (normalized o s.config) _ (clamp-pos _)
      tier2 key
    ∙ rw (
        (add_to_buffer-other c.group c.session c.text c.now1 (normalized o s.config)
          (log (buffered c.group c.session (length c.text)) s) (clamp-pos _) key).1)

run_call-config : (o : PartialConfig) (c : Call) (s : Service) → (run_call o c s).config ≡ s.config
unfolding buffer_transcription
run_call-config o c s =
    add_to_buffer-config c.group c.session c.text c.now2 (normalized o s.config) _ (clamp-pos _)
      tier2
    ∙ add_to_buffer-config c.group c.session c.text c.now1 (normalized o s.config) _ (clamp-pos _)
        tier1

-- The texts of the calls for one key, in order.
abbrev pub texts_for : Text → List Call → List Text
texts_for key [] = []
texts_for key (c ∷ cs) =
    if text_eq (buffer_key c.session c.group) key
    then c.text ∷ texts_for key cs
    else texts_for key cs

run_calls-texts :
    (tier : Tier) (key : Text) (o : PartialConfig) (n : ℕ) (cs : List Call) (s : Service)
    (before : List Text)
    → size_of o s.config ≡ n
    → texts_at tier key s ≡ take_last n before
    → texts_at tier key (run_calls o cs s) ≡ take_last n (before ++ texts_for key cs)
unfolding run_calls
run_calls-texts tier key o n [] s before size h = h ∙ ap (take_last n) (sym (append-nil before))
run_calls-texts tier key o n (c ∷ cs) s before size h =
    let size' : size_of o (run_call o c s).config ≡ n = rw (run_call-config o c s) size in
    let step = run_call-texts tier key o c s in
    elim (Bool-cases (text_eq (buffer_key c.session c.group) key)) [
      | inl same ↦
          run_calls-texts tier key o n cs (run_call o c s) (before ++ c.text ∷ []) size'
            (rw same at step ∙ rw (size, h) (take_last-snoc n before c.text))
          ∙ rw same (ap (take_last n) (append_assoc before (c.text ∷ []) (texts_for key cs)))
      | inr other ↦
          run_calls-texts tier key o n cs (run_call o c s) before size' (rw other at step ∙ h)
          ∙ rw other
    ]

get_buffered_transcripts-texts :
    (tier : Tier) (group session : Text) (s : Service)
    → (get_buffered_transcripts tier group session s).0 ≡ texts_at tier (buffer_key session group) s
unfolding get_buffered_transcripts
get_buffered_transcripts-texts tier group session s =
    elim (Option-cases (Dict.get (buffer_key session group) (buffers tier s))) [
      | inl e ↦ rw (e, get_buffered_transcripts)
      | inr (b, e) ↦ rw (e, get_buffered_transcripts)
    ]

-- After any calls of `bufferTranscription` with the same options on a new service, either tier
-- gives for a group exactly the newest texts that were buffered under its key, oldest first, as
-- many as the clamped buffer size allows; the calls for other keys change nothing.
pub get_buffered_transcripts-history :
    (tier : Tier) (group session : Text) (o : PartialConfig) (config : Config) (cs : List Call)
    → (get_buffered_transcripts tier group session (run_calls o cs (create config))).0
      ≡ take_last (size_of o config) (texts_for (buffer_key session group) cs)
unfolding Dict.get
get_buffered_transcripts-history tier group session o config cs =
    get_buffered_transcripts-texts tier group session _
    ∙ run_calls-texts tier (buffer_key session group) o (size_of o config) cs (create config) []
        refl (empty tier)
  where
    empty :
        (t : Tier)
        → texts_at t (buffer_key session group) (create config) ≡ take_last (size_of o config) []
    empty tier1 = sym (drop-nil _)
    empty tier2 = sym (drop-nil _)

-- Session ids without a colon make the key unambiguous: equal keys of two such sessions are of the
-- same session and the same group.
pub buffer_key-injective :
    (s t g h : Text) → NoColon s → NoColon t → buffer_key s g ≡ buffer_key t h → (s ≡ t) × (g ≡ h)
unfolding buffer_key
buffer_key-injective [] [] g h p q e = ground arith
buffer_key-injective [] (c ∷ t) g h p q e = ground arith
buffer_key-injective (c ∷ s) [] g h p q e = ground arith
buffer_key-injective (c ∷ s) (d ∷ t) g h p q e =
    ground (arith, buffer_key-injective s t g h p.1 q.1)
