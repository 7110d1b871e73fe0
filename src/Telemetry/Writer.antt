-- ===== src/Telemetry/Writer.antt =====
-- JSONLWriter of metrics.go: OpenJSONLWriter, Emit, Err and the three writes. Each call of Emit or Err
-- holds the mutex for its whole length, so calls follow one another.
use go_replayer.Prelude.Int.{Time}
use go_replayer.Prelude.{
  Option, none, Text, List, Outcome, some, ◌∷◌, if◌then◌else◌, ◌≡◌, is_empty, map, [], ok, ◌>>=◌,
  ap, err, ok-injective, refl, ◌∙◌, >>=-eq-ok, stuck, ℕ, sym,
}
use go_replayer.Telemetry.Rows.{Row, Event, row_of}
use go_replayer.Machine.{Machine}

module _ ⦃m : Machine⦄ where
  -- The encoder over its io.Writer, and the format of a time: Encode gives an error's text, or none.
  pub record Encoder : Type 1 where
    pub Sink : Type 0
    pub encode : Sink → Row → Sink × Option Text
    pub create : Text → Outcome Text Sink
    pub format : Time → Text

  module _ (enc : Encoder) where
    open enc use {Sink, encode, create, format}

    pub record JsonlWriter : Type 0 where
      pub sink : Sink
      pub first_err : Option Text

    unfoldable pub new_jsonl_writer : Sink → JsonlWriter
    new_jsonl_writer sink = record { sink = sink; first_err = none }

    -- A nil *JSONLWriter is `none`.
    unfoldable pub open_jsonl_writer : Text → Outcome Text (Option JsonlWriter)
    open_jsonl_writer path =
        if is_empty path then ok none else create path >>= λ sink. ok (some (new_jsonl_writer sink))

    abbrev pub keep_first : Option Text → Option Text → Option Text
    keep_first (some first) next = some first
    keep_first none next = next

    unfoldable pub emit : Option JsonlWriter → Row → Option JsonlWriter
    emit none row = none
    emit (some j) row =
        let (sink, failure) = encode j.sink row in
        some (record { sink = sink; first_err = keep_first j.first_err failure })

    unfoldable pub jsonl_err : Option JsonlWriter → Option Text
    jsonl_err none = none
    jsonl_err (some j) = j.first_err

    unfoldable pub write : Option JsonlWriter → Event → Option JsonlWriter
    write none event = none
    write (some j) event = emit (some j) (row_of format event)

    unfoldable pub write_all : Option JsonlWriter → List Event → Option JsonlWriter
    write_all j [] = j
    write_all j (e ∷ es) = write_all (write j e) es

    -- The encoder over rows, whatever it answers: its last state, and its answers.
    abbrev pub encode_all : Sink → List Row → Sink × List (Option Text)
    encode_all sink [] = (sink, [])
    encode_all sink (row ∷ rows) =
        let rest = encode_all (encode sink row).0 rows in (rest.0, (encode sink row).1 ∷ rest.1)

    abbrev pub first_failure : List (Option Text) → Option Text
    first_failure [] = none
    first_failure (some e ∷ answers) = some e
    first_failure (none ∷ answers) = first_failure answers

    keep_first-none : (a : Option Text) → keep_first a none ≡ a
    keep_first-none none = refl
    keep_first-none (some e) = refl

    keep_first_later :
        (a b : Option Text) (answers : List (Option Text))
        → keep_first (keep_first a b) (first_failure answers)
          ≡ keep_first a (first_failure (b ∷ answers))
    keep_first_later none none answers = refl
    keep_first_later none (some e) answers = refl
    keep_first_later (some e) b answers = refl

    write_all-none : (events : List Event) → write_all none events ≡ none
    unfolding write_all write
    write_all-none [] = refl
    write_all-none (e ∷ es) = write_all-none es

    write_all-from :
        (j : JsonlWriter) (events : List Event)
        → write_all (some j) events
          ≡ some (record {
            sink = (encode_all j.sink (map (row_of format) events)).0;
            first_err =
                keep_first j.first_err
                  (first_failure (encode_all j.sink (map (row_of format) events)).1);
          })
    unfolding write_all write emit
    write_all-from j [] = ap some (rw (keep_first-none j.first_err) refl)
    write_all-from j (e ∷ es) =
        let (sink, failure) = encode j.sink (row_of format e) in
        let rest = (encode_all sink (map (row_of format) es)).1 in
        write_all-from (record { sink = sink; first_err = keep_first j.first_err failure }) es
        ∙ ap
            (λ f.
              some (record { sink = (encode_all sink (map (row_of format) es)).0; first_err = f }))
            (keep_first_later j.first_err failure rest)

    -- What the encoder answers to the rows of a file, if one is asked for and can be created.
    abbrev pub answers : Text → List Event → List (Option Text)
    answers path events = if is_empty path then [] else elim (create path) [
      | ok sink ↦ (encode_all sink (map (row_of format) events)).1
      | err e ↦ []
      | stuck ↦ []
    ]

    answers-created :
        (c : ℕ) (path : Text) (sink : Sink) (events : List Event)
        → create (c ∷ path) ≡ ok sink
        → answers (c ∷ path) events ≡ (encode_all sink (map (row_of format) events)).1
    answers-created c path sink events created = rw created refl

    -- For a writer that is opened, Err gives after any ticks, bursts and summaries the first failure of
    -- the encoder over all their rows, in order, if there is one; without a path there is no failure.
    pub jsonl_err-write_all :
        (path : Text) (j : Option JsonlWriter) (events : List Event)
        → open_jsonl_writer path ≡ ok j
        → jsonl_err (write_all j events) ≡ first_failure (answers path events)
    unfolding open_jsonl_writer new_jsonl_writer jsonl_err
    jsonl_err-write_all [] j events h =
        let closed : none ≡ j = ok-injective h in rw⁻¹ closed (ap jsonl_err (write_all-none events))
    jsonl_err-write_all (c ∷ path) j events h =
        let (sink, created, opened) = >>=-eq-ok (create (c ∷ path)) _ h in
        let same = ok-injective opened in
        rw⁻¹ same (
          ap jsonl_err (write_all-from (new_jsonl_writer sink) events)
          ∙ ap first_failure (sym (answers-created c path sink events created)))
