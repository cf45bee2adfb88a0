-- ===== src/Program/Replay.antt =====
-- src/main.cpp with src/source/file_jsonl_source.cpp: a file, replayed through the loop.
use asnprefix_map.Base.{
  ◌<◌, ◌≡◌, refl, ◌∙◌, ap, false, none, some, List, [], ◌∷◌, length, arith, nat_eq, Bytes, Result,
  ok, err, ◌>>=◌,
}
use asnprefix_map.Base.Sorting.{All}
use asnprefix_map.Base.Text.{lines}
use asnprefix_map.Prefix.Inet.{Inet}
use asnprefix_map.Parser.{JsonLibrary}
use asnprefix_map.FileSource.{FileJsonlSource, open_source, next_message, next_line, filled}
use asnprefix_map.Stats.{Floats}
use asnprefix_map.Ingest.{
  LoopSettings, Turn, Ingest, turn_message, sample_if_due, reached_limit, ingest_message,
  ingest_loop,
}
use asnprefix_map.Program.{Tick, file_turns}

-- Nothing asks to stop.
abbrev IsQuiet : Tick → Type 0
IsQuiet tick = (tick.stop_requested ≡ false) × (tick.signalled ≡ false)

module _ (fl : Floats) (i : Inet) (j : JsonLibrary) where
  -- Messages, one after the other, until one throws.
  pub ingest_all : List Bytes → Ingest fl → Result (Ingest fl)
  ingest_all [] g = ok g
  ingest_all (message ∷ messages) g = ingest_message fl i j message g >>= ingest_all messages

  >>=-cong :
      (m : Result (Ingest fl)) (f h : Ingest fl → Result (Ingest fl))
      → ((g : Ingest fl) → f g ≡ h g)
      → (m >>= f) ≡ (m >>= h)
  >>=-cong (err e) f h same = refl
  >>=-cong (ok g) f h same = same g

  module _ (cfg : LoopSettings) (off : cfg.stats_output_enabled ≡ false)
      (free : cfg.max_messages ≡ 0) where
    sample_if_due-off : (turn : Turn) (g : Ingest fl) → sample_if_due fl cfg turn.clocks g ≡ g
    unfolding sample_if_due
    sample_if_due-off turn g = rw off

    reached_limit-free : (g : Ingest fl) → reached_limit fl cfg g ≡ false
    unfolding reached_limit
    reached_limit-free g = rw free

    -- A turn with a message, where no sample and no limit is set.
    plain_turn :
        (turn : Turn) (turns : List Turn) (message : Bytes) (g : Ingest fl)
        → turn_message turn ≡ some message
        → ingest_loop fl i j cfg (turn ∷ turns) g
          ≡ (ingest_message fl i j message g >>= ingest_loop fl i j cfg turns)
    unfolding ingest_loop
    plain_turn turn turns message g got =
        rw (ingest_loop, got)
          (>>=-cong (ingest_message fl i j message g) _ _ (λ done.
            rw (reached_limit-free (sample_if_due fl cfg turn.clocks done))
              (ap (ingest_loop fl i j cfg turns) (sample_if_due-off turn done))))

    -- A turn behind the end of the file.
    last_turn :
        (turn : Turn) (turns : List Turn) (g : Ingest fl)
        → turn_message turn ≡ none
        → ingest_loop fl i j cfg (turn ∷ turns) g ≡ ok g
    unfolding ingest_loop
    last_turn turn turns g ended = rw (ingest_loop, ended)

    quiet_message :
        (turn : Turn)
        → turn.stop_requested ≡ false
        → turn.signalled ≡ false
        → turn_message turn ≡ turn.message
    unfolding turn_message
    quiet_message turn unstopped unsignalled = ground arith

    replayed :
        (ticks : List Tick) (input : List Bytes) (g : Ingest fl)
        → All IsQuiet ticks
        → length input < length ticks
        → ingest_loop fl i j cfg (file_turns ticks (record { input = input })) g
          ≡ ingest_all (filled input) g
    unfolding file_turns next_message next_line filled ingest_all
    replayed [] input g quiet h = absurd (omega arith)
    replayed (tick ∷ ticks) [] g quiet h = last_turn _ _ g (quiet_message _ (quiet.0.0) (quiet.0.1))
    replayed (tick ∷ ticks) ([] ∷ input) g quiet h =
        replayed (tick ∷ ticks) input g quiet (omega arith)
    replayed (tick ∷ ticks) ((c ∷ cs) ∷ input) g quiet h =
        plain_turn _ _ (c ∷ cs) g (quiet_message _ (quiet.0.0) (quiet.0.1))
        ∙ >>=-cong (ingest_message fl i j (c ∷ cs) g) _ _
            (λ done. replayed ticks input done quiet.1 (omega arith))

    -- Without samples and without a limit on the messages, and while nothing asks to stop: the loop over
    -- a file that opens handles each line of it that is not empty, in order, until a message throws, and
    -- it ends behind the last line. One turn more than the file has lines is enough.
    pub ingest_loop-file_turns :
        (path contents : Bytes) (s : FileJsonlSource) (ticks : List Tick) (g : Ingest fl)
        → open_source path (some contents) ≡ ok s
        → All IsQuiet ticks
        → length (lines contents) < length ticks
        → ingest_loop fl i j cfg (file_turns ticks s) g ≡ ingest_all (filled (lines contents)) g
    unfolding open_source
    ingest_loop-file_turns path contents s ticks g opened quiet h =
        let e : s ≡ record { input = lines contents } = ground arith in
        rw e (replayed ticks (lines contents) g quiet h)
