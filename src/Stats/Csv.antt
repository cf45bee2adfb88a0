-- ===== src/Stats/Csv.antt =====
-- src/stats/growth_stats.cpp: `StatsCsvWriter`, as the text of the file. `fixed` prints a number with
-- so many digits behind the point.
use asnprefix_map.Base.{
  ℕ, ◌≡◌, refl, ap, ◌∙◌, sym, true, false, List, [], ◌∷◌, ◌++◌, arith, nat_eq, map, Bytes, Bool,
  Result, ok, err, if◌then◌else◌, file_not_opened,
}
use mathlib.Core.List.{append-nil, append_assoc}
use asnprefix_map.Base.Text.{
  codes, free_of, AreFree, free_of-join, split_on-join, lines, lines-append, join, split_on,
}
use asnprefix_map.Base.Decimal.{to_string, is_digit, to_string-free}
use asnprefix_map.Stats.{Floats, GrowthSample}

-- The line that the constructor writes, without its newline.
abbrev pub csv_header : Bytes
csv_header =
    codes "timestamp_ms,uptime_sec,total_unique_asns_ever_seen,total_unique_prefixes_ever_seen,"
    ++ codes "total_active_prefixes_v4,total_active_prefixes_v6,total_active_prefixes,"
    ++ codes "new_asns_in_interval,new_prefixes_in_interval,new_asns_per_sec,new_prefixes_per_sec,"
    ++ codes "raw_messages_received,parsed_events_total,announces_applied,withdraws_applied"

-- The constructor: what stands in the file that it opens.
unfoldable pub open_writer : Bytes → Bool → Result Bytes
open_writer path opens = if opens then ok (csv_header ++ 10 ∷ []) else err (file_not_opened path)

-- `<< ',' <<` between two values.
infixr 66 ◌<comma>◌
abbrev pub ◌<comma>◌ : Bytes → Bytes → Bytes
a <comma> b = a ++ (b',' ∷ b)

module _ (fl : Floats) (fixed : ℕ → fl.Double → Bytes) where
  -- The line of a sample: the values that are put into the stream, with the commas between them.
  unfoldable pub sample_line : GrowthSample fl → Bytes
  sample_line s =
      to_string s.timestamp_ms
      <comma> fixed 3 s.uptime_sec
      <comma> to_string s.total_unique_asns_ever_seen
      <comma> to_string s.total_unique_prefixes_ever_seen
      <comma> to_string s.total_active_prefixes_v4
      <comma> to_string s.total_active_prefixes_v6
      <comma> to_string s.total_active_prefixes
      <comma> to_string s.new_asns_in_interval
      <comma> to_string s.new_prefixes_in_interval
      <comma> fixed 6 s.new_asns_per_sec
      <comma> fixed 6 s.new_prefixes_per_sec
      <comma> to_string s.raw_messages_received
      <comma> to_string s.parsed_events_total
      <comma> to_string s.announces_applied
      <comma> to_string s.withdraws_applied

  -- The call adds a line to the file.
  unfoldable pub write_sample : GrowthSample fl → Bytes → Bytes
  unfolding sample_line
  write_sample sample output = output ++ (sample_line sample ++ (b'\n' ∷ []))

  unfoldable pub write_samples : List (GrowthSample fl) → Bytes → Bytes
  write_samples [] output = output
  write_samples (sample ∷ samples) output = write_samples samples (write_sample sample output)

  -- The columns of the table: the name that the header gives to each, and what stands in it.
  abbrev pub columns : List (Bytes × (GrowthSample fl → Bytes))
  columns =
      (codes "timestamp_ms", λ s. to_string s.timestamp_ms)
      ∷ (codes "uptime_sec", λ s. fixed 3 s.uptime_sec)
      ∷ (codes "total_unique_asns_ever_seen", λ s. to_string s.total_unique_asns_ever_seen)
      ∷ (codes "total_unique_prefixes_ever_seen", λ s. to_string s.total_unique_prefixes_ever_seen)
      ∷ (codes "total_active_prefixes_v4", λ s. to_string s.total_active_prefixes_v4)
      ∷ (codes "total_active_prefixes_v6", λ s. to_string s.total_active_prefixes_v6)
      ∷ (codes "total_active_prefixes", λ s. to_string s.total_active_prefixes)
      ∷ (codes "new_asns_in_interval", λ s. to_string s.new_asns_in_interval)
      ∷ (codes "new_prefixes_in_interval", λ s. to_string s.new_prefixes_in_interval)
      ∷ (codes "new_asns_per_sec", λ s. fixed 6 s.new_asns_per_sec)
      ∷ (codes "new_prefixes_per_sec", λ s. fixed 6 s.new_prefixes_per_sec)
      ∷ (codes "raw_messages_received", λ s. to_string s.raw_messages_received)
      ∷ (codes "parsed_events_total", λ s. to_string s.parsed_events_total)
      ∷ (codes "announces_applied", λ s. to_string s.announces_applied)
      ∷ (codes "withdraws_applied", λ s. to_string s.withdraws_applied)
      ∷ []

  -- A sample in the columns, and their names.
  abbrev pub sample_fields : GrowthSample fl → List Bytes
  sample_fields s = map (λ (c : Bytes × (GrowthSample fl → Bytes)). c.1 s) columns

  abbrev pub column_names : List Bytes
  column_names = map (λ (c : Bytes × (GrowthSample fl → Bytes)). c.0) columns

  sample_line-join : (s : GrowthSample fl) → sample_line s ≡ join 44 (sample_fields s)
  unfolding sample_line join
  sample_line-join s = refl

  -- The lines behind the header.
  rows : List (GrowthSample fl) → Bytes
  rows [] = []
  rows (sample ∷ samples) = join 44 (sample_fields sample) ++ 10 ∷ rows samples

  write_samples-append :
      (samples : List (GrowthSample fl)) (output : Bytes)
      → write_samples samples output ≡ output ++ rows samples
  unfolding write_samples write_sample rows
  write_samples-append [] output = sym (append-nil output)
  write_samples-append (sample ∷ samples) output =
      let line = join 44 (sample_fields sample) in
      ap (λ l. write_samples samples (output ++ (l ++ 10 ∷ []))) (sample_line-join sample)
      ∙ write_samples-append samples (output ++ (line ++ 10 ∷ []))
      ∙ append_assoc output (line ++ 10 ∷ []) (rows samples)
      ∙ ap (λ z. output ++ z) (append_assoc line (10 ∷ []) (rows samples))

  module _ (no_comma : (digits : ℕ) (x : fl.Double) → free_of 44 (fixed digits x) ≡ true)
      (no_newline : (digits : ℕ) (x : fl.Double) → free_of 10 (fixed digits x) ≡ true) where
    fields_free :
        (b : ℕ) (s : GrowthSample fl)
        → is_digit b ≡ false
        → ((digits : ℕ) (x : fl.Double) → free_of b (fixed digits x) ≡ true)
        → AreFree b (sample_fields s)
    fields_free b s other h =
        let number = λ (n : ℕ). to_string-free b n other in
        (
          number s.timestamp_ms,
          (
            h 3 s.uptime_sec,
            (
              number s.total_unique_asns_ever_seen,
              (
                number s.total_unique_prefixes_ever_seen,
                (
                  number s.total_active_prefixes_v4,
                  (
                    number s.total_active_prefixes_v6,
                    (
                      number s.total_active_prefixes,
                      (
                        number s.new_asns_in_interval,
                        (
                          number s.new_prefixes_in_interval,
                          (
                            h 6 s.new_asns_per_sec,
                            (
                              h 6 s.new_prefixes_per_sec,
                              (
                                number s.raw_messages_received,
                                (
                                  number s.parsed_events_total,
                                  (number s.announces_applied, (number s.withdraws_applied, tt)),
                                ),
                              ),
                            ),
                          ),
                        ),
                      ),
                    ),
                  ),
                ),
              ),
            ),
          ),
        )

    lines-rows :
        (samples : List (GrowthSample fl))
        → map (split_on 44) (lines (rows samples)) ≡ map sample_fields samples
    unfolding rows lines
    lines-rows [] = refl
    lines-rows (sample ∷ samples) =
        let line = join 44 (sample_fields sample) in
        let whole =
          free_of-join 10 44 (sample_fields sample) refl (fields_free 10 sample refl no_newline) in
        ap (map (split_on 44)) (lines-append line (rows samples) whole)
        ∙ ap (λ z. z ∷ map (split_on 44) (lines (rows samples)))
            (split_on-join 44 _ _ (fields_free 44 sample refl no_comma))
        ∙ ap (◌∷◌ (sample_fields sample)) (lines-rows samples)

    -- Where a printed number of `double` holds neither a comma nor a newline: the file of any samples
    -- has the header's line and a line for each sample, in order. Cut at the commas, the header gives
    -- the names of the columns, and the line of a sample gives, under each name, the number of the
    -- sample that goes by it, with three digits behind the point for the uptime and six for the rates.
    pub write_samples_lem :
        (path output : Bytes) (samples : List (GrowthSample fl))
        → open_writer path true ≡ ok output
        → map (split_on 44) (lines (write_samples samples output))
          ≡ column_names ∷ map sample_fields samples
    unfolding open_writer split_on lines
    write_samples_lem path output samples h =
        let opened : csv_header ++ 10 ∷ [] ≡ output = ground (arith, h) in
        ap (λ z. map (split_on 44) (lines (write_samples samples z))) (sym opened)
        ∙ ap (λ z. map (split_on 44) (lines z))
            (write_samples-append samples (csv_header ++ 10 ∷ [])
              ∙ append_assoc csv_header (10 ∷ []) (rows samples))
        ∙ ap (map (split_on 44)) (lines-append csv_header (rows samples) refl)
        ∙ ap (◌∷◌ (split_on 44 csv_header)) (lines-rows samples)
