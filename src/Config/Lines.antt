-- ===== src/Config/Lines.antt =====
-- src/config.cpp: what a line of the configuration sets, whatever blanks stand around its parts.
use mathlib.Core.List.{append-nil}
use asnprefix_map.Base.{
  ℕ, ◌≡◌, ◌≢◌, ◌⊎◌, refl, ◌∙◌, ap, Bool, true, false, not, some, [], ◌∷◌, ◌++◌, Bytes, arith, ◌==◌,
  nat_eq, ok,
}
use asnprefix_map.Base.Text.{cut_at, free_of, cut_at-append}
use asnprefix_map.Base.Decimal.{is_space, skip_spaces}
use asnprefix_map.Config.{Doubles, Config, trim_back, trim, set_key, read_line}
use asnprefix_map.Config.Keys.{Key, name, Sets}
use asnprefix_map.Config.Setting.{set_key_lem}

abbrev pub AllSpaces : Bytes → Type 0
AllSpaces [] = Unit
AllSpaces (c ∷ cs) = (is_space c ≡ true) × AllSpaces cs

-- A text whose first and whose last byte are no blanks.
abbrev pub starts_clean : Bytes → Bool
starts_clean [] = false
starts_clean (c ∷ cs) = not (is_space c)

abbrev pub ends_clean : Bytes → Bool
ends_clean [] = false
ends_clean (c ∷ []) = not (is_space c)
ends_clean (c ∷ d ∷ ds) = ends_clean (d ∷ ds)

skip_spaces-pad : (pad text : Bytes) → AllSpaces pad → skip_spaces (pad ++ text) ≡ skip_spaces text
unfolding skip_spaces
skip_spaces-pad [] text h = refl
skip_spaces-pad (c ∷ cs) text h = ground (arith, skip_spaces-pad cs text h.1)

skip_spaces-clean : (text : Bytes) → starts_clean text ≡ true → skip_spaces text ≡ text
unfolding skip_spaces
skip_spaces-clean [] h = refl
skip_spaces-clean (c ∷ cs) h = ground arith

trim_back-spaces : (pad : Bytes) → AllSpaces pad → trim_back pad ≡ []
unfolding trim_back
trim_back-spaces [] h = refl
trim_back-spaces (c ∷ cs) h = ground (arith, trim_back-spaces cs h.1)

trim_back-pad :
    (text pad : Bytes) → ends_clean text ≡ true → AllSpaces pad → trim_back (text ++ pad) ≡ text
unfolding trim_back
trim_back-pad [] pad e h = ground arith
trim_back-pad (c ∷ []) pad e h = ground (arith, trim_back-spaces pad h)
trim_back-pad (c ∷ d ∷ ds) pad e h = ground (arith, trim_back-pad (d ∷ ds) pad e h)

starts_clean-append :
    (text pad : Bytes) → starts_clean text ≡ true → starts_clean (text ++ pad) ≡ true
starts_clean-append [] pad h = ground arith
starts_clean-append (c ∷ cs) pad h = h

-- `trim` takes the blanks off both ends of a text, and nothing else.
pub trim_lem :
    (front text back : Bytes)
    → AllSpaces front
    → AllSpaces back
    → starts_clean text ≡ true
    → ends_clean text ≡ true
    → trim (front ++ (text ++ back)) ≡ text
unfolding trim
trim_lem front text back f b s e =
    ap trim_back (
      skip_spaces-pad front (text ++ back) f
      ∙ skip_spaces-clean (text ++ back) (starts_clean-append text back s))
    ∙ trim_back-pad text back e b

ends_clean-append : (xs ys : Bytes) → ends_clean ys ≡ true → ends_clean (xs ++ ys) ≡ true
ends_clean-append [] ys h = h
ends_clean-append (x ∷ []) [] h = ground arith
ends_clean-append (x ∷ []) (y ∷ ys) h = h
ends_clean-append (x ∷ z ∷ zs) ys h = ends_clean-append (z ∷ zs) ys h

free_of-append :
    (sep : ℕ) (xs ys : Bytes)
    → free_of sep xs ≡ true
    → free_of sep ys ≡ true
    → free_of sep (xs ++ ys) ≡ true
free_of-append sep [] ys h k = k
free_of-append sep (x ∷ xs) ys h k = ground (arith, free_of-append sep xs ys)

free_of_spaces : (pad : Bytes) → AllSpaces pad → free_of b'=' pad ≡ true
free_of_spaces [] h = refl
free_of_spaces (c ∷ cs) h = ground (arith, free_of_spaces cs h.1)

-- The text of a line between its outer blanks.
abbrev pub setting : Bytes → Bytes → Bytes → Bytes → Bytes
setting key b1 b2 value = (key ++ b1) ++ (b'=' ∷ (b2 ++ value))

abbrev pub no_comment : Bytes → Bool
no_comment [] = false
no_comment (c ∷ cs) = not (c == b'#')

module _ (d : Doubles) where
  -- The branch of `read_line` for a line that is neither blank nor a comment.
  read_setting :
      (line text before behind : Bytes) (cfg : Config d)
      → trim line ≡ text
      → no_comment text ≡ true
      → cut_at b'=' text ≡ some (before, behind)
      → read_line d line cfg ≡ set_key d (trim before) (trim behind) cfg
  unfolding read_line
  read_setting line [] before behind cfg t n c = ground arith
  read_setting line (x ∷ xs) before behind cfg t n c = rw (t, read_line) (ground (arith, c))

  no_comment-append : (xs ys : Bytes) → no_comment xs ≡ true → no_comment (xs ++ ys) ≡ true
  no_comment-append [] ys h = ground arith
  no_comment-append (x ∷ xs) ys h = h

  -- The line of a key and a value, whatever blanks stand around the two.
  setting_line :
      (front key b1 b2 value back : Bytes) (cfg : Config d)
      → AllSpaces front
      → AllSpaces b1
      → AllSpaces b2
      → AllSpaces back
      → starts_clean key ≡ true
      → ends_clean key ≡ true
      → free_of b'=' key ≡ true
      → no_comment key ≡ true
      → starts_clean value ≡ true
      → ends_clean value ≡ true
      → read_line d (front ++ (setting key b1 b2 value ++ back)) cfg ≡ set_key d key value cfg
  setting_line front key b1 b2 value back cfg f p q b s e u n t w =
      let text = setting key b1 b2 value in
      let clean =
        trim_lem front text back f b
          (starts_clean-append (key ++ b1) (b'=' ∷ (b2 ++ value)) (starts_clean-append key b1 s))
          (ends_clean-append (key ++ b1) (b'=' ∷ (b2 ++ value))
            (ends_clean-append (b'=' ∷ b2) value w)) in
      let cut =
        cut_at-append b'=' (key ++ b1) (b2 ++ value)
          (free_of-append b'=' key b1 u (free_of_spaces b1 p)) in
      let word =
        no_comment-append (key ++ b1) (b'=' ∷ (b2 ++ value)) (no_comment-append key b1 n) in
      let k : trim (key ++ b1) ≡ key = trim_lem [] key b1 tt p s e in
      let v : trim (b2 ++ value) ≡ value = rw append-nil at (trim_lem b2 value [] q tt t w) in
      read_setting _ text (key ++ b1) (b2 ++ value) cfg clean word cut
      ∙ ap (λ x. set_key d x (trim (b2 ++ value)) cfg) k
      ∙ ap (λ x. set_key d key x cfg) v

  -- A line `key = value`, whatever blanks stand around the two, for a key and a value that are not
  -- empty and do not begin or end with a blank, where the key has no `=` and does not begin with `#`:
  -- where the key is one of the table in Config/Keys, the value is read by the key's kind, with the
  -- exception of that, and then the field of the key has the value and every other field is as it was;
  -- where the key is none of the table, nothing changes.
  pub read_line_lem :
      (front key b1 b2 value back : Bytes) (cfg : Config d)
      → AllSpaces front
      → AllSpaces b1
      → AllSpaces b2
      → AllSpaces back
      → starts_clean key ≡ true
      → ends_clean key ≡ true
      → free_of b'=' key ≡ true
      → no_comment key ≡ true
      → starts_clean value ≡ true
      → ends_clean value ≡ true
      → ((k : Key) × (key ≡ name k)
          × Sets d k value cfg (read_line d (front ++ (setting key b1 b2 value ++ back)) cfg))
        ⊎ (((k : Key) → key ≢ name k)
            × (read_line d (front ++ (setting key b1 b2 value ++ back)) cfg ≡ ok cfg))
  read_line_lem front key b1 b2 value back cfg f p q b s e u n t w =
      rw (setting_line front key b1 b2 value back cfg f p q b s e u n t w)
        (set_key_lem d value cfg key)
