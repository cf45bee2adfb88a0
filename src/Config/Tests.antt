-- ===== src/Config/Tests.antt =====
-- A line with blanks around its parts.
use asnprefix_map.Base.{ℕ, ◌≡◌, ◌≢◌, ◌⊎◌, refl, [], ◌∷◌, ◌++◌, Bytes, ok, err, invalid_argument}
use asnprefix_map.Base.Text.{codes}
use asnprefix_map.Config.{Doubles, default_config, read_line}
use asnprefix_map.Config.Keys.{Key, name, Sets}
use asnprefix_map.Config.Lines.{setting, read_line_lem}

abbrev whole : Doubles
whole = record { Double = ℕ; stod = λ text. err invalid_argument; five = 5; six_hundred = 600 }

abbrev blank : Bytes
blank = 32 ∷ []

abbrev line : Bytes
line = blank ++ (setting (codes "max_messages") blank blank (codes "25") ++ blank)

read_line_lem_example :
    ((k : Key) × (codes "max_messages" ≡ name k)
      × Sets whole k
          (codes "25")
          (default_config whole)
          (read_line whole line (default_config whole)))
    ⊎ (((k : Key) → codes "max_messages" ≢ name k)
        × (read_line whole line (default_config whole) ≡ ok (default_config whole)))
read_line_lem_example =
    read_line_lem whole blank (codes "max_messages") blank blank (codes "25") blank
      (default_config whole) (refl, tt) (refl, tt) (refl, tt) (refl, tt) refl refl refl refl refl
      refl
