-- ===== src/Demo/Tests.antt =====
-- A file of one message with one withdrawal, behind a blank line.
use asnprefix_map.Base.{◌≡◌, some, refl, [], ◌∷◌, ok, err, json_out_of_range, ◌>>=◌, Bytes}
use asnprefix_map.Base.Text.{codes, lines}
use asnprefix_map.Parser.Tests.{document}
use asnprefix_map.Parser.{parse_ris_live_message, parse_ris_live_message_impl, update_of}
use asnprefix_map.Demo.{demo, demo_lines, report, demo_lem}

abbrev file : Bytes
file = 10 ∷ codes "{}"

-- A number that overflows ends the program.
overflow_ends : demo document [] (some (codes "1e400")) ≡ err json_out_of_range
unfolding demo demo_lines lines parse_ris_live_message parse_ris_live_message_impl update_of
overflow_ends = refl

demo_lem_example :
    demo document [] (some file) ≡ (report document (lines file) >>= λ text. ok (0, text, []))
demo_lem_example = demo_lem document [] file
