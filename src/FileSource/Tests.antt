-- ===== src/FileSource/Tests.antt =====
-- A file with an empty line between two messages.
use asnprefix_map.Base.{suc, ◌≡◌, refl, ◌∷◌, ◌++◌, Bytes, length}
use asnprefix_map.Base.Text.{codes, lines}
use asnprefix_map.FileSource.{open_source, drain, filled, replay_lem}

abbrev two_messages : Bytes
two_messages = codes "{}" ++ (10 ∷ (10 ∷ codes "[]"))

replay_lem_example :
    drain (suc (length (lines two_messages))) (record { input = lines two_messages })
    ≡ filled (lines two_messages)
unfolding open_source
replay_lem_example =
    replay_lem (codes "in") two_messages (record { input = lines two_messages }) refl
