-- ===== src/Parser/Tests.antt =====
-- A message with one withdrawal, under a library that knows the nodes of this one document.
use asnprefix_map.Base.{
  ◌≡◌, refl, true, false, Option, none, some, List, [], ◌∷◌, ◌++◌, Bytes, Result, ok, err, ◌>>=◌,
  json_out_of_range, ◌==◌, if◌then◌else◌, bytes_eq,
}
use asnprefix_map.Base.Text.{codes}
use asnprefix_map.Parser.{
  JsonLibrary, parsed, malformed, number_overflow, BgpEvent, withdraw, parse_ris_live_message,
  parse_ris_live_message_impl, update_of, has_string_value, update_in, emit_update,
  append_announce_events, try_get_origin_asn, append_withdraw_events, emit_prefixes,
  build_peer_info, get_timestamp_or_zero, get_string_ref_or_empty, get_uint32_or_zero,
}
use asnprefix_map.Parser.Message.{message_events}
use asnprefix_map.Parser.Events.{deliver, parse_ris_live_message_lem}

pub data Node : Type 0 where
  outer content ris_message update withdrawals eight : Node

abbrev pub member : Node → Bytes → Option Node
member outer key =
    if key == codes "type"
    then some ris_message
    else if key == codes "data"
    then some content
    else none
member content key =
    if key == codes "type"
    then some update
    else if key == codes "withdrawals"
    then some withdrawals
    else none
member _ key = none

abbrev pub text_of : Node → Option Bytes
text_of ris_message = some (codes "ris_message")
text_of update = some (codes "UPDATE")
text_of eight = some (codes "8.0.0.0/8")
text_of _ = none

abbrev pub document : JsonLibrary
document = record {
  Json = Node;
  parse = λ text.
      if text == codes "{}"
      then parsed outer
      else if text == codes "1e400"
      then number_overflow
      else malformed;
  find = member;
  string = text_of;
  unsigned = λ n. none;
  array = λ n. elim n [ withdrawals ↦ some (eight ∷ withdrawals ∷ []) | _ ↦ none ];
  is_object = λ n. elim n [ outer ↦ true | content ↦ true | _ ↦ false ];
}

abbrev collect : List BgpEvent → BgpEvent → Result (List BgpEvent)
collect events event = ok (events ++ event ∷ [])

abbrev one_withdrawal : BgpEvent
one_withdrawal = record {
  type = withdraw;
  peer = record { host = []; peer_ip = []; peer_asn = 0 };
  prefix = codes "8.0.0.0/8";
  asn = 0;
  timestamp = 0;
}

collects_withdrawal :
    parse_ris_live_message document collect (codes "{}") [] ≡ ok (one_withdrawal ∷ [], 1)
unfolding parse_ris_live_message parse_ris_live_message_impl update_of has_string_value update_in
    emit_update append_announce_events try_get_origin_asn append_withdraw_events emit_prefixes
    build_peer_info get_timestamp_or_zero get_string_ref_or_empty get_uint32_or_zero
collects_withdrawal = refl

-- The exception of a number such as 1e400 is not caught.
overflow_escapes :
    parse_ris_live_message document collect (codes "1e400") [] ≡ err json_out_of_range
unfolding parse_ris_live_message parse_ris_live_message_impl update_of
overflow_escapes = refl

parse_ris_live_message_lem_example :
    parse_ris_live_message document collect (codes "{}") []
    ≡ (message_events document (codes "{}") >>= λ es. deliver collect es ([], 0))
parse_ris_live_message_lem_example = parse_ris_live_message_lem collect document (codes "{}") []
