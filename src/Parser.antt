-- ===== src/Parser.antt =====
-- src/parser/ris_live_parser.h, src/parser/ris_live_parser.cpp and src/bgp_event.h: what one message
-- of RIS Live emits. The JSON library is a parameter; the callback is a function on the caller's
-- state that may throw.
pub mod Message
pub mod Events
pub mod Tests
use asnprefix_map.Base.{
  ℕ, ◌+◌, ◌%◌, ◌^◌, Bool, false, Option, none, some, List, [], ◌∷◌, ◌==◌, bytes_eq, if◌then◌else◌,
  Bytes, Result, ok, err, json_out_of_range, ◌>>=◌,
}
use asnprefix_map.Base.Text.{codes}
use asnprefix_map.Base.Map.{get_or}
use asnprefix_map.Peer.{PeerInfo}

pub data EventType : Type 0 where
  announce withdraw : EventType

-- The arguments of one call of `on_event`.
pub record BgpEvent : Type 0 where
  pub type : EventType
  pub peer : PeerInfo
  pub prefix : Bytes
  pub asn : ℕ
  pub timestamp : ℕ

-- How `json::parse` ends: with a value, with a `parse_error`, or with the `out_of_range` of a number
-- that no `double` holds (406), which is no `parse_error`.
pub data Parsed (J : Type 0) : Type 0 where
  parsed : J → Parsed J
  malformed : Parsed J
  number_overflow : Parsed J

-- What the parser uses of `nlohmann::json`. `find` gives nothing on a value that is no object;
-- `unsigned` is `is_number_unsigned` with the `std::uint64_t` it holds.
pub record JsonLibrary : Type 1 where
  pub Json : Type 0
  pub parse : Bytes → Parsed Json
  pub find : Json → Bytes → Option Json
  pub string : Json → Option Bytes
  pub unsigned : Json → Option ℕ
  pub array : Json → Option (List Json)
  pub is_object : Json → Bool

-- `back` of an array that is not empty.
abbrev pub back {ℓ} : {A : Type ℓ} → List A → Option A
back [] = none
back (x ∷ []) = some x
back (x ∷ y ∷ xs) = back (y ∷ xs)

abbrev pub and_then {ℓ κ} : {A : Type ℓ} {B : Type κ} → Option A → (A → Option B) → Option B
and_then none f = none
and_then (some a) f = f a

module _ (j : JsonLibrary) where
  open j use {Json, parse, find, string, unsigned, array, is_object}

  unfoldable pub get_string_ref_or_empty : Json → Bytes → Bytes
  get_string_ref_or_empty object key = get_or [] (and_then (find object key) string)

  unfoldable pub has_string_value : Json → Bytes → Bytes → Bool
  has_string_value object key expected = elim (and_then (find object key) string) [
    | none ↦ false
    | some value ↦ value == expected
  ]

  -- `get<uint32_t>` keeps the low 32 bits.
  unfoldable pub get_uint32_or_zero : Json → Bytes → ℕ
  get_uint32_or_zero object key = get_or 0 (and_then (find object key) unsigned) % 2 ^ 32

  unfoldable pub get_timestamp_or_zero : Json → ℕ
  get_timestamp_or_zero object = get_or 0 (and_then (find object (codes "timestamp")) unsigned)

  unfoldable pub build_peer_info : Json → PeerInfo
  build_peer_info content = record {
    host = get_string_ref_or_empty content (codes "host");
    peer_ip = get_string_ref_or_empty content (codes "peer");
    peer_asn = get_uint32_or_zero content (codes "peer_asn");
  }

  -- The last element of the path, if it is a plain unsigned number.
  unfoldable pub try_get_origin_asn : Json → Option ℕ
  try_get_origin_asn content =
      and_then (and_then (and_then (find content (codes "path")) array) back)
        (λ last. and_then (unsigned last) (λ n. some (n % 2 ^ 32)))

  -- A message whose type is "UPDATE".
  unfoldable pub update_in : Json → Option Json
  update_in content =
      if is_object content
      then (if has_string_value content (codes "type") (codes "UPDATE") then some content else none)
      else none

  -- The `data` of a message that is an update.
  unfoldable pub update_under : Json → Option Json
  unfolding has_string_value update_in
  update_under outer =
      if has_string_value outer (codes "type") (codes "ris_message")
      then and_then (find outer (codes "data")) update_in
      else none

  -- A `parse_error` is caught, any other exception is not.
  unfoldable pub update_of : Bytes → Result (Option Json)
  unfolding update_under
  update_of text = elim (parse text) [
    | malformed ↦ ok none
    | number_overflow ↦ err json_out_of_range
    | parsed outer ↦ ok (update_under outer)
  ]

  module _ {S : Type 0} (on_event : S → BgpEvent → Result S) where
    -- The loop over the values of one array of prefixes; the second part counts the events.
    unfoldable pub emit_prefixes : EventType → PeerInfo → ℕ → ℕ → List Json → S × ℕ → Result (S × ℕ)
    emit_prefixes type peer asn timestamp [] (s, emitted) = ok (s, emitted)
    emit_prefixes type peer asn timestamp (value ∷ values) (s, emitted) = elim (string value) [
      | none ↦ emit_prefixes type peer asn timestamp values (s, emitted)
      | some prefix ↦ do
        s' ←
            on_event s (record {
              type = type;
              peer = peer;
              prefix = prefix;
              asn = asn;
              timestamp = timestamp;
            })
        emit_prefixes type peer asn timestamp values (s', emitted + 1)
    ]

    -- The loop over the announcements.
    unfoldable pub emit_announcements : PeerInfo → ℕ → ℕ → List Json → S × ℕ → Result (S × ℕ)
    emit_announcements peer asn timestamp [] z = ok z
    emit_announcements peer asn timestamp (announcement ∷ announcements) z =
        elim (and_then (find announcement (codes "prefixes")) array) [
          | none ↦ emit_announcements peer asn timestamp announcements z
          | some values ↦ do
            z' ← emit_prefixes announce peer asn timestamp values z
            emit_announcements peer asn timestamp announcements z'
        ]

    unfoldable pub append_announce_events : Json → PeerInfo → ℕ → S × ℕ → Result (S × ℕ)
    append_announce_events content peer timestamp z = elim (try_get_origin_asn content) [
      | none ↦ ok z
      | some origin_asn ↦ elim (and_then (find content (codes "announcements")) array) [
        | none ↦ ok z
        | some announcements ↦ emit_announcements peer origin_asn timestamp announcements z
      ]
    ]

    unfoldable pub append_withdraw_events : Json → PeerInfo → ℕ → S × ℕ → Result (S × ℕ)
    append_withdraw_events content peer timestamp z =
        elim (and_then (find content (codes "withdrawals")) array) [
          | none ↦ ok z
          | some values ↦ emit_prefixes withdraw peer 0 timestamp values z
        ]

    -- The message after `data` is known to be an update.
    unfoldable pub emit_update : Json → S → Result (S × ℕ)
    emit_update content s = do
      z ←
          append_announce_events content (build_peer_info content) (get_timestamp_or_zero content)
            (s, 0)
      append_withdraw_events content (build_peer_info content) (get_timestamp_or_zero content) z

    -- What is done with the update, if there is one.
    unfoldable pub emit_found : S → Option Json → Result (S × ℕ)
    emit_found s none = ok (s, 0)
    emit_found s (some content) = emit_update content s

    unfoldable pub parse_ris_live_message_impl : Bytes → S → Result (S × ℕ)
    unfolding emit_found
    parse_ris_live_message_impl text s = update_of text >>= emit_found s

    -- The template: its thunk passes the five fields on to the caller's function.
    unfoldable pub parse_ris_live_message : Bytes → S → Result (S × ℕ)
    parse_ris_live_message text s = parse_ris_live_message_impl text s
