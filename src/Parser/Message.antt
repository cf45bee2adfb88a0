-- ===== src/Parser/Message.antt =====
-- What one message of RIS Live stands for, described over the values of the JSON library: no function
-- of src/parser/ris_live_parser.cpp is used here, and no callback.
use asnprefix_map.Base.{
  ℕ, ◌-◌, ◌%◌, ◌^◌, ◌≡◌, refl, subst, Bool-cases, inl, inr, Bool, false, ◌&&◌, Option, none, some,
  Option-cases, List, [], ◌∷◌, ◌++◌, Bytes, bytes_beq, length, get_elem?, if◌then◌else◌, Result, ok,
  err, json_out_of_range,
}
use asnprefix_map.Base.Text.{codes}
use asnprefix_map.Parser.{
  JsonLibrary, Parsed, parsed, malformed, number_overflow, EventType, announce, withdraw, BgpEvent,
}
use asnprefix_map.Peer.{PeerInfo}

-- The string of the field `key` of an object, and its number, where the field is one.
unfoldable pub text_at : (j : JsonLibrary) → Bytes → j.Json → Option Bytes
text_at j key value = elim (j.find value key) [ none ↦ none | some field ↦ j.string field ]

unfoldable pub number_at : (j : JsonLibrary) → Bytes → j.Json → Option ℕ
number_at j key value = elim (j.find value key) [ none ↦ none | some field ↦ j.unsigned field ]

-- The values of the field `key` where it is an array, and no values elsewhere.
unfoldable pub values_at : (j : JsonLibrary) → Bytes → j.Json → List j.Json
values_at j key value = elim (j.find value key) [
  | none ↦ []
  | some field ↦ elim (j.array field) [ none ↦ [] | some values ↦ values ]
]

-- The strings of an array.
unfoldable pub strings : (j : JsonLibrary) → List j.Json → List Bytes
strings j [] = []
strings j (value ∷ values) = elim (j.string value) [
  | none ↦ strings j values
  | some prefix ↦ prefix ∷ strings j values
]

-- The strings of the field `prefixes` of each announcement, in order.
unfoldable pub announced : (j : JsonLibrary) → List j.Json → List Bytes
announced j [] = []
announced j (announcement ∷ announcements) =
    strings j (values_at j (codes "prefixes") announcement) ++ announced j announcements

-- The low 32 bits of the value of the path at the largest index, if it is an unsigned number.
unfoldable pub origin_of : (j : JsonLibrary) → j.Json → Option ℕ
origin_of j content =
    let path = values_at j (codes "path") content in
    elim (get_elem? path (length path - 1)) [
      | none ↦ none
      | some last ↦ elim (j.unsigned last) [ none ↦ none | some asn ↦ some (asn % 2 ^ 32) ]
    ]

unfoldable pub sender_of : (j : JsonLibrary) → j.Json → PeerInfo
sender_of j content = record {
  host = elim (text_at j (codes "host") content) [ none ↦ [] | some host ↦ host ];
  peer_ip = elim (text_at j (codes "peer") content) [ none ↦ [] | some ip ↦ ip ];
  peer_asn = elim (number_at j (codes "peer_asn") content) [ none ↦ 0 | some asn ↦ asn % 2 ^ 32 ];
}

unfoldable pub time_of : (j : JsonLibrary) → j.Json → ℕ
time_of j content = elim (number_at j (codes "timestamp") content) [ none ↦ 0 | some time ↦ time ]

-- One event for each prefix, with the same peer, origin and timestamp.
unfoldable pub events_for : EventType → PeerInfo → ℕ → ℕ → List Bytes → List BgpEvent
events_for type peer asn timestamp [] = []
events_for type peer asn timestamp (prefix ∷ prefixes) =
    (record { type = type; peer = peer; prefix = prefix; asn = asn; timestamp = timestamp })
    ∷ events_for type peer asn timestamp prefixes

-- The announce events of an update, if its path has an origin.
unfoldable pub announcement_events : (j : JsonLibrary) → j.Json → List BgpEvent
announcement_events j content = elim (origin_of j content) [
  | none ↦ []
  | some origin ↦
      events_for announce (sender_of j content) origin (time_of j content)
        (announced j (values_at j (codes "announcements") content))
]

-- The withdraw events of an update, whose origin is 0.
unfoldable pub withdrawal_events : (j : JsonLibrary) → j.Json → List BgpEvent
withdrawal_events j content =
    events_for withdraw (sender_of j content) 0 (time_of j content)
      (strings j (values_at j (codes "withdrawals") content))

-- The field `type` is that text.
unfoldable pub type_is : (j : JsonLibrary) → Bytes → j.Json → Bool
type_is j expected value = elim (text_at j (codes "type") value) [
  | none ↦ false
  | some type ↦ bytes_beq type expected
]

-- The events of a document: it is a "ris_message", its `data` is an object and an "UPDATE", and the
-- announcements of that stand before its withdrawals. Any other document has no events.
unfoldable pub document_events : (j : JsonLibrary) → j.Json → List BgpEvent
document_events j outer = elim (j.find outer (codes "data")) [
  | none ↦ []
  | some content ↦
      if type_is j (codes "ris_message") outer
        && (j.is_object content && type_is j (codes "UPDATE") content)
      then announcement_events j content ++ withdrawal_events j content
      else []
]

-- The events of a text. A text that is no JSON has none; one with a number too large throws.
unfoldable pub message_events : (j : JsonLibrary) → Bytes → Result (List BgpEvent)
message_events j text = elim (j.parse text) [
  | parsed outer ↦ ok (document_events j outer)
  | malformed ↦ ok []
  | number_overflow ↦ err json_out_of_range
]

-- Every event is of the peer.
abbrev pub FromPeer : PeerInfo → List BgpEvent → Type 0
FromPeer p [] = Unit
FromPeer p (e ∷ es) = (e.peer ≡ p) × FromPeer p es

events_for-FromPeer :
    (type : EventType) (peer : PeerInfo) (asn timestamp : ℕ) (ps : List Bytes)
    → FromPeer peer (events_for type peer asn timestamp ps)
unfolding events_for
events_for-FromPeer type peer asn timestamp [] = tt
events_for-FromPeer type peer asn timestamp (p ∷ ps) =
    (refl, events_for-FromPeer type peer asn timestamp ps)

FromPeer-append :
    (p : PeerInfo) (xs ys : List BgpEvent) → FromPeer p xs → FromPeer p ys → FromPeer p (xs ++ ys)
FromPeer-append p [] ys h k = k
FromPeer-append p (x ∷ xs) ys h k = (h.0, FromPeer-append p xs ys h.1 k)

announcements-FromPeer :
    (j : JsonLibrary) (content : j.Json)
    → FromPeer (sender_of j content) (announcement_events j content)
unfolding announcement_events
announcements-FromPeer j content = elim (Option-cases (origin_of j content)) [
  | inl h ↦ rw (h, announcement_events) tt
  | inr (asn, h) ↦
      rw (h, announcement_events)
        (events_for-FromPeer announce (sender_of j content) asn (time_of j content) _)
]

document-FromPeer :
    (j : JsonLibrary) (outer : j.Json) → (p : PeerInfo) × FromPeer p (document_events j outer)
unfolding document_events withdrawal_events
document-FromPeer j outer =
    let nobody : PeerInfo = record { host = []; peer_ip = []; peer_asn = 0 } in
    elim (Option-cases (j.find outer (codes "data"))) [
      | inl h ↦ (nobody, rw (h, document_events) tt)
      | inr (content, h) ↦
          let test =
            type_is j (codes "ris_message") outer
            && (j.is_object content && type_is j (codes "UPDATE") content) in
          elim (Bool-cases test) [
            | inl e ↦
                let peer = sender_of j content in
                (
                  peer,
                  rw (h, document_events, e)
                      (FromPeer-append peer (announcement_events j content) _
                        (announcements-FromPeer j content)
                        (events_for-FromPeer withdraw peer 0 (time_of j content) _)),
                )
            | inr e ↦ (nobody, rw (h, document_events, e) tt)
          ]
    ]

-- The events of one message are all of one peer.
pub message_events-FromPeer :
    (j : JsonLibrary) (text : Bytes) (es : List BgpEvent)
    → message_events j text ≡ ok es
    → (p : PeerInfo) × FromPeer p es
unfolding message_events
message_events-FromPeer j text es h = from_result (j.parse text) h
  where
    from_result :
        (r : Parsed j.Json)
        → (elim r [
          | parsed outer ↦ ok (document_events j outer)
          | malformed ↦ ok []
          | number_overflow ↦ err json_out_of_range
        ])
          ≡ ok es
        → (p : PeerInfo) × FromPeer p es
    from_result (parsed outer) h =
        let (p, f) = document-FromPeer j outer in
        let same : document_events j outer ≡ es = cc in (p, subst (FromPeer p) same f)
    from_result malformed h =
        let same : [] ≡ es = cc in
        (record { host = []; peer_ip = []; peer_asn = 0 }, subst (FromPeer _) same tt)
    from_result number_overflow h = absurd (cc)
