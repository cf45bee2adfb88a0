-- ===== src/Parser/Events.antt =====
-- src/parser/ris_live_parser.cpp: the parser's calls of the callback against the events of the
-- message.
use asnprefix_map.Base.{
  ℕ, suc, ◌+◌, ◌-◌, ◌%◌, ◌^◌, ◌≡◌, refl, ap, ◌∙◌, Option, none, some, ◌⊎◌, inl, inr, Bool-cases,
  Option-cases, List, [], ◌∷◌, ◌++◌, arith, Bytes, length, get_elem?, Result, ok, err, ◌>>=◌,
  bytes_eq,
}
use asnprefix_map.Base.Text.{codes}
use asnprefix_map.Parser.{
  JsonLibrary, Parsed, parsed, malformed, number_overflow, EventType, announce, withdraw, BgpEvent,
  back, and_then, get_timestamp_or_zero, get_string_ref_or_empty, get_uint32_or_zero,
  has_string_value, build_peer_info, try_get_origin_asn, emit_prefixes, emit_announcements,
  append_announce_events, append_withdraw_events, emit_update, emit_found, update_in, update_under,
  update_of, parse_ris_live_message, parse_ris_live_message_impl,
}
use asnprefix_map.Parser.Message.{
  text_at, number_at, values_at, strings, announced, origin_of, sender_of, time_of, events_for,
  announcement_events, withdrawal_events, type_is, document_events, message_events,
}
use asnprefix_map.Peer.{PeerInfo}

Parsed-cases :
    {J : Type 0} (r : Parsed J)
    → (r ≡ malformed) ⊎ (r ≡ number_overflow) ⊎ ((value : J) × (r ≡ parsed value))
Parsed-cases malformed = inl refl
Parsed-cases number_overflow = inr (inl refl)
Parsed-cases (parsed value) = inr (inr (value, refl))

-- The last element is the one at the largest index.
back_lem {ℓ} : {A : Type ℓ} (xs : List A) → back xs ≡ get_elem? xs (length xs - 1)
back_lem [] = refl
back_lem (x ∷ []) = refl
back_lem (x ∷ y ∷ xs) =
    let more : length (x ∷ y ∷ xs) - 1 ≡ suc (length (y ∷ xs) - 1) = omega arith in
    rw more (back_lem (y ∷ xs))

module _ (j : JsonLibrary) where
  values_at-none :
      (key : Bytes) (value : j.Json)
      → and_then (j.find value key) j.array ≡ none
      → values_at j key value ≡ []
  unfolding values_at
  values_at-none key value h = elim (Option-cases (j.find value key)) [
    | inl e ↦ rw (e, values_at) refl
    | inr (field, e) ↦
        let none_found : j.array field ≡ none = rw e at h in rw (e, values_at, none_found) refl
  ]

  values_at-some :
      (key : Bytes) (value : j.Json) (values : List j.Json)
      → and_then (j.find value key) j.array ≡ some values
      → values_at j key value ≡ values
  unfolding values_at
  values_at-some key value values h = elim (Option-cases (j.find value key)) [
    | inl e ↦ absurd (nothing (rw e at h))
    | inr (field, e) ↦
        let found : j.array field ≡ some values = rw e at h in rw (e, values_at, found) refl
  ]
    where
      nothing : none ≡ some values → ⊥
      nothing e = cc

  origin_lem : (content : j.Json) → try_get_origin_asn j content ≡ origin_of j content
  unfolding try_get_origin_asn origin_of
  origin_lem content = elim (Option-cases (and_then (j.find content (codes "path")) j.array)) [
    | inl h ↦ rw (h, origin_of, values_at-none (codes "path") content h) refl
    | inr (path, h) ↦
        rw (h, origin_of, values_at-some (codes "path") content path h, back_lem path)
          (and_then_lem (get_elem? path (length path - 1)))
  ]
    where
      and_then_lem :
          (last : Option j.Json)
          → and_then last (λ x. and_then (j.unsigned x) (λ n. some (n % 2 ^ 32))) ≡ (elim last [
            | none ↦ none
            | some x ↦ elim (j.unsigned x) [ none ↦ none | some asn ↦ some (asn % 2 ^ 32) ]
          ])
      and_then_lem none = refl
      and_then_lem (some x) = elim (Option-cases (j.unsigned x)) [
        | inl e ↦ rw e refl
        | inr (n, e) ↦ rw e refl
      ]

  sender_lem : (content : j.Json) → build_peer_info j content ≡ sender_of j content
  unfolding build_peer_info sender_of text_at number_at get_string_ref_or_empty get_uint32_or_zero
  sender_lem content = ground arith

  time_lem : (content : j.Json) → get_timestamp_or_zero j content ≡ time_of j content
  unfolding get_timestamp_or_zero time_of number_at
  time_lem content = ground arith

  type_lem :
      (expected : Bytes) (value : j.Json)
      → has_string_value j value (codes "type") expected ≡ type_is j expected value
  unfolding has_string_value type_is text_at
  type_lem expected value = ground arith

-- What follows a result may be replaced by what equals it, and two steps are one.
>>=-cong {ℓ κ} :
    {T : Type ℓ} {U : Type κ} (r : Result T) (f g : T → Result U)
    → ((t : T) → f t ≡ g t)
    → (r >>= f) ≡ (r >>= g)
>>=-cong (err e) f g h = refl
>>=-cong (ok t) f g h = h t

>>=-assoc {ℓ} :
    {T U : Type ℓ} (r : Result T) (f : T → Result U) (g : U → Result U)
    → ((r >>= f) >>= g) ≡ (r >>= λ t. f t >>= g)
>>=-assoc (err e) f g = refl
>>=-assoc (ok t) f g = refl

module _ {S : Type 0} (on_event : S → BgpEvent → Result S) where
  -- A callback called for each event of a list, with a count of the calls that return.
  unfoldable pub deliver : List BgpEvent → S × ℕ → Result (S × ℕ)
  deliver [] z = ok z
  deliver (e ∷ es) (s, n) = on_event s e >>= λ s'. deliver es (s', n + 1)

  deliver-++ :
      (es fs : List BgpEvent) (z : S × ℕ) → (deliver es z >>= deliver fs) ≡ deliver (es ++ fs) z
  unfolding deliver
  deliver-++ [] fs z = refl
  deliver-++ (e ∷ es) fs (s, n) =
      >>=-assoc (on_event s e) (λ s'. deliver es (s', n + 1)) (deliver fs)
      ∙ >>=-cong (on_event s e) _ _ (λ s'. deliver-++ es fs (s', n + 1))

  events_for-++ :
      (type : EventType) (peer : PeerInfo) (asn timestamp : ℕ) (ps qs : List Bytes)
      → (events_for type peer asn timestamp ps ++ events_for type peer asn timestamp qs)
        ≡ events_for type peer asn timestamp (ps ++ qs)
  unfolding events_for
  events_for-++ type peer asn timestamp [] qs = refl
  events_for-++ type peer asn timestamp (p ∷ ps) qs =
      rw (events_for-++ type peer asn timestamp ps qs) refl

  module _ (j : JsonLibrary) where
    emit_prefixes_lem :
        (type : EventType) (peer : PeerInfo) (asn timestamp : ℕ) (values : List j.Json) (z : S × ℕ)
        → emit_prefixes j on_event type peer asn timestamp values z
          ≡ deliver (events_for type peer asn timestamp (strings j values)) z
    unfolding emit_prefixes deliver events_for strings
    emit_prefixes_lem type peer asn timestamp [] z = refl
    emit_prefixes_lem type peer asn timestamp (value ∷ values) (s, n) =
        let rest = emit_prefixes_lem type peer asn timestamp values in
        elim (Option-cases (j.string value)) [
          | inl h ↦ rw (h, emit_prefixes, strings) (rest (s, n))
          | inr (prefix, h) ↦
              rw (h, emit_prefixes, strings) (>>=-cong (on_event s _) _ _ (λ s'. rest (s', n + 1)))
        ]

    emit_announcements_lem :
        (peer : PeerInfo) (asn timestamp : ℕ) (values : List j.Json) (z : S × ℕ)
        → emit_announcements j on_event peer asn timestamp values z
          ≡ deliver (events_for announce peer asn timestamp (announced j values)) z
    unfolding emit_announcements announced deliver events_for strings
    emit_announcements_lem peer asn timestamp [] z = refl
    emit_announcements_lem peer asn timestamp (value ∷ values) z =
        let rest = emit_announcements_lem peer asn timestamp values in
        elim (Option-cases (and_then (j.find value (codes "prefixes")) j.array)) [
          | inl h ↦ rw (h, emit_announcements, values_at-none j (codes "prefixes") value h) (rest z)
          | inr (found, h) ↦
              let here = emit_prefixes_lem announce peer asn timestamp found in
              let joined =
                ap (λ r. r >>= emit_announcements j on_event peer asn timestamp values) (here z)
                ∙ >>=-cong _ _ _ rest
                ∙ deliver-++ _ _ z
                ∙ ap (λ es. deliver es z) (events_for-++ announce peer asn timestamp _ _) in
              rw (h, emit_announcements, values_at-some j (codes "prefixes") value found h) joined
        ]

    announce_lem :
        (content : j.Json) (z : S × ℕ)
        → append_announce_events j on_event content (sender_of j content) (time_of j content) z
          ≡ deliver (announcement_events j content) z
    unfolding append_announce_events announcement_events announced events_for deliver
    announce_lem content z = elim (Option-cases (origin_of j content)) [
      | inl h ↦
          rw (origin_lem j content ∙ h, append_announce_events) (rw (h, announcement_events) refl)
      | inr (asn, h) ↦
          let key = codes "announcements" in
          rw (origin_lem j content ∙ h, append_announce_events)
            (rw (h, announcement_events)
              (elim (Option-cases (and_then (j.find content key) j.array)) [
                | inl none_found ↦ rw (none_found, values_at-none j key content none_found) refl
                | inr (found, array) ↦
                    rw (array, values_at-some j key content found array)
                      (emit_announcements_lem (sender_of j content) asn (time_of j content) found z)
              ]))
    ]

    withdraw_lem :
        (content : j.Json) (z : S × ℕ)
        → append_withdraw_events j on_event content (sender_of j content) (time_of j content) z
          ≡ deliver (withdrawal_events j content) z
    unfolding append_withdraw_events withdrawal_events strings events_for deliver
    withdraw_lem content z =
        let key = codes "withdrawals" in
        elim (Option-cases (and_then (j.find content key) j.array)) [
          | inl h ↦ rw (h, append_withdraw_events, values_at-none j key content h) refl
          | inr (found, h) ↦
              rw (h, append_withdraw_events, values_at-some j key content found h)
                (emit_prefixes_lem withdraw (sender_of j content) 0 (time_of j content) found z)
        ]

    update_lem :
        (content : j.Json) (s : S)
        → emit_update j on_event content s
          ≡ deliver (announcement_events j content ++ withdrawal_events j content) (s, 0)
    unfolding emit_update
    update_lem content s =
        rw (sender_lem j content, time_lem j content, emit_update)
          (ap
              (λ r.
                r
                >>= append_withdraw_events j on_event content (sender_of j content)
                    (time_of j content))
              (announce_lem content (s, 0))
            ∙ >>=-cong _ _ _ (withdraw_lem content)
            ∙ deliver-++ _ _ (s, 0))

    document_lem :
        (outer : j.Json) (s : S)
        → emit_found j on_event s (update_under j outer) ≡ deliver (document_events j outer) (s, 0)
    unfolding emit_found update_under update_in document_events deliver
    document_lem outer s =
        let is_message = type_lem j (codes "ris_message") outer in
        rw (is_message, update_under)
          (elim (Option-cases (j.find outer (codes "data"))) [
            | inl h ↦ elim (Bool-cases (type_is j (codes "ris_message") outer)) [
              | inl e ↦ rw (h, e, document_events) refl
              | inr e ↦ rw (h, e, document_events) refl
            ]
            | inr (content, h) ↦
                let is_update = type_lem j (codes "UPDATE") content in
                elim (Bool-cases (type_is j (codes "ris_message") outer)) [
                  | inr e ↦ rw (h, e, document_events) refl
                  | inl e ↦ elim (Bool-cases (j.is_object content)) [
                    | inr o ↦ rw (h, e, o, document_events, update_in) refl
                    | inl o ↦ elim (Bool-cases (type_is j (codes "UPDATE") content)) [
                      | inr u ↦ rw (h, e, o, document_events, update_in) (rw (is_update, u) refl)
                      | inl u ↦
                          rw (h, e, o, document_events, update_in)
                            (rw (is_update, u) (update_lem content s))
                    ]
                  ]
                ]
          ])

    -- For any text and any callback: where a number of the text overflows, the parser throws the
    -- exception of the JSON library before any call; else it calls the callback on the events of the
    -- message in order until a call throws, and returns how many there are. The events are those of an
    -- update in a "ris_message", and a text that holds none, or is no JSON, has no events.
    pub parse_ris_live_message_lem :
        (text : Bytes) (s : S)
        → parse_ris_live_message j on_event text s
          ≡ (message_events j text >>= λ es. deliver es (s, 0))
    unfolding parse_ris_live_message parse_ris_live_message_impl message_events update_of deliver
        emit_found
    parse_ris_live_message_lem text s = elim (Parsed-cases (j.parse text)) [
      | inl bad ↦ rw (bad, parse_ris_live_message_impl, update_of, message_events) refl
      | inr (inl large) ↦ rw (large, parse_ris_live_message_impl, update_of, message_events) refl
      | inr (inr (outer, h)) ↦
          rw (h, parse_ris_live_message_impl, update_of, message_events) (document_lem outer s)
    ]
