-- ===== src/Snapshot/Printed.antt =====
-- The observations of a snapshot: how `save_snapshot` describes them, and that `load_snapshot` gives
-- them back to the state.
use asnprefix_map.Base.{
  ℕ, ◌^◌, ◌<◌, ◌≡◌, refl, ap, subst, inl, inr, true, none, some, List, [], ◌∷◌, ◌++◌, arith, nat_eq,
  map, Bytes, ok, >>=-eq-ok, Option-cases,
}
use asnprefix_map.Base.Map.{get_or}
use asnprefix_map.Base.Text.{free_of-append}
use asnprefix_map.Base.Decimal.{to_string}
use asnprefix_map.Base.Sorting.{All}
use asnprefix_map.Prefix.{BinaryPrefix, v4, v6, PrefixFamily, family_v4, family_v6, family_of}
use asnprefix_map.Prefix.Inet.{Inet, IsInet}
use asnprefix_map.Prefix.Cidr.{
  infer_family_from_text, parse_prefix_v4, parse_prefix_v6, parse_as, parse_prefix,
  prefix_to_string,
}
use asnprefix_map.Prefix.RoundTrip.{IsCanonical, parse_prefix-prefix_to_string}
use asnprefix_map.Peer.{PeerRegistry, contains}
use asnprefix_map.Routing.State.{RoutingState, StoredObservation, restore_observation, announce}
use asnprefix_map.Routing.State.Families.{announces, step, run}
use asnprefix_map.Routing.State.Restoring.{call}
use asnprefix_map.Snapshot.{SnapshotObservation, describe, describe_all}
use asnprefix_map.Snapshot.Load.{restore_one, restore_all}
use asnprefix_map.Snapshot.Fields.{IsField, to_string-IsField}
use asnprefix_map.Snapshot.Lines.{IsObservationLine}

-- A printed address holds no tab and no newline.
pub record PrintsFields (i : Inet) : Type 0 where
  pub field_v4 : (n : ℕ) (text : Bytes) → i.ntop_v4 n ≡ some text → IsField text
  pub field_v6 : (bytes text : Bytes) → i.ntop_v6 bytes ≡ some text → IsField text

-- What a line can hold of an observation, whose prefix is in normal form.
pub record IsSavable (e : StoredObservation) : Type 0 where
  pub canonical : IsCanonical e.prefix
  pub id_fits : e.observation.peer_id < 2 ^ 32
  pub asn_fits : e.observation.origin_asn < 2 ^ 32
  pub time_fits : e.timestamp < 2 ^ 64

parse_as-family :
    (i : Inet) (family : PrefixFamily) (text : Bytes) (b : BinaryPrefix)
    → parse_as i family text ≡ ok b
    → family ≡ family_of b
unfolding parse_as family_of
parse_as-family i family_v4 text b h =
    let (p, _, e) = >>=-eq-ok (parse_prefix_v4 i text) (λ p. ok (v4 p)) h in
    let same : v4 p ≡ b = cc in ap family_of same
parse_as-family i family_v6 text b h =
    let (p, _, e) = >>=-eq-ok (parse_prefix_v6 i text) (λ p. ok (v6 p)) h in
    let same : v6 p ≡ b = cc in ap family_of same

with_length-IsField :
    (buffer : Bytes) (n : ℕ) → IsField buffer → IsField (buffer ++ (b'/' ∷ to_string n))
with_length-IsField buffer n f =
    let digits = to_string-IsField n in
    record {
      no_tab = free_of-append 9 buffer _ f.no_tab (ground (arith, digits.no_tab));
      no_newline = free_of-append 10 buffer _ f.no_newline (ground (arith, digits.no_newline));
    }

-- The data of an observation's line.
abbrev pub described : Inet → StoredObservation → SnapshotObservation
described i e = record {
  family = family_of e.prefix;
  prefix_text = get_or [] (prefix_to_string i e.prefix);
  peer_id = e.observation.peer_id;
  origin_asn = e.observation.origin_asn;
  timestamp = e.timestamp;
}

module _ (i : Inet) (laws : IsInet i) (fields : PrintsFields i) where
  printed-IsField :
      (b : BinaryPrefix) (text : Bytes) → prefix_to_string i b ≡ some text → IsField text
  unfolding prefix_to_string
  printed-IsField (v4 p) text h = elim (Option-cases (i.ntop_v4 p.network)) [
    | inl bad ↦ absurd (ground (arith, h, bad))
    | inr (buffer, good) ↦
        let whole : buffer ++ (b'/' ∷ to_string p.length) ≡ text = ground (arith, h, good) in
        subst IsField whole
          (with_length-IsField buffer p.length (fields.field_v4 p.network buffer good))
  ]
  printed-IsField (v6 p) text h = elim (Option-cases (i.ntop_v6 p.network)) [
    | inl bad ↦ absurd (ground (arith, h, bad))
    | inr (buffer, good) ↦
        let whole : buffer ++ (b'/' ∷ to_string p.length) ≡ text = ground (arith, h, good) in
        subst IsField whole
          (with_length-IsField buffer p.length (fields.field_v6 p.network buffer good))
  ]

  -- A prefix in normal form has a text, which fits a field and is parsed by its family.
  print_lem :
      (b : BinaryPrefix)
      → IsCanonical b
      → (text : Bytes) × (prefix_to_string i b ≡ some text)
        × IsField text
        × (parse_as i (family_of b) text ≡ ok b)
  unfolding parse_prefix
  print_lem b c =
      let (text, printed, parsed) = parse_prefix-prefix_to_string i laws b c in
      let (family, _, by_family) =
        >>=-eq-ok (infer_family_from_text text) (λ f. parse_as i f text) parsed in
      (
        text,
        printed,
        printed-IsField b text printed,
        subst (λ f. parse_as i f text ≡ ok b) (parse_as-family i family text b by_family) by_family,
      )

  pub describe_all-map :
      (es : List StoredObservation)
      → All IsSavable es
      → describe_all i es ≡ ok (map (described i) es)
  unfolding describe_all describe
  describe_all-map [] v = refl
  describe_all-map (e ∷ es) (v, vs) =
      let (_, printed, _, _) = print_lem e.prefix v.canonical in
      rw (describe, printed, describe_all-map es vs)

  pub described-IsObservationLine :
      (e : StoredObservation) → IsSavable e → IsObservationLine (described i e)
  described-IsObservationLine e v =
      let (text, printed, field, _) = print_lem e.prefix v.canonical in
      record {
        text = rw printed field;
        id_fits = v.id_fits;
        asn_fits = v.asn_fits;
        time_fits = v.time_fits;
      }

  restore_observation-step :
      (s : RoutingState) (e : StoredObservation) (b : BinaryPrefix)
      → restore_observation s e.observation.peer_id b e.observation.origin_asn e.timestamp
        ≡ step s (announces e.observation.peer_id b e.observation.origin_asn e.timestamp)
  unfolding restore_observation step announce
  restore_observation-step s e (v4 x) = refl
  restore_observation-step s e (v6 x) = refl

  restore_one-described :
      (r : PeerRegistry) (e : StoredObservation) (s : RoutingState)
      → IsSavable e
      → contains r e.observation.peer_id ≡ true
      → restore_one i r (described i e) s ≡ ok (step s (call e))
  unfolding restore_one
  restore_one-described r e s v known =
      let (text, printed, _, parsed) = print_lem e.prefix v.canonical in
      rw (known, printed, parsed) (ap ok (restore_observation-step s e e.prefix))

  -- The loop over described observations announces each of them.
  pub restore_all-described :
      (r : PeerRegistry) (es : List StoredObservation) (s : RoutingState)
      → All IsSavable es
      → All (λ e. contains r e.observation.peer_id ≡ true) es
      → restore_all i r (map (described i) es) s ≡ (run s (map call es), none)
  unfolding restore_all run
  restore_all-described r [] s v w = refl
  restore_all-described r (e ∷ es) s (v, vs) (known, all) =
      rw (restore_all, restore_one-described r e s v known)
        (restore_all-described r es (step s (call e)) vs all)
