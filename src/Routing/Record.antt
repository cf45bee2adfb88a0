-- ===== src/Routing/Record.antt =====
-- src/routing_state.h: `Observation` and `PrefixRecord`; src/routing_state.cpp: the ASN counters,
-- the selected origin, and what an announce or a withdraw does to the record of one prefix.
pub mod Winner
pub mod Counts
pub mod Votes
pub mod Consistency
pub mod Fields
pub mod Adding
pub mod Dropping
pub mod Replacing
pub mod View
pub mod Seen
pub mod Recount
pub mod Order
use asnprefix_map.Base.{
  ℕ, zero, suc, ◌+◌, ◌-◌, ◌%◌, ◌^◌, Bool, true, false, ◌&&◌, ◌||◌, Option, none, some, List, [],
  ◌∷◌, ◌++◌, ltb, ◌==◌, if◌then◌else◌, nat_eq, length, get_elem?, set, pop_back,
}
use asnprefix_map.Base.Map.{Map, find, assign, erase, get_or}

pub record Observation : Type 0 where
  pub peer_id : ℕ
  pub origin_asn : ℕ

pub record PrefixRecord : Type 0 where
  pub observations : List Observation
  pub timestamps : List ℕ
  pub asn_counts : Map ℕ ℕ
  pub selected_asn : ℕ
  pub selected_count : ℕ

abbrev pub empty_record : PrefixRecord
empty_record = record {
  observations = [];
  timestamps = [];
  asn_counts = [];
  selected_asn = 0;
  selected_count = 0;
}

-- An increment of a `uint32_t`.
abbrev pub increment32 : ℕ → ℕ
increment32 n = (n + 1) % 2 ^ 32

unfoldable pub is_better_selection : ℕ → ℕ → ℕ → ℕ → Bool
is_better_selection candidate_asn candidate_count current_asn current_count =
    ltb current_count candidate_count
    || (candidate_count == current_count && ltb candidate_asn current_asn)

-- `operator[]` makes a counter of 0 where there is none.
unfoldable pub increment_asn_count : PrefixRecord → ℕ → PrefixRecord × ℕ
increment_asn_count r asn =
    let count = increment32 (get_or 0 (find asn r.asn_counts)) in
    (record r { asn_counts = assign asn count r.asn_counts }, count)

unfoldable pub decrement_asn_count : PrefixRecord → ℕ → PrefixRecord × ℕ
decrement_asn_count r asn = elim (find asn r.asn_counts) [
  | none ↦ (r, 0)
  | some count ↦
      if ltb 1 count
      then (record r { asn_counts = assign asn (count - 1) r.asn_counts }, count - 1)
      else (record r { asn_counts = erase asn r.asn_counts }, 0)
]

-- The loop of `recompute_selected_from_counts`, over the entries that are left.
unfoldable pub select_from : Map ℕ ℕ → ℕ → ℕ → ℕ × ℕ
select_from [] selected_asn selected_count = (selected_asn, selected_count)
select_from ((asn, count) ∷ m) selected_asn selected_count =
    let better = is_better_selection asn count selected_asn selected_count in
    select_from m (if better then asn else selected_asn) (if better then count else selected_count)

unfoldable pub recompute_selected_from_counts : PrefixRecord → PrefixRecord
recompute_selected_from_counts r =
    let (asn, count) = select_from r.asn_counts 0 0 in
    record r { selected_asn = asn; selected_count = count }

abbrev pub one_later : Option (ℕ × Observation) → Option (ℕ × Observation)
one_later none = none
one_later (some (index, o)) = some (suc index, o)

-- The `for` loops over `record.observations`: the first index whose observation is of the peer.
unfoldable pub find_observation : ℕ → List Observation → Option (ℕ × Observation)
find_observation peer_id [] = none
find_observation peer_id (o ∷ os) =
    if o.peer_id == peer_id then some (0, o) else one_later (find_observation peer_id os)

-- `announce_impl`: the counters and the two vectors, when the peer has changed its origin. The
-- second part is `new_count`.
unfoldable pub exchange_observation : PrefixRecord → ℕ → Observation → ℕ → ℕ → PrefixRecord × ℕ
exchange_observation r index observation origin_asn timestamp =
    let decremented = (decrement_asn_count r observation.origin_asn).0 in
    let incremented = increment_asn_count decremented origin_asn in
    let counted = incremented.0 in
    (
      record counted {
        observations =
            set counted.observations index (record observation { origin_asn = origin_asn });
        timestamps = set counted.timestamps index timestamp;
      },
      incremented.1,
    )

-- `announce_impl` from `selected_may_change` to `sync_aggregated`.
unfoldable pub replace_observation : PrefixRecord → ℕ → Observation → ℕ → ℕ → PrefixRecord
replace_observation r index observation origin_asn timestamp =
    let selected_may_change = observation.origin_asn == r.selected_asn in
    let exchanged = exchange_observation r index observation origin_asn timestamp in
    let written = exchanged.0 in
    let new_count = exchanged.1 in
    if selected_may_change
    then recompute_selected_from_counts written
    else if is_better_selection origin_asn new_count written.selected_asn written.selected_count
    then record written { selected_asn = origin_asn; selected_count = new_count }
    else written

-- The end of `announce_impl`: the two calls of `push_back` and the counter, when the peer is new to
-- the prefix. The second part is `new_count`.
unfoldable pub push_observation : PrefixRecord → ℕ → ℕ → ℕ → PrefixRecord × ℕ
push_observation r peer_id origin_asn timestamp =
    let pushed : PrefixRecord = record r {
      observations = r.observations ++ (record { peer_id = peer_id; origin_asn = origin_asn }) ∷ [];
      timestamps = r.timestamps ++ timestamp ∷ [];
    } in
    increment_asn_count pushed origin_asn

unfoldable pub add_observation : PrefixRecord → ℕ → ℕ → ℕ → PrefixRecord
add_observation r peer_id origin_asn timestamp =
    let pushed = push_observation r peer_id origin_asn timestamp in
    let counted = pushed.0 in
    let new_count = pushed.1 in
    if counted.selected_count == 0
      || is_better_selection origin_asn new_count counted.selected_asn counted.selected_count
    then record counted { selected_asn = origin_asn; selected_count = new_count }
    else counted

-- The last element goes to the index, and the last place is dropped.
unfoldable pub remove_packed {ℓ} : {A : Type ℓ} → List A → ℕ → List A
remove_packed xs index =
    let last_index = length xs - 1 in
    pop_back (
      if index == last_index
      then xs
      else elim (get_elem? xs last_index) [ none ↦ xs | some back ↦ set xs index back ])

-- `withdraw_impl` up to the two calls of `pop_back`.
unfoldable pub drop_observation : PrefixRecord → ℕ → Observation → PrefixRecord
drop_observation r index removed =
    let decremented = (decrement_asn_count r removed.origin_asn).0 in
    record decremented {
      observations = remove_packed decremented.observations index;
      timestamps = remove_packed decremented.timestamps index;
    }
