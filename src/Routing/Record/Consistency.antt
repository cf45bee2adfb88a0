-- ===== src/Routing/Record/Consistency.antt =====
-- What every record of the routing state satisfies, and that announces and withdraws keep it.
use asnprefix_map.Base.{
  ℕ, ◌≤◌, ◌≡◌, refl, Bool, true, false, arith, if◌then◌else◌, nat_eq, length, tally,
}
use asnprefix_map.Base.Map.{find}
use asnprefix_map.Routing.Record.{PrefixRecord, empty_record, recompute_selected_from_counts}
use asnprefix_map.Routing.Record.Winner.{IsWinner, select_from-IsWinner}
use asnprefix_map.Routing.Record.Counts.{of_peer, origins, Counts}

-- The two vectors run in parallel, a peer has one observation, and the counters are right.
pub record IsTallied (r : PrefixRecord) : Type 0 where
  pub paired : length r.timestamps ≡ length r.observations
  pub single : (peer_id : ℕ) → tally (of_peer peer_id) r.observations ≤ 1
  pub counts : Counts r (origins r)

pub record IsConsistent (r : PrefixRecord) : Type 0 where
  pub tallied : IsTallied r
  pub winner : IsWinner (origins r) r.selected_asn r.selected_count

pub empty_record-IsConsistent : IsConsistent empty_record
unfolding find
empty_record-IsConsistent = record {
  tallied = record {
    paired = refl;
    single = λ p. omega arith;
    counts = record { keys = tt; values = λ a. refl };
  };
  winner = record { attained = refl; most = λ b. omega arith; least = λ b e. omega arith };
}

reselect-IsTallied :
    (r : PrefixRecord) (asn count : ℕ)
    → IsTallied r
    → IsTallied (record r { selected_asn = asn; selected_count = count })
reselect-IsTallied r asn count v = record {
  paired = v.paired;
  single = v.single;
  counts = record { keys = v.counts.keys; values = v.counts.values };
}

-- A rescan of right counters selects the plurality.
pub recompute-IsConsistent :
    (r : PrefixRecord) → IsTallied r → IsConsistent (recompute_selected_from_counts r)
unfolding recompute_selected_from_counts
recompute-IsConsistent r v = record {
  tallied = record {
    paired = v.paired;
    single = v.single;
    counts = record { keys = v.counts.keys; values = v.counts.values };
  };
  winner = select_from-IsWinner r.asn_counts (origins r) v.counts.keys v.counts.values;
}

-- Both announces end by a test on the new count, which may select the origin.
pub decide :
    (q : PrefixRecord) (asn n : ℕ) (better : Bool)
    → IsTallied q
    → (better ≡ true → IsWinner (origins q) asn n)
    → (better ≡ false → IsWinner (origins q) q.selected_asn q.selected_count)
    → IsConsistent (if better then record q { selected_asn = asn; selected_count = n } else q)
decide q asn n true v gain stay = record {
  tallied = reselect-IsTallied q asn n v;
  winner = gain refl;
}
decide q asn n false v gain stay = record { tallied = v; winner = stay refl }
