-- ===== src/Routing/State/Families.antt =====
-- `RoutingState` over both families: its tables stay sound, and it is one finite map from prefixes
-- of either family and peers.
use asnprefix_map.Base.{
  ℕ, ◌≡◌, refl, ◌∙◌, ap, ◌↔◌, ◌&&◌, Option, none, some, List, [], ◌∷◌, arith, ◌==◌, if◌then◌else◌,
  nat_eq,
}
use asnprefix_map.Base.Map.{find, get_or}
use asnprefix_map.Prefix.{BinaryPrefix, v4, v6, v4_eq, v6_eq, binary_eq}
use asnprefix_map.Routing.Record.{PrefixRecord}
use asnprefix_map.Routing.Table.Soundness.{
  IsSound, HasRoom, record_of, announce_impl-IsSound, withdraw_impl-IsSound,
}
use asnprefix_map.Routing.Table.Refinement.{
  observed as table_observed, observed-announce, observed-withdraw, seen-empty_record,
}
use asnprefix_map.Routing.Table.Exports.{empty_table-IsSound, exported_none}
use asnprefix_map.Routing.State.{RoutingState, clear, announce, withdraw}

pub record BothSound (s : RoutingState) : Type 0 where
  pub sound_v4 : IsSound s.table_v4
  pub sound_v6 : IsSound s.table_v6

-- The record of the prefix, in the table of its family.
abbrev pub record_at : RoutingState → BinaryPrefix → PrefixRecord
record_at s (v4 prefix) = record_of s.table_v4 prefix
record_at s (v6 prefix) = record_of s.table_v6 prefix

abbrev pub Room : RoutingState → BinaryPrefix → Type 0
Room s (v4 prefix) = HasRoom s.table_v4 prefix
Room s (v6 prefix) = HasRoom s.table_v6 prefix

-- The origin and the timestamp that the state holds for the prefix and the peer.
unfoldable pub observed : RoutingState → BinaryPrefix → ℕ → Option (ℕ × ℕ)
observed s (v4 prefix) p = table_observed s.table_v4 prefix p
observed s (v6 prefix) p = table_observed s.table_v6 prefix p

-- The origin that the state would export for the prefix.
unfoldable pub exported : RoutingState → BinaryPrefix → Option ℕ
exported s (v4 prefix) = find prefix s.table_v4.aggregated
exported s (v6 prefix) = find prefix s.table_v6.aggregated

-- A call on the state.
pub data Call : Type 0 where
  announces : ℕ → BinaryPrefix → ℕ → ℕ → Call
  withdraws : ℕ → BinaryPrefix → Call

unfoldable pub step : RoutingState → Call → RoutingState
step s (announces p prefix asn timestamp) = announce s p prefix asn timestamp
step s (withdraws p prefix) = withdraw s p prefix

unfoldable pub run : RoutingState → List Call → RoutingState
run s [] = s
run s (c ∷ cs) = run (step s c) cs

abbrev pub says : Call → BinaryPrefix → ℕ → Option (Option (ℕ × ℕ))
says (announces p prefix asn timestamp) k q =
    if prefix == k && p == q then some (some (asn, timestamp)) else none
says (withdraws p prefix) k q = if prefix == k && p == q then some none else none

-- What the last call about a prefix and a peer said of the two.
unfoldable pub last_said : List Call → BinaryPrefix → ℕ → Option (ℕ × ℕ) → Option (ℕ × ℕ)
last_said [] k q before = before
last_said (c ∷ cs) k q before = last_said cs k q (get_or before (says c k q))

abbrev pub RoomFor : RoutingState → Call → Type 0
RoomFor s (announces p prefix asn timestamp) = Room s prefix
RoomFor s (withdraws p prefix) = Unit {0}

-- No record is full when an announce reaches it.
abbrev pub Fits : RoutingState → List Call → Type 0
Fits s [] = Unit {0}
Fits s (c ∷ cs) = RoomFor s c × Fits (step s c) cs

pub step-BothSound :
    (s : RoutingState) (c : Call) → BothSound s → RoomFor s c → BothSound (step s c)
unfolding step announce withdraw
step-BothSound s (announces p (v4 x) asn t) v h = record {
  sound_v4 = announce_impl-IsSound s.table_v4 x p asn t v.sound_v4 h;
  sound_v6 = v.sound_v6;
}
step-BothSound s (announces p (v6 x) asn t) v h = record {
  sound_v4 = v.sound_v4;
  sound_v6 = announce_impl-IsSound s.table_v6 x p asn t v.sound_v6 h;
}
step-BothSound s (withdraws p (v4 x)) v h = record {
  sound_v4 = withdraw_impl-IsSound s.table_v4 x p v.sound_v4;
  sound_v6 = v.sound_v6;
}
step-BothSound s (withdraws p (v6 x)) v h = record {
  sound_v4 = v.sound_v4;
  sound_v6 = withdraw_impl-IsSound s.table_v6 x p v.sound_v6;
}

pub run-BothSound :
    (s : RoutingState) (cs : List Call) → BothSound s → Fits s cs → BothSound (run s cs)
unfolding run
run-BothSound s [] v f = v
run-BothSound s (c ∷ cs) v f = run-BothSound (step s c) cs (step-BothSound s c v f.0) f.1

pub clear-BothSound : BothSound clear
clear-BothSound = record { sound_v4 = empty_table-IsSound; sound_v6 = empty_table-IsSound }

-- One call changes the entry of its prefix and peer, and no other, in either family.
pub observed-step :
    (s : RoutingState) (c : Call) (k : BinaryPrefix) (q : ℕ)
    → BothSound s
    → observed (step s c) k q ≡ get_or (observed s k q) (says c k q)
unfolding step announce withdraw observed
observed-step s (announces p (v4 x) asn t) (v4 k) q v =
    ground (arith, observed-announce s.table_v4 x p v.sound_v4 asn t k q)
observed-step s (announces p (v4 x) asn t) (v6 k) q v = refl
observed-step s (announces p (v6 x) asn t) (v4 k) q v = refl
observed-step s (announces p (v6 x) asn t) (v6 k) q v =
    ground (arith, observed-announce s.table_v6 x p v.sound_v6 asn t k q)
observed-step s (withdraws p (v4 x)) (v4 k) q v =
    ground (arith, observed-withdraw s.table_v4 x p v.sound_v4 k q)
observed-step s (withdraws p (v4 x)) (v6 k) q v = refl
observed-step s (withdraws p (v6 x)) (v4 k) q v = refl
observed-step s (withdraws p (v6 x)) (v6 k) q v =
    ground (arith, observed-withdraw s.table_v6 x p v.sound_v6 k q)

pub observed_after :
    (s : RoutingState) (cs : List Call) (k : BinaryPrefix) (q : ℕ)
    → BothSound s
    → Fits s cs
    → observed (run s cs) k q ≡ last_said cs k q (observed s k q)
unfolding run last_said
observed_after s [] k q v f = refl
observed_after s (c ∷ cs) k q v f =
    observed_after (step s c) cs k q (step-BothSound s c v f.0) f.1
    ∙ ap (last_said cs k q) (observed-step s c k q v)

pub observed-clear : (k : BinaryPrefix) (q : ℕ) → observed clear k q ≡ none
unfolding observed table_observed find
observed-clear (v4 x) q = seen-empty_record q
observed-clear (v6 x) q = seen-empty_record q

pub exported-eq_none_iff :
    (s : RoutingState) (k : BinaryPrefix)
    → BothSound s
    → (exported s k ≡ none) ↔ ((q : ℕ) → observed s k q ≡ none)
unfolding exported observed
exported-eq_none_iff s (v4 x) v = exported_none s.table_v4 x v.sound_v4
exported-eq_none_iff s (v6 x) v = exported_none s.table_v6 x v.sound_v6
