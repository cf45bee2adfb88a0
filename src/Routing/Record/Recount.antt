-- ===== src/Routing/Record/Recount.antt =====
-- A recomputation from right counters gives the selection that the record has.
use asnprefix_map.Base.{ℕ, ◌≡◌, arith, nat_eq}
use asnprefix_map.Routing.Record.{PrefixRecord, recompute_selected_from_counts}
use asnprefix_map.Routing.Record.Winner.{IsWinner, select_from-IsWinner}
use asnprefix_map.Routing.Record.Counts.{origins}
use asnprefix_map.Routing.Record.Consistency.{IsConsistent}

-- At most one origin is the plurality.
pub IsWinner-unique :
    (f : ℕ → ℕ) (a b c d : ℕ) → IsWinner f a c → IsWinner f b d → (a ≡ b) × (c ≡ d)
IsWinner-unique f a b c d v w =
    let eq : c ≡ d = omega (arith, v.attained, w.attained, v.most b, w.most a) in
    (omega (arith, v.attained, w.attained, v.most b, w.most a, v.least b, w.least a), eq)

pub recompute-eq_self : (r : PrefixRecord) → IsConsistent r → recompute_selected_from_counts r ≡ r
unfolding recompute_selected_from_counts
recompute-eq_self r v =
    let (asn, count) =
      IsWinner-unique (origins r) _ _ _ _
        (select_from-IsWinner r.asn_counts (origins r) v.tallied.counts.keys
          v.tallied.counts.values)
        v.winner in
    λ i. record r { selected_asn = asn i; selected_count = count i }
