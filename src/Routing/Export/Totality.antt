-- ===== src/Routing/Export/Totality.antt =====
-- src/routing_state.cpp: `export_tables` throws only where a prefix cannot be printed.
use asnprefix_map.Base.{ℕ, ◌≡◌, refl, Option, some, List, [], ◌∷◌, Bytes, nat_eq}
use asnprefix_map.Base.Map.{Map}
use asnprefix_map.Base.Sorting.{All, All-find}
use asnprefix_map.Prefix.{BinaryPrefix, v4, v6, v4_eq, v6_eq}
use asnprefix_map.Prefix.Inet.{Inet}
use asnprefix_map.Prefix.Cidr.{prefix_to_string}
use asnprefix_map.Routing.State.{RoutingState}
use asnprefix_map.Routing.State.Families.{BothSound, exported}
use asnprefix_map.Routing.Export.{append_exports, asn_lines, export_tables}

append_exports-some :
    {K : Type 0} (print : K → Option Bytes) (m : Map K ℕ) (z : Bytes × Map ℕ (List Bytes))
    → All (λ entry. (text : Bytes) × (print entry.0 ≡ some text)) m
    → (last : Bytes × Map ℕ (List Bytes)) × (append_exports print m z ≡ some last)
unfolding append_exports
append_exports-some print [] z h = (z, refl)
append_exports-some print ((prefix, asn) ∷ m) z ((text, printed), hs) =
    rw (append_exports, printed) (append_exports-some print m _ hs)

-- Where the exported prefixes of a sound state have texts, the tables are written.
pub export_tables-some :
    (i : Inet) (s : RoutingState)
    → BothSound s
    → ((k : BinaryPrefix) (a : ℕ)
        → exported s k ≡ some a
        → (text : Bytes) × (prefix_to_string i k ≡ some text))
    → (tables : Bytes × Bytes) × (export_tables i s ≡ some tables)
unfolding export_tables exported
export_tables-some i s v h =
    let (first, one) =
      append_exports-some (λ p. prefix_to_string i (v4 p)) s.table_v4.aggregated ([], [])
        (All-find (λ p. (text : Bytes) × (prefix_to_string i (v4 p) ≡ some text))
          s.table_v4.aggregated v.sound_v4.aggregated_keys (λ k a there. h (v4 k) a there)) in
    let (second, two) =
      append_exports-some (λ p. prefix_to_string i (v6 p)) s.table_v6.aggregated first
        (All-find (λ p. (text : Bytes) × (prefix_to_string i (v6 p) ≡ some text))
          s.table_v6.aggregated v.sound_v6.aggregated_keys (λ k a there. h (v6 k) a there)) in
    ((second.0, asn_lines second.1), rw (export_tables, one, two))
