-- ===== src/Routing/Export.antt =====
-- src/routing_state.cpp: `export_tables`, as the contents of the two files that it writes.
pub mod Totality
use asnprefix_map.Base.{
  ℕ, Option, none, some, List, [], ◌∷◌, ◌++◌, Bool, true, false, Bytes, ltb, if◌then◌else◌, ◌==◌,
  nat_eq,
}
use asnprefix_map.Base.Map.{Map, find, assign, get_or}
use asnprefix_map.Base.Decimal.{to_string}
use asnprefix_map.Prefix.{v4, v6}
use asnprefix_map.Prefix.Inet.{Inet}
use asnprefix_map.Prefix.Cidr.{prefix_to_string}
use asnprefix_map.Routing.State.{RoutingState}

-- `operator<` of `std::string`, or equal.
unfoldable pub bytes_le : Bytes → Bytes → Bool
bytes_le [] ys = true
bytes_le (x ∷ xs) [] = false
bytes_le (x ∷ xs) (y ∷ ys) = if x == y then bytes_le xs ys else ltb x y

unfoldable pub insert_text : Bytes → List Bytes → List Bytes
insert_text text [] = text ∷ []
insert_text text (other ∷ others) =
    let rest = insert_text text others in
    if bytes_le text other then text ∷ other ∷ others else other ∷ rest

unfoldable pub sort_texts : List Bytes → List Bytes
sort_texts [] = []
sort_texts (text ∷ texts) = insert_text text (sort_texts texts)

-- The loop over one family: the text of the prefix file so far, and the prefixes of each ASN. It
-- gives nothing where `to_string` throws.
unfoldable pub append_exports :
    {K : Type 0}
    → (K → Option Bytes)
    → Map K ℕ
    → Bytes × Map ℕ (List Bytes)
    → Option (Bytes × Map ℕ (List Bytes))
append_exports print [] z = some z
append_exports print ((prefix, asn) ∷ aggregated) (stream, asn_map) = elim (print prefix) [
  | none ↦ none
  | some prefix_text ↦ append_exports print aggregated (
    stream ++ prefix_text ++ b'\t' ∷ to_string asn ++ b'\n' ∷ [],
    assign asn (get_or [] (find asn asn_map) ++ prefix_text ∷ []) asn_map,
  )
]

unfoldable pub tabbed : List Bytes → Bytes
tabbed [] = b'\n' ∷ []
tabbed (prefix ∷ prefixes) = b'\t' ∷ prefix ++ tabbed prefixes

-- The second file.
unfoldable pub asn_lines : Map ℕ (List Bytes) → Bytes
asn_lines [] = []
asn_lines ((asn, prefixes) ∷ asn_map) =
    to_string asn ++ tabbed (sort_texts prefixes) ++ asn_lines asn_map

unfoldable pub export_tables : Inet → RoutingState → Option (Bytes × Bytes)
export_tables i s =
    elim (append_exports (λ p. prefix_to_string i (v4 p)) s.table_v4.aggregated ([], [])) [
      | none ↦ none
      | some first ↦
          elim (append_exports (λ p. prefix_to_string i (v6 p)) s.table_v6.aggregated first) [
            | none ↦ none
            | some (stream, asn_map) ↦ some (stream, asn_lines asn_map)
          ]
    ]
