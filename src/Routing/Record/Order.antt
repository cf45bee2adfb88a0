-- ===== src/Routing/Record/Order.antt =====
-- Two records that say the same of each peer hold the same observations, in whatever order.
use asnprefix_map.Base.{
  ℕ, zero, suc, true, subst, Option-cases, ◌+◌, ◌≤◌, ◌≡◌, refl, sym, ◌∙◌, inl, inr, Bool, none,
  some, List, [], ◌∷◌, arith, ◌==◌, ==-iff, if◌then◌else◌, nat_eq, Bool-cases, bit, tally, length,
  pair_up,
}
use asnprefix_map.Routing.Record.{Observation, PrefixRecord}
use asnprefix_map.Routing.Record.Counts.{of_peer, of_asn, origins}
use asnprefix_map.Routing.Record.Winner.{IsWinner}
use asnprefix_map.Routing.Record.Consistency.{IsConsistent}
use asnprefix_map.Routing.Record.View.{
  peer_entry, seen, peer_entry-none, tally-pair_up, length-pair_up,
}

-- The list without the first entry of the peer.
drop_peer : ℕ → List (Observation × ℕ) → List (Observation × ℕ)
drop_peer p [] = []
drop_peer p ((o, t) ∷ zs) = if o.peer_id == p then zs else (o, t) ∷ drop_peer p zs

abbrev Single : List (Observation × ℕ) → Type 0
Single zs = (p : ℕ) → tally (λ z. of_peer p z.0) zs ≤ 1

tally-drop_peer :
    (g : Observation × ℕ → Bool) (p a t : ℕ) (zs : List (Observation × ℕ))
    → peer_entry p zs ≡ some (a, t)
    → tally g zs ≡ bit (g (record { peer_id = p; origin_asn = a }, t)) + tally g (drop_peer p zs)
unfolding peer_entry drop_peer
tally-drop_peer g p a t [] h = absurd (ground (arith, h))
tally-drop_peer g p a t ((o, u) ∷ zs) h = elim (Bool-cases (o.peer_id == p)) [
  | inl mine ↦
      let peer : o.peer_id ≡ p = (==-iff o.peer_id p).0 mine in
      let asn : o.origin_asn ≡ a = ground (arith, h, mine) in
      let time : u ≡ t = ground (arith, h, mine) in
      let entry : bit (g (o, u)) ≡ bit (g (record { peer_id = p; origin_asn = a }, t)) =
        λ i. bit (g (record { peer_id = peer i; origin_asn = asn i }, time i)) in
      rw mine (omega (arith, entry))
  | inr other ↦
      let rest = tally-drop_peer g p a t zs (rw (peer_entry, other) at h) in
      rw other (omega (arith, rest))
]

peer_entry-drop_peer :
    (p q : ℕ) (zs : List (Observation × ℕ))
    → Single zs
    → peer_entry q (drop_peer p zs) ≡ (if p == q then none else peer_entry q zs)
unfolding peer_entry drop_peer
peer_entry-drop_peer p q [] one = ground arith
peer_entry-drop_peer p q ((o, u) ∷ zs) one =
    let later = peer_entry-drop_peer p q zs (λ r. ground (arith, one r)) in
    let alone = peer_entry-none q zs in
    ground (arith, later, alone, one q, ==-iff o.peer_id p, ==-iff p q, ==-iff o.peer_id q)

-- The lists have the same entries, so they hold as many of each kind.
same_tally :
    (g : Observation × ℕ → Bool) (zs ws : List (Observation × ℕ))
    → Single zs
    → Single ws
    → ((p : ℕ) → peer_entry p zs ≡ peer_entry p ws)
    → tally g zs ≡ tally g ws
unfolding peer_entry
same_tally g [] [] one two same = refl
same_tally g [] ((o, t) ∷ ws) one two same =
    absurd (ground (arith, same o.peer_id, ==-iff o.peer_id o.peer_id))
same_tally g ((o, t) ∷ zs) ws one two same =
    let here : peer_entry o.peer_id ws ≡ some (o.origin_asn, t) =
      ground (arith, same o.peer_id, ==-iff o.peer_id o.peer_id) in
    let less = λ (f : Observation × ℕ → Bool). tally-drop_peer f o.peer_id o.origin_asn t ws here in
    let rest =
      same_tally g zs (drop_peer o.peer_id ws) (λ p. ground (arith, one p))
        (λ p. omega (arith, two p, less (λ z. of_peer p z.0)))
        (λ p. ground (
          arith,
          same p,
          peer_entry-drop_peer o.peer_id p ws two,
          peer_entry-none p zs,
          one p,
          ==-iff o.peer_id p,
        )) in
    omega (arith, rest, less g)

pairs_of_one : (r : PrefixRecord) → IsConsistent r → Single (pair_up r.observations r.timestamps)
pairs_of_one r c p =
    rw (tally-pair_up (of_peer p) r.observations r.timestamps c.tallied.paired) (c.tallied.single p)

-- Records that say the same of each peer have as many observations of each origin.
pub origins_agree :
    (r u : PrefixRecord)
    → IsConsistent r
    → IsConsistent u
    → ((p : ℕ) → seen r p ≡ seen u p)
    → (asn : ℕ) → origins r asn ≡ origins u asn
unfolding seen
origins_agree r u c d same asn =
    sym (tally-pair_up (of_asn asn) r.observations r.timestamps c.tallied.paired)
    ∙ same_tally (λ z. of_asn asn z.0) _ _ (pairs_of_one r c) (pairs_of_one u d) same
    ∙ tally-pair_up (of_asn asn) u.observations u.timestamps d.tallied.paired

pub IsWinner-cong :
    (f g : ℕ → ℕ) (a c : ℕ) → ((b : ℕ) → f b ≡ g b) → IsWinner f a c → IsWinner g a c
IsWinner-cong f g a c h w = record {
  attained = omega (arith, h a, w.attained);
  most = λ b. omega (arith, h b, w.most b);
  least = λ b e. w.least b (h b ∙ e);
}

tally-true : (zs : List (Observation × ℕ)) → tally (λ z. true) zs ≡ length zs
tally-true [] = refl
tally-true (z ∷ zs) = omega (arith, tally-true zs)

-- So many peers have so many entries at most.
length-le_bound :
    (n : ℕ) (zs : List (Observation × ℕ))
    → Single zs
    → ((p : ℕ) → n ≤ p → peer_entry p zs ≡ none)
    → length zs ≤ n
unfolding peer_entry
length-le_bound n [] one below = omega arith
length-le_bound zero ((o, t) ∷ zs) one below =
    absurd (ground (arith, below o.peer_id, ==-iff o.peer_id o.peer_id))
length-le_bound (suc n) ((o, t) ∷ zs) one below = elim (Option-cases (peer_entry n ((o, t) ∷ zs))) [
  | inl nobody ↦
      let rest = length-le_bound n ((o, t) ∷ zs) one (λ p h. elim (Bool-cases (n == p)) [
        | inl same ↦ subst (λ q. peer_entry q ((o, t) ∷ zs) ≡ none) ((==-iff n p).0 same) nobody
        | inr other ↦ below p (ground arith)
      ]) in
      omega (arith, rest)
  | inr ((a, u), there) ↦
      let all = (o, t) ∷ zs in
      let less = λ (f : Observation × ℕ → Bool). tally-drop_peer f n a u all there in
      let rest =
        length-le_bound n (drop_peer n all) (λ p. omega (arith, one p, less (λ z. of_peer p z.0)))
          (λ p h. peer_entry-drop_peer n p all one ∙ (elim (Bool-cases (n == p)) [
            | inl same ↦ rw same
            | inr other ↦ rw other (below p (ground arith))
          ])) in
      omega (arith, rest, less (λ z. true), tally-true all, tally-true (drop_peer n all))
]

-- A record of peers below a bound has fewer observations than the bound, or as many.
pub size-le_bound :
    (r : PrefixRecord) (n : ℕ)
    → IsConsistent r
    → ((p : ℕ) → n ≤ p → seen r p ≡ none)
    → length r.observations ≤ n
unfolding seen
size-le_bound r n c below =
    let zs = pair_up r.observations r.timestamps in
    let size = length-le_bound n zs (pairs_of_one r c) below in
    let same : length zs ≡ length r.observations =
      length-pair_up r.observations r.timestamps c.tallied.paired in
    omega (arith, size, same)
