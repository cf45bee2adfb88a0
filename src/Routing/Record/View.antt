-- ===== src/Routing/Record/View.antt =====
-- What a record says of each peer: its origin and timestamp, whatever the order of the vectors.
use asnprefix_map.Base.{
  ℕ, zero, suc, ◌-◌, ◌≤◌, ◌<◌, ◌≡◌, refl, ap, inl, inr, Bool, ◌&&◌, Option, none, some, List, [],
  ◌∷◌, ◌++◌, arith, ◌==◌, if◌then◌else◌, nat_eq, Bool-cases, Option-cases, length, get_elem?, set,
  tally, pair_up, pop_back, length-set, get_elem?-total,
}
use asnprefix_map.Routing.Record.{Observation, PrefixRecord, remove_packed, find_observation}
use asnprefix_map.Routing.Record.Counts.{of_peer, tally-remove_packed}

unfoldable pub peer_entry : ℕ → List (Observation × ℕ) → Option (ℕ × ℕ)
peer_entry p [] = none
peer_entry p ((o, t) ∷ zs) = if o.peer_id == p then some (o.origin_asn, t) else peer_entry p zs

-- The origin and the timestamp that the record holds for the peer.
unfoldable pub seen : PrefixRecord → ℕ → Option (ℕ × ℕ)
seen r p = peer_entry p (pair_up r.observations r.timestamps)

pub peer_entry-append :
    (p q asn t : ℕ) (os : List Observation) (ts : List ℕ)
    → length ts ≡ length os
    → find_observation p os ≡ none
    → peer_entry q (pair_up (os ++ (record { peer_id = p; origin_asn = asn }) ∷ []) (ts ++ t ∷ []))
      ≡ (if p == q then some (asn, t) else peer_entry q (pair_up os ts))
unfolding peer_entry pair_up find_observation
peer_entry-append p q asn t [] [] e h = refl
peer_entry-append p q asn t [] (u ∷ ts) e h = absurd (omega arith)
peer_entry-append p q asn t (o ∷ os) [] e h = absurd (omega arith)
peer_entry-append p q asn t (o ∷ os) (u ∷ ts) e h =
    ground (arith, peer_entry-append p q asn t os ts (omega arith))

pub peer_entry-set :
    (p q asn t : ℕ) (os : List Observation) (ts : List ℕ) (index : ℕ) (o : Observation)
    → length ts ≡ length os
    → find_observation p os ≡ some (index, o)
    → peer_entry q (pair_up (set os index (record o { origin_asn = asn })) (set ts index t))
      ≡ (if p == q then some (asn, t) else peer_entry q (pair_up os ts))
unfolding peer_entry pair_up find_observation
peer_entry-set p q asn t [] ts index o e h = ground arith
peer_entry-set p q asn t (x ∷ os) [] index o e h = absurd (omega arith)
peer_entry-set p q asn t (x ∷ os) (u ∷ ts) zero o e h = ground arith
peer_entry-set p q asn t (x ∷ os) (u ∷ ts) (suc index) o e h =
    ground (arith, peer_entry-set p q asn t os ts index o (omega arith))

pub set_self {ℓ} :
    {A : Type ℓ} (xs : List A) (i : ℕ) (x : A) → get_elem? xs i ≡ some x → set xs i x ≡ xs
set_self [] i x h = refl
set_self (y ∷ xs) zero x h = ground arith
set_self (y ∷ xs) (suc i) x h = ap (◌∷◌ y) (set_self xs i x h)

pair_up-set {ℓ κ} :
    {A : Type ℓ} {B : Type κ} (xs : List A) (ys : List B) (i : ℕ) (x : A) (y : B)
    → pair_up (set xs i x) (set ys i y) ≡ set (pair_up xs ys) i (x, y)
unfolding pair_up
pair_up-set [] ys i x y = refl
pair_up-set (a ∷ xs) [] zero x y = refl
pair_up-set (a ∷ xs) [] (suc i) x y = refl
pair_up-set (a ∷ xs) (b ∷ ys) zero x y = refl
pair_up-set (a ∷ xs) (b ∷ ys) (suc i) x y = ap (◌∷◌ (a, b)) (pair_up-set xs ys i x y)

module _ {ℓ κ} {A : Type ℓ} {B : Type κ} where
  pub length-pair_up :
      (xs : List A) (ys : List B) → length ys ≡ length xs → length (pair_up xs ys) ≡ length xs
  unfolding pair_up
  length-pair_up [] ys e = refl
  length-pair_up (a ∷ xs) [] e = absurd (omega arith)
  length-pair_up (a ∷ xs) (b ∷ ys) e = ap suc (length-pair_up xs ys (omega arith))

  pub get_elem?-pair_up :
      (xs : List A) (ys : List B) (i : ℕ) (x : A) (y : B)
      → get_elem? xs i ≡ some x
      → get_elem? ys i ≡ some y
      → get_elem? (pair_up xs ys) i ≡ some (x, y)
  unfolding pair_up
  get_elem?-pair_up [] ys i x y h k = ground arith
  get_elem?-pair_up (a ∷ xs) [] i x y h k = ground arith
  get_elem?-pair_up (a ∷ xs) (b ∷ ys) zero x y h k = ground arith
  get_elem?-pair_up (a ∷ xs) (b ∷ ys) (suc i) x y h k = get_elem?-pair_up xs ys i x y h k

  pair_up-pop_back :
      (xs : List A) (ys : List B)
      → length ys ≡ length xs
      → pair_up (pop_back xs) (pop_back ys) ≡ pop_back (pair_up xs ys)
  unfolding pair_up
  pair_up-pop_back [] ys e = refl
  pair_up-pop_back (a ∷ xs) [] e = absurd (omega arith)
  pair_up-pop_back (a ∷ []) (b ∷ []) e = refl
  pair_up-pop_back (a ∷ []) (b ∷ b' ∷ ys) e = absurd (omega arith)
  pair_up-pop_back (a ∷ a' ∷ xs) (b ∷ []) e = absurd (omega arith)
  pair_up-pop_back (a ∷ a' ∷ xs) (b ∷ b' ∷ ys) e =
      ap (◌∷◌ (a, b)) (pair_up-pop_back (a' ∷ xs) (b' ∷ ys) (omega arith))

  -- The two vectors are packed alike.
  pub pair_up-remove_packed :
      (xs : List A) (ys : List B) (i : ℕ)
      → length ys ≡ length xs
      → i < length xs
      → pair_up (remove_packed xs i) (remove_packed ys i) ≡ remove_packed (pair_up xs ys) i
  unfolding remove_packed
  pair_up-remove_packed xs ys i e h =
      let last = length xs - 1 in
      let (x, hx) = get_elem?-total xs last (omega arith) in
      let (y, hy) = get_elem?-total ys last (omega arith) in
      rw (e, length-pair_up xs ys e, hx, hy, get_elem?-pair_up xs ys last x y hx hy)
        (elim (Bool-cases (i == last)) [
          | inl b ↦ rw b (pair_up-pop_back xs ys e)
          | inr b ↦
              rw (b, ← pair_up-set xs ys i x y)
                (pair_up-pop_back (set xs i x) (set ys i y)
                  (omega (arith, e, length-set xs i x, length-set ys i y)))
        ])

  pub tally-pair_up :
      (f : A → Bool) (xs : List A) (ys : List B)
      → length ys ≡ length xs
      → tally (λ z. f z.0) (pair_up xs ys) ≡ tally f xs
  unfolding pair_up
  tally-pair_up f [] ys e = refl
  tally-pair_up f (a ∷ xs) [] e = absurd (omega arith)
  tally-pair_up f (a ∷ xs) (b ∷ ys) e = omega (arith, tally-pair_up f xs ys (omega arith))

-- An entry of the peer with that origin and timestamp.
abbrev pub is_entry : ℕ → ℕ × ℕ → Observation × ℕ → Bool
is_entry p v z = z.0.peer_id == p && (z.0.origin_asn == v.0 && z.1 == v.1)

pub peer_entry-none :
    (p : ℕ) (zs : List (Observation × ℕ))
    → tally (λ z. of_peer p z.0) zs ≡ 0
    → peer_entry p zs ≡ none
unfolding peer_entry
peer_entry-none p [] h = refl
peer_entry-none p ((o, t) ∷ zs) h = ground (arith, peer_entry-none p zs)

pub peer_entry_absent :
    (p : ℕ) (zs : List (Observation × ℕ))
    → peer_entry p zs ≡ none
    → tally (λ z. of_peer p z.0) zs ≡ 0
unfolding peer_entry
peer_entry_absent p [] h = refl
peer_entry_absent p ((o, t) ∷ zs) h = ground (arith, peer_entry_absent p zs)

pub peer_entry_present :
    (p : ℕ) (v : ℕ × ℕ) (zs : List (Observation × ℕ))
    → peer_entry p zs ≡ some v
    → 1 ≤ tally (is_entry p v) zs
unfolding peer_entry
peer_entry_present p v [] h = ground arith
peer_entry_present p (a, u) ((o, t) ∷ zs) h = ground (arith, peer_entry_present p (a, u) zs)

tally-is_entry-le :
    (p : ℕ) (v : ℕ × ℕ) (zs : List (Observation × ℕ))
    → tally (is_entry p v) zs ≤ tally (λ z. of_peer p z.0) zs
tally-is_entry-le p v [] = omega arith
tally-is_entry-le p v ((o, t) ∷ zs) = ground (arith, tally-is_entry-le p v zs)

-- With one entry for the peer, whatever its place.
pub peer_entry_unique :
    (p : ℕ) (v : ℕ × ℕ) (zs : List (Observation × ℕ))
    → tally (λ z. of_peer p z.0) zs ≤ 1
    → 1 ≤ tally (is_entry p v) zs
    → peer_entry p zs ≡ some v
unfolding peer_entry
peer_entry_unique p v [] h k = absurd (omega arith)
peer_entry_unique p (a, u) ((o, t) ∷ zs) h k =
    ground (arith, peer_entry_unique p (a, u) zs, tally-is_entry-le p (a, u) zs)

pub peer_entry-remove_packed :
    (p q : ℕ) (zs : List (Observation × ℕ)) (index : ℕ) (o : Observation) (t : ℕ)
    → get_elem? zs index ≡ some (o, t)
    → o.peer_id ≡ p
    → ((r : ℕ) → tally (λ z. of_peer r z.0) zs ≤ 1)
    → peer_entry q (remove_packed zs index) ≡ (if p == q then none else peer_entry q zs)
peer_entry-remove_packed p q zs index o t h e one =
    let counted = tally-remove_packed zs index (o, t) h (λ z. of_peer q z.0) in
    elim (Bool-cases (p == q)) [
      | inl same ↦ rw same (peer_entry-none q _ (ground (arith, counted, one q)))
      | inr other ↦ rw other (elim (Option-cases (peer_entry q zs)) [
        | inl gone ↦
            rw gone (peer_entry-none q _ (omega (arith, counted, peer_entry_absent q zs gone)))
        | inr (v, there) ↦ rw there (
            peer_entry_unique q v _ (omega (arith, counted, one q)) (
              ground (
                arith,
                peer_entry_present q v zs there,
                tally-remove_packed zs index (o, t) h (is_entry q v),
              )))
      ])
    ]
