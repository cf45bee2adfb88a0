-- ===== src/Routing/Record/Votes.antt =====
-- How the plurality moves when votes are cast and withdrawn.
use asnprefix_map.Base.{ℕ, ◌+◌, ◌≤◌, ◌≡◌, sym, ◌∙◌, true, false, ◌||◌, arith, ◌==◌, nat_eq, bit}
use asnprefix_map.Routing.Record.{is_better_selection}
use asnprefix_map.Routing.Record.Winner.{IsWinner}

-- One origin gains a vote, and others may lose, but not the one selected.
module _ (f g : ℕ → ℕ) (a c asn : ℕ) (w : IsWinner f a c) (h : (b : ℕ) → g b ≤ f b + bit (asn == b))
    (k : g a ≡ f a + bit (asn == a)) (n : ℕ) (count : n ≡ g asn) where
  pub gain-IsWinner : 1 ≤ n → (c == 0 || is_better_selection asn n a c) ≡ true → IsWinner g asn n
  unfolding is_better_selection
  gain-IsWinner pos better = record {
    attained = sym count;
    most = λ b. ground (arith, h b, w.most b);
    least = λ b e. ground (arith, h b, w.most b, w.least b);
  }

  pub stay-IsWinner : is_better_selection asn n a c ≡ false → IsWinner g a c
  unfolding is_better_selection
  stay-IsWinner worse = record {
    attained = ground (arith, k, w.attained);
    most = λ b. ground (arith, h b, w.most b);
    least = λ b e. ground (arith, h b, w.most b, w.least b);
  }

-- Others lose votes.
pub lose-IsWinner :
    (f g : ℕ → ℕ) (a c : ℕ) → IsWinner f a c → ((b : ℕ) → g b ≤ f b) → g a ≡ f a → IsWinner g a c
lose-IsWinner f g a c w h k = record {
  attained = k ∙ w.attained;
  most = λ b. omega (arith, h b, w.most b);
  least = λ b e. ground (arith, h b, w.most b, w.least b);
}
