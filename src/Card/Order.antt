-- ===== src/Card/Order.antt =====
-- The order that `card_beats` puts on the cards.
use durak_card_game.Prelude.{
  ℕ, ◌+◌, ◌-◌, ◌<◌, ◌≤◌, String, ◌≡◌, refl, sym, ◌≢◌, ◌↔◌, ◌⊎◌, inl, inr, true, false, eq_iff,
  arith, includes, List, [], ◌∷◌,
}
use durak_card_game.Prelude.Int.{pos, negsuc, pos_part, ltb_ℤ, ltb_ℤ-total}
use durak_card_game.Card.{Card, card_rank_order, index_from, rank_value, card_beats}

-- The rule of the game: a trump beats any other suit, and a higher rank the same suit.
abbrev pub Beats : Card → Card → String → Type 0
Beats attack defend trump_suit =
    ((defend.suit ≡ trump_suit) × (attack.suit ≢ trump_suit))
    ⊎ ((defend.suit ≡ attack.suit)
        × (ltb_ℤ (rank_value attack.rank) (rank_value defend.rank) ≡ true))

-- The test decides the rule of the game.
pub card_beats-Beats_iff :
    (attack defend : Card) (trump_suit : String)
    → (card_beats attack defend trump_suit ≡ true) ↔ Beats attack defend trump_suit
unfolding card_beats
card_beats-Beats_iff a d t = ground (arith, eq_iff d.suit t, eq_iff a.suit t, eq_iff d.suit a.suit)

-- No two cards beat each other.
pub card_beats_asymm :
    (a b : Card) (trump_suit : String)
    → card_beats a b trump_suit ≡ true
    → card_beats b a trump_suit ≡ false
unfolding card_beats
card_beats_asymm a b t h =
    ground (arith, eq_iff b.suit t, eq_iff a.suit t, eq_iff b.suit a.suit, eq_iff a.suit b.suit)

-- If `b` beats `a` and `c` beats `b`, then `c` beats `a`.
pub card_beats_trans :
    (a b c : Card) (trump_suit : String)
    → card_beats a b trump_suit ≡ true
    → card_beats b c trump_suit ≡ true
    → card_beats a c trump_suit ≡ true
unfolding card_beats
card_beats_trans a b c t h k = ground (
  arith,
  eq_iff a.suit t,
  eq_iff b.suit t,
  eq_iff c.suit t,
  eq_iff b.suit a.suit,
  eq_iff c.suit b.suit,
  eq_iff c.suit a.suit,
)

index_from-ge :
    (i : ℕ) (xs : List String) (s : String)
    → (index_from i xs s ≡ negsuc 0) ⊎ (i ≤ pos_part (index_from i xs s))
index_from-ge i [] s = inl refl
index_from-ge i (x ∷ xs) s = ground (arith, index_from-ge (i + 1) xs s)

index_from-pos :
    (i : ℕ) (xs : List String) (s : String) → includes xs s ≡ true → index_from i xs s ≢ negsuc 0
index_from-pos i [] s h = cc
index_from-pos i (x ∷ xs) s h = ground (arith, index_from-pos (i + 1) xs s)

-- A text in the list is the only one with its index.
index_from-injective :
    (i : ℕ) (xs : List String) (s t : String)
    → includes xs s ≡ true
    → index_from i xs s ≡ index_from i xs t
    → s ≡ t
index_from-injective i [] s t h e = cc
index_from-injective i (x ∷ xs) s t h e = ground (
  arith,
  eq_iff x s,
  eq_iff x t,
  index_from-injective (i + 1) xs s t,
  index_from-ge (i + 1) xs s,
  index_from-ge (i + 1) xs t,
)

-- Of two cards of one suit with different ranks of the deck, exactly one beats the other.
pub card_beats_total :
    (a b : Card) (trump_suit : String)
    → includes card_rank_order a.rank ≡ true
    → a.suit ≡ b.suit
    → a.rank ≢ b.rank
    → (card_beats a b trump_suit ≡ true) ⊎ (card_beats b a trump_suit ≡ true)
unfolding card_beats rank_value
card_beats_total a b t known same other =
    let inj = index_from-injective 0 card_rank_order a.rank b.rank known in
    elim (ltb_ℤ-total (rank_value a.rank) (rank_value b.rank)) [
      | inl up ↦ inl ((card_beats-Beats_iff a b t).1 (inr (sym same, up)))
      | inr (inl down) ↦ inr ((card_beats-Beats_iff b a t).1 (inr (same, down)))
      | inr (inr e) ↦ absurd (other (inj e))
    ]

-- The ranks by name, each with its strength.
abbrev pub strengths : List (String × ℕ)
strengths =
    ("2", 2)
    ∷ ("3", 3)
    ∷ ("4", 4)
    ∷ ("5", 5)
    ∷ ("6", 6)
    ∷ ("7", 7)
    ∷ ("8", 8)
    ∷ ("9", 9)
    ∷ ("10", 10)
    ∷ ("J", 11)
    ∷ ("Q", 12)
    ∷ ("K", 13)
    ∷ ("A", 14)
    ∷ []

-- The rank is one of the deck, with this strength.
abbrev pub HasStrength : List (String × ℕ) → String → ℕ → Type 0
HasStrength [] rank n = ⊥
HasStrength ((name, m) ∷ rest) rank n = ((rank ≡ name) × (n ≡ m)) ⊎ HasStrength rest rank n

rank_value-strength :
    (rank : String) (n : ℕ)
    → HasStrength strengths rank n
    → (rank_value rank ≡ pos (n - 2)) × (2 ≤ n)
unfolding rank_value
rank_value-strength rank n (inl (e, en)) = rw (e, en) (refl, omega arith)
rank_value-strength rank n (inr (inl (e, en))) = rw (e, en) (refl, omega arith)
rank_value-strength rank n (inr (inr (inl (e, en)))) = rw (e, en) (refl, omega arith)
rank_value-strength rank n (inr (inr (inr (inl (e, en))))) = rw (e, en) (refl, omega arith)
rank_value-strength rank n (inr (inr (inr (inr (inl (e, en)))))) = rw (e, en) (refl, omega arith)
rank_value-strength rank n (inr (inr (inr (inr (inr (inl (e, en))))))) =
    rw (e, en) (refl, omega arith)
rank_value-strength rank n (inr (inr (inr (inr (inr (inr (inl (e, en)))))))) =
    rw (e, en) (refl, omega arith)
rank_value-strength rank n (inr (inr (inr (inr (inr (inr (inr (inl (e, en))))))))) =
    rw (e, en) (refl, omega arith)
rank_value-strength rank n (inr (inr (inr (inr (inr (inr (inr (inr (inl (e, en)))))))))) =
    rw (e, en) (refl, omega arith)
rank_value-strength rank n (inr (inr (inr (inr (inr (inr (inr (inr (inr (inl (e, en))))))))))) =
    rw (e, en) (refl, omega arith)
rank_value-strength rank n
      (inr (inr (inr (inr (inr (inr (inr (inr (inr (inr (inl (e, en)))))))))))) =
    rw (e, en) (refl, omega arith)
rank_value-strength rank n
      (inr (inr (inr (inr (inr (inr (inr (inr (inr (inr (inr (inl (e, en))))))))))))) =
    rw (e, en) (refl, omega arith)
rank_value-strength rank n
      (inr (inr (inr (inr (inr (inr (inr (inr (inr (inr (inr (inr (inl (e, en)))))))))))))) =
    rw (e, en) (refl, omega arith)
rank_value-strength rank n
      (inr (inr (inr (inr (inr (inr (inr (inr (inr (inr (inr (inr (inr (none_left)))))))))))))) =
    elim none_left [ ]

-- Of two cards with ranks of the deck, where 2 is the lowest and jack, queen, king and ace follow the
-- ten, the second beats the first exactly if it is a trump and the first is not, or if it has the
-- same suit and a higher rank.
pub card_beats-by_strength :
    (attack defend : Card) (trump_suit : String) (n m : ℕ)
    → HasStrength strengths attack.rank n
    → HasStrength strengths defend.rank m
    → (card_beats attack defend trump_suit ≡ true) ↔ (
        ((defend.suit ≡ trump_suit) × (attack.suit ≢ trump_suit))
        ⊎ ((defend.suit ≡ attack.suit) × (n < m)))
card_beats-by_strength a d t n m h k =
    let same : ltb_ℤ (rank_value a.rank) (rank_value d.rank) ≡ ltb_ℤ (pos (n - 2)) (pos (m - 2)) =
      cc ((rank_value-strength a.rank n h).0, (rank_value-strength d.rank m k).0) in
    ground (
      arith,
      card_beats-Beats_iff a d t,
      same,
      (rank_value-strength a.rank n h).1,
      (rank_value-strength d.rank m k).1,
    )
