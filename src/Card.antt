-- ===== src/Card.antt =====
-- Cards: src/entities/card/types.ts, with `rankValue` and `cardBeats` of
-- src/entities/game/lib/canPlayCard.ts. Suits and ranks are texts, as in `CardLike`.
pub mod Order
use durak_card_game.Prelude.{
  ℕ, ◌+◌, String, ◌≡◌, Bool, true, false, not, ◌&&◌, List, [], ◌∷◌, ◌==◌, if◌then◌else◌,
}
use durak_card_game.Prelude.Int.{ℤ, pos, negsuc, ltb_ℤ}

pub record Card : Type 0 where
  pub id : String
  pub suit : String
  pub rank : String

abbrev pub card_rank_order : List String
card_rank_order = "2" ∷ "3" ∷ "4" ∷ "5" ∷ "6" ∷ "7" ∷ "8" ∷ "9" ∷ "10" ∷ "J" ∷ "Q" ∷ "K" ∷ "A" ∷ []

-- `list.indexOf(s)`, counted from `i`: -1 for a text that is not in the list
abbrev pub index_from : ℕ → List String → String → ℤ
index_from i [] s = negsuc 0
index_from i (x ∷ xs) s = let rest = index_from (i + 1) xs s in if x == s then pos i else rest

unfoldable pub rank_value : String → ℤ
rank_value rank = index_from 0 card_rank_order rank

-- `cardBeats`: `defend` answers `attack`
unfoldable pub card_beats : Card → Card → String → Bool
card_beats attack defend trump_suit =
    if defend.suit == trump_suit && not (attack.suit == trump_suit)
    then true
    else if not (attack.suit == trump_suit) && defend.suit == trump_suit
    then false
    else if not (defend.suit == attack.suit)
    then false
    else ltb_ℤ (rank_value attack.rank) (rank_value defend.rank)
