-- ===== src/Play/Branches.antt =====
-- Each test of `canPlayCard` decides its condition.
use durak_card_game.Prelude.{
  ℕ, String, ◌≡◌, refl, ◌↔◌, inl, inr, Bool, true, false, not, none, some, Option, List, [], ◌∷◌,
  eq_iff, arith, All, last?, any, filter, is_some, Option-cases, truthy, same_text, ◌&&◌,
}
use durak_card_game.Match.{Shuler, Pile}
use durak_card_game.Prelude.{last?-cons, last?-cons-ne-none}
use durak_card_game.Play.{is_shuler, get_defense_card, is_other_turn, is_table_full, has_rank}
use durak_card_game.Play.Rules.{
  NotDefender, IsShuler, OnTurn, OffTurn, HasRoom, IsAnswered, LastOpen, ShowsRank, Any,
}

pub is_other_turn-eq-false_iff :
    (turn : Option String) (me : String) → (is_other_turn turn me ≡ false) ↔ OnTurn turn me
unfolding is_other_turn
is_other_turn-eq-false_iff none me = ground arith
is_other_turn-eq-false_iff (some t) me = ground (arith, eq_iff t "", eq_iff t me)

pub is_other_turn-eq-true_iff :
    (turn : Option String) (me : String) → (is_other_turn turn me ≡ true) ↔ OffTurn turn me
unfolding is_other_turn
is_other_turn-eq-true_iff none me = ground arith
is_other_turn-eq-true_iff (some t) me = ground (arith, eq_iff t "", eq_iff t me)

pub defender_iff :
    (defender : Option String) (me : String)
    → ((truthy defender && same_text defender me) ≡ false) ↔ NotDefender defender me
defender_iff none me = ground arith
defender_iff (some d) me = ground (arith, eq_iff d "", eq_iff d me)

pub is_shuler_iff : (sh : Option Shuler) (me : String) → (is_shuler sh me ≡ true) ↔ IsShuler sh me
unfolding is_shuler
is_shuler_iff none me = ground arith
is_shuler_iff (some sh) me = ground arith

pub is_table_full-eq-false_iff :
    (capacity : Option ℕ) (count : ℕ)
    → (is_table_full capacity count ≡ false) ↔ HasRoom capacity count
unfolding is_table_full
is_table_full-eq-false_iff none count = ground arith
is_table_full-eq-false_iff (some c) count = ground arith

has_rank_iff : (rank : String) (p : Pile) → (has_rank rank p ≡ true) ↔ ShowsRank rank p
unfolding has_rank
has_rank_iff rank p = elim (Option-cases (get_defense_card p)) [
  | inl e ↦ ground (arith, eq_iff p.attack.rank rank)
  | inr (c, e) ↦ ground (arith, eq_iff p.attack.rank rank, eq_iff c.rank rank)
]

abbrev pub is_open : Pile → Bool
is_open p = not (is_some (get_defense_card p))

no_open : (piles : List Pile) → last? (filter is_open piles) ≡ none → All IsAnswered piles
no_open [] h = tt
no_open (p ∷ piles) h = elim (Option-cases (get_defense_card p)) [
  | inl e ↦ absurd (ground (arith, last?-cons-ne-none p (filter is_open piles)))
  | inr (c, e) ↦ (ground arith, no_open piles (ground arith))
]

none_open : (piles : List Pile) → All IsAnswered piles → last? (filter is_open piles) ≡ none
none_open [] h = refl
none_open (p ∷ piles) (a, h) = ground (arith, none_open piles h)

LastOpen-sound :
    (piles : List Pile) (t : Pile) → last? (filter is_open piles) ≡ some t → LastOpen piles t
LastOpen-sound [] t h = cc
LastOpen-sound (p ∷ piles) t h = elim (Option-cases (get_defense_card p)) [
  | inr (c, e) ↦ inr (LastOpen-sound piles t (ground arith))
  | inl e ↦ elim (Option-cases (last? (filter is_open piles))) [
    | inl last ↦ inl (ground (arith, last?-cons p (filter is_open piles)), e, no_open piles last)
    | inr (u, later) ↦
        inr (LastOpen-sound piles t (ground (arith, last?-cons p (filter is_open piles))))
  ]
]

LastOpen-complete :
    (piles : List Pile) (t : Pile) → LastOpen piles t → last? (filter is_open piles) ≡ some t
LastOpen-complete (p ∷ piles) t (inl (e, open_p, answered)) =
    ground (arith, last?-cons p (filter is_open piles), none_open piles answered)
LastOpen-complete (p ∷ piles) t (inr h) =
    ground (arith, last?-cons p (filter is_open piles), LastOpen-complete piles t h)
LastOpen-complete [] t h = absurd h

-- The code's last open pile is the one that the rule names.
pub LastOpen-iff :
    (piles : List Pile) (t : Pile) → (last? (filter is_open piles) ≡ some t) ↔ LastOpen piles t
LastOpen-iff piles t = (LastOpen-sound piles t, LastOpen-complete piles t)

pub any-has_rank_iff :
    (rank : String) (piles : List Pile)
    → (any (has_rank rank) piles ≡ true) ↔ Any (ShowsRank rank) piles
any-has_rank_iff rank [] = ground arith
any-has_rank_iff rank (p ∷ piles) = ground (arith, any-has_rank_iff rank piles, has_rank_iff rank p)
