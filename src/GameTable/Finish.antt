-- ===== src/GameTable/Finish.antt =====
-- The result of the match on the table's page, which it takes from the state of the match or works
-- out from the message that ended it.
use mathlib.Core.List.{Perm}
use mathlib.Core.List.Perm as Reorder
use durak_card_game.Prelude.{
  String, ◌≡◌, refl, Bool, false, ◌==◌, Option, none, some, List, [], ◌∷◌, map, All, arith, find,
  get_or, get_elem?, or_else, truthy, Bool-cases, inl, inr, if◌then◌else◌,
}
use durak_card_game.Prelude.Int.{ℤ, pos, ltb_ℤ}
use durak_card_game.Match.{Finish, Seat, Player}
use durak_card_game.Store.{GameState, MatchResult}
use durak_card_game.GameTable.{players_of, name_of_player, find_by_id}

abbrev pub NetResults : Type 0
NetResults = List (String × ℤ)

-- `payouts[id] = amount`
abbrev pub put : String → ℤ → NetResults → NetResults
put id amount [] = (id, amount) ∷ []
put id amount (e ∷ es) =
    let rest = put id amount es in if e.0 == id then (id, amount) ∷ es else e ∷ rest

abbrev pub payouts_from : NetResults → NetResults → NetResults
payouts_from acc [] = acc
payouts_from acc (e ∷ es) = payouts_from (put e.0 e.1 acc) es

-- one step of `.sort((a, b) => b.amount - a.amount)`, which is stable
abbrev pub insert_desc : String × ℤ → NetResults → NetResults
insert_desc e [] = e ∷ []
insert_desc e (f ∷ fs) =
    let rest = insert_desc e fs in if ltb_ℤ e.1 f.1 then f ∷ rest else e ∷ f ∷ fs

abbrev pub sort_desc : NetResults → NetResults
sort_desc [] = []
sort_desc (e ∷ es) = insert_desc e (sort_desc es)

unfoldable pub finish_of_result : MatchResult → Finish
finish_of_result r = record {
  bank = get_or r.pot (pos 0);
  commission = get_or r.commission (pos 0);
  payouts = payouts_from [] r.net_results;
  places = map (λ e. e.0) (sort_desc r.net_results);
}

abbrev pub finish_in_state : GameState → Option Finish
finish_in_state g = elim g.match_state [ none ↦ none | some ms ↦ ms.finish ]

unfoldable pub finish_of : GameState → Option Finish
unfolding finish_of_result
finish_of g =
    or_else (finish_in_state g)
      (elim g.match_result [ none ↦ none | some r ↦ some (finish_of_result r) ])

unfoldable pub main_winner_id : GameState → Option String
main_winner_id g = elim (finish_of g) [ none ↦ none | some f ↦ get_elem? f.places 0 ]

abbrev pub seats_of_state : GameState → List Seat
seats_of_state g = elim g.match_state [ none ↦ [] | some ms ↦ get_or ms.seats [] ]

abbrev pub name_in_seats : String → List Seat → Option String
name_in_seats id seats = elim (find (λ s. s.id == id) seats) [ none ↦ none | some s ↦ some s.name ]

abbrev pub name_in_players : String → List Player → Option String
name_in_players id players = elim (find_by_id (some id) players) [
  | none ↦ none
  | some p ↦ name_of_player p
]

unfoldable pub winner_name : GameState → Option String
winner_name g = elim (main_winner_id g) [
  | none ↦ none
  | some id ↦
      if id == ""
      then none
      else if truthy (name_in_seats id (seats_of_state g))
      then name_in_seats id (seats_of_state g)
      else name_in_players id (players_of g)
]

abbrev pub payout_in : String → NetResults → ℤ
payout_in id es = elim (find (λ e. e.0 == id) es) [ none ↦ pos 0 | some e ↦ e.1 ]

unfoldable pub my_payout : GameState → Option String → ℤ
my_payout g user = elim (finish_of g) [
  | none ↦ pos 0
  | some f ↦ elim user [
    | none ↦ pos 0
    | some me ↦ if me == "" then pos 0 else payout_in me f.payouts
  ]
]

abbrev pub is_positive : ℤ → Bool
is_positive n = ltb_ℤ (pos 0) n

unfoldable pub is_winner : GameState → Option String → Bool
unfolding my_payout
is_winner g user = elim (finish_of g) [ none ↦ false | some f ↦ is_positive (my_payout g user) ]

-- No later entry has more.
abbrev pub IsDescending : NetResults → Type 0
IsDescending [] = Unit
IsDescending (e ∷ es) = All (λ f. ltb_ℤ e.1 f.1 ≡ false) es × IsDescending es

insert_desc-perm : (e : String × ℤ) (fs : NetResults) → Perm (insert_desc e fs) (e ∷ fs)
insert_desc-perm e [] = Reorder.refl (e ∷ [])
insert_desc-perm e (f ∷ fs) = elim (Bool-cases (ltb_ℤ e.1 f.1)) [
  | inl lt ↦ rw lt (Reorder.trans (Reorder.cons f (insert_desc-perm e fs)) (Reorder.swap e f fs))
  | inr ge ↦ rw ge (Reorder.refl (e ∷ f ∷ fs))
]

sort_desc-perm : (es : NetResults) → Perm (sort_desc es) es
sort_desc-perm [] = Reorder.refl []
sort_desc-perm (e ∷ es) =
    Reorder.trans (insert_desc-perm e (sort_desc es)) (Reorder.cons e (sort_desc-perm es))

All-insert_desc :
    (top : ℤ) (e : String × ℤ) (fs : NetResults)
    → ltb_ℤ top e.1 ≡ false
    → All (λ f. ltb_ℤ top f.1 ≡ false) fs
    → All (λ f. ltb_ℤ top f.1 ≡ false) (insert_desc e fs)
All-insert_desc top e [] h k = (h, tt)
All-insert_desc top e (f ∷ fs) h (k, ks) = elim (Bool-cases (ltb_ℤ e.1 f.1)) [
  | inl lt ↦ rw lt (k, All-insert_desc top e fs h ks)
  | inr ge ↦ rw ge (h, (k, ks))
]

not_less_trans : (a b c : ℤ) → ltb_ℤ a b ≡ false → ltb_ℤ b c ≡ false → ltb_ℤ a c ≡ false
not_less_trans a b c h k = ground arith

All-below :
    (a b : ℤ) (fs : NetResults)
    → ltb_ℤ a b ≡ false
    → All (λ f. ltb_ℤ b f.1 ≡ false) fs
    → All (λ f. ltb_ℤ a f.1 ≡ false) fs
All-below a b [] h k = tt
All-below a b (f ∷ fs) h (k, ks) = (not_less_trans a b f.1 h k, All-below a b fs h ks)

insert_desc-IsDescending :
    (e : String × ℤ) (fs : NetResults) → IsDescending fs → IsDescending (insert_desc e fs)
insert_desc-IsDescending e [] h = (tt, tt)
insert_desc-IsDescending e (f ∷ fs) (top, h) = elim (Bool-cases (ltb_ℤ e.1 f.1)) [
  | inl lt ↦ rw lt (All-insert_desc f.1 e fs (ground arith) top, insert_desc-IsDescending e fs h)
  | inr ge ↦ rw ge ((ge, All-below e.1 f.1 fs ge top), (top, h))
]

sort_desc-IsDescending : (es : NetResults) → IsDescending (sort_desc es)
sort_desc-IsDescending [] = tt
sort_desc-IsDescending (e ∷ es) =
    insert_desc-IsDescending e (sort_desc es) (sort_desc-IsDescending es)

-- Where the state of the match has no result of its own, the places are the players of the net
-- results, each as often as there, from the highest amount to the lowest.
pub finish_of-places :
    (g : GameState) (r : MatchResult)
    → finish_in_state g ≡ none
    → g.match_result ≡ some r
    → (f : Finish) × (order : NetResults) × (finish_of g ≡ some f)
      × Perm order r.net_results
      × IsDescending order
      × (f.places ≡ map (λ e. e.0) order)
unfolding finish_of
finish_of-places g r own there = (
  finish_of_result r,
  sort_desc r.net_results,
  rw (own, there) refl,
  sort_desc-perm r.net_results,
  sort_desc-IsDescending r.net_results,
  refl,
)
