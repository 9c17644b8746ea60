-- ===== src/Selectors/Ordered.antt =====
-- The seats in the order in which the table shows them: selectOrderedSeats of selectors.ts.
use durak_card_game.Prelude.{
  ℕ, ◌+◌, truthy, String, true, false, Option, none, some, List, [], ◌∷◌, ◌++◌, map, ◌==◌, ltb, leb,
  length, take, drop, or_else, get_or, if◌then◌else◌,
}
use durak_card_game.Prelude.Int.{ℤ, pos, negsuc}
use durak_card_game.Match.{Player, Seat, MatchState}
use durak_card_game.Store.{GameState}
use durak_card_game.Selectors.{length_or_zero}

-- A seat for a player, where the state lists players alone.
abbrev pub seat_of_player : Player → Seat
seat_of_player p = record {
  id = p.id;
  name = get_or (or_else p.display_name p.username) p.id;
  card_count = some (get_or p.hand_count (length_or_zero p.hand));
  is_ready = true;
  is_confirmed = true;
  avatar_url = p.photo_url;
}

unfoldable pub seats_of : MatchState → List Seat
seats_of ms =
    if ltb 0 (length_or_zero ms.seats)
    then get_or ms.seats []
    else map seat_of_player (get_or ms.players [])

-- `seats.findIndex((s) => s.id === user)`, counted from `i`
unfoldable pub find_index : ℕ → String → List Seat → ℤ
find_index i user [] = negsuc 0
find_index i user (s ∷ seats) =
    let rest = find_index (i + 1) user seats in if s.id == user then pos i else rest

abbrev pub index_for : Option String → List Seat → ℤ
index_for none seats = negsuc 0
index_for (some me) seats = if me == "" then negsuc 0 else find_index 0 me seats

-- `mySeatIndex`, or where it is negative or missing the first seat with the user's id
unfoldable pub own_index : Option ℤ → Option String → List Seat → ℤ
own_index (some (pos i)) user seats = pos i
own_index (some (negsuc n)) user seats = elim (truthy user) [
  | true ↦ index_for user seats
  | false ↦ negsuc n
]
own_index none user seats = index_for user seats

-- `[...seats.slice(i), ...seats.slice(0, i)]` for an index in range
unfoldable pub rotate_to : ℤ → List Seat → List Seat
rotate_to (negsuc n) seats = seats
rotate_to (pos i) seats = if leb (length seats) i then seats else drop i seats ++ take i seats

unfoldable pub select_ordered_seats : GameState → Option String → List Seat
select_ordered_seats state user = elim state.match_state [
  | none ↦ []
  | some ms ↦ rotate_to (own_index ms.my_seat_index user (seats_of ms)) (seats_of ms)
]
