-- ===== src/MockApi.antt =====
-- A match of the mock server: src/mocks/mockApi.ts. The map of matches is an association list. The
-- objects that a call changes in place are the ones that the new state holds, so that a call is a
-- function of the map; the clock stands still during a call.
pub mod Kept
use durak_card_game.Prelude.{
  ℕ, ◌+◌, ◌-◌, String, Bool, true, false, ◌==◌, Option, none, some, List, [], ◌∷◌, ◌++◌, length,
  find, eqb, truthy, get_or, if◌then◌else◌,
}
use durak_card_game.Card.{Card}
use durak_card_game.Match.{MatchState, Player}

pub data MockAction : Type 0 where
  attack defend take pass : MockAction

abbrev pub mock_user_id : String
mock_user_id = "local-user"

abbrev pub mock_opponent_id : String
mock_opponent_id = "bot-opponent"

abbrev pub MockStates : Type 0
MockStates = List (String × MatchState)

-- `mockMatchStates.get(roomId)`
abbrev pub get_state : String → MockStates → Option MatchState
get_state room_id [] = none
get_state room_id ((key, state) ∷ rest) =
    let later = get_state room_id rest in if key == room_id then some state else later

-- `mockMatchStates.set(roomId, state)`
abbrev pub set_state : String → MatchState → MockStates → MockStates
set_state room_id state [] = (room_id, state) ∷ []
set_state room_id state ((key, old) ∷ rest) =
    let later = set_state room_id state rest in
    if key == room_id then (room_id, state) ∷ rest else (key, old) ∷ later

abbrev pub create_initial_hand : List Card
create_initial_hand =
    record { id = "c1"; suit = "hearts"; rank = "A" }
    ∷ record { id = "c2"; suit = "spades"; rank = "K" }
    ∷ record { id = "c3"; suit = "clubs"; rank = "10" }
    ∷ record { id = "c4"; suit = "diamonds"; rank = "Q" }
    ∷ record { id = "c5"; suit = "hearts"; rank = "9" }
    ∷ record { id = "c6"; suit = "spades"; rank = "8" }
    ∷ []

abbrev pub create_player : String → String → List Card → Player
create_player id username hand = record {
  id = id;
  username = some username;
  display_name = none;
  photo_url = none;
  balance_usd = none;
  hand_count = some (length hand);
  is_current_turn = id == mock_user_id;
  hand = some hand;
}

abbrev pub initial_match : ℕ → String → MatchState
initial_match now room_id = record {
  version = none;
  last_action_id = none;
  phase = none;
  deck_type = none;
  mode = none;
  stake_usd = none;
  trump_suit = some "hearts";
  attacker_player_id = none;
  defender_player_id = none;
  stock_count = none;
  discard_count = none;
  capacity_on_table = none;
  allowed_ranks = none;
  turn_ends_at = some (now + 35000);
  turn_seat_index = none;
  table_piles = none;
  seats = none;
  attacker_seat = none;
  defender_seat = none;
  my_hand = none;
  my_seat_index = none;
  shuler = none;
  affordances = none;
  finish = none;
  room_id = some room_id;
  match_id = none;
  status = some "playing";
  turn_player_id = some mock_user_id;
  table_cards = some [];
  players = some (
      create_player mock_user_id "Вы" create_initial_hand
      ∷ create_player mock_opponent_id "Bot" []
      ∷ []);
  winner_player_id = none;
}

unfoldable pub initialize_mock_match : ℕ → String → MockStates → MatchState × MockStates
initialize_mock_match now room_id states = elim (get_state room_id states) [
  | some existing ↦ (existing, states)
  | none ↦ (initial_match now room_id, set_state room_id (initial_match now room_id) states)
]

-- `hand.splice(index, 1)` at the first card with the id
abbrev pub splice_card : String → List Card → Option (Card × List Card)
splice_card id [] = none
splice_card id (card ∷ hand) =
    let later = splice_card id hand in
    if card.id == id
    then some (card, hand)
    else elim later [ none ↦ none | some (found, rest) ↦ some (found, card ∷ rest) ]

-- The hand and the table after the search for the card in the hand.
abbrev pub lay_card : List Card → List Card → Option (Card × List Card) → List Card × List Card
lay_card hand table none = (hand, table)
lay_card hand table (some (card, rest)) = (rest, table ++ card ∷ [])

abbrev pub play_card : String → List Card → List Card → List Card × List Card
play_card id hand table = lay_card hand table (splice_card id hand)

-- `params.cardId && me.hand`
abbrev pub play_from :
    Option String → Option (List Card) → List Card → Option (List Card) × List Card
play_from card_id none table = (none, table)
play_from card_id (some hand) table =
    let (kept, laid) = play_card (get_or card_id "") hand table in
    if truthy card_id then (some kept, laid) else (some hand, table)

-- The hand of the user and the cards on the table after an action.
abbrev pub move_cards :
    MockAction → Option String → Option (List Card) → List Card → Option (List Card) × List Card
move_cards attack card_id hand table = play_from card_id hand table
move_cards defend card_id hand table = play_from card_id hand table
move_cards take card_id hand table = (some (get_or hand [] ++ table), [])
move_cards pass card_id hand table = (hand, [])

-- `me.hand?.length ?? me.handCount`
abbrev pub count_hand : Option (List Card) → Option ℕ → Option ℕ
count_hand none count = count
count_hand (some hand) count = some (length hand)

abbrev pub is_pass : MockAction → Bool
is_pass pass = true
is_pass _ = false

-- `Math.max(0, n - (action === "pass" ? 1 : 0))`; a count that is not there stays so
abbrev pub opponent_count : MockAction → Option ℕ → Option ℕ
opponent_count action none = none
opponent_count action (some n) = some (if is_pass action then n - 1 else n)

-- The first player with the id, as the call has changed it.
abbrev pub put_player : Player → List Player → List Player
put_player changed [] = []
put_player changed (player ∷ players) =
    let later = put_player changed players in
    if player.id == changed.id then changed ∷ players else player ∷ later

abbrev pub other_turn : Option String → String
other_turn none = mock_user_id
other_turn (some id) = if id == mock_user_id then mock_opponent_id else mock_user_id

abbrev pub is_none_left : Option ℕ → Bool
is_none_left none = false
is_none_left (some n) = eqb n 0

abbrev pub next_state :
    ℕ → MockAction → Option (List Card) × List Card → MatchState → Player → Player → MatchState
next_state now action (hand, table) state me opponent =
    let count = count_hand hand me.hand_count in
    record state {
      table_cards = some table;
      players = some (
          put_player (record opponent { hand_count = opponent_count action opponent.hand_count })
            (put_player (record me { hand = hand; hand_count = count }) (get_or state.players [])));
      turn_player_id = some (other_turn state.turn_player_id);
      turn_ends_at = some (now + 30000);
      winner_player_id = if is_none_left count then some mock_user_id else none;
      status = some (if is_none_left count then "finished" else "playing");
    }

-- The state that the call returns, with the map after it.
unfoldable pub act_on :
    ℕ → String → MockAction → Option String → MatchState × MockStates → MatchState × MockStates
act_on now room_id action card_id (state, states) =
    elim (find (λ p. p.id == mock_user_id) (get_or state.players [])) [
      | none ↦ (state, states)
      | some me ↦ elim (find (λ p. p.id == mock_opponent_id) (get_or state.players [])) [
        | none ↦ (state, states)
        | some opponent ↦
            let next =
              next_state now action
                (move_cards action card_id me.hand (get_or state.table_cards [])) state me
                opponent in
            (next, set_state room_id next states)
      ]
    ]

unfoldable pub apply_mock_match_action :
    ℕ → String → MockAction → Option String → MockStates → MatchState × MockStates
apply_mock_match_action now room_id action card_id states =
    act_on now room_id action card_id (initialize_mock_match now room_id states)

pub record MockCall : Type 0 where
  pub now : ℕ
  pub room_id : String
  pub action : MockAction
  pub card_id : Option String

-- The map after calls one after the other.
abbrev pub run_mock : List MockCall → MockStates → MockStates
run_mock [] states = states
run_mock (call ∷ calls) states =
    run_mock calls (apply_mock_match_action call.now call.room_id call.action call.card_id states).1
