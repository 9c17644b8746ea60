-- ===== src/Tests.antt =====
-- Test data: a game of two players, its cards, states and messages.
pub mod Table
pub mod Session
pub mod Network
pub mod Lobby
pub mod Page
pub mod Requests
pub mod Mock
use durak_card_game.Prelude.{
  ℕ, String, Bool, true, false, Option, none, some, List, [], ◌∷◌, ◌≡◌, ◌≢◌, ◌==◌, arith, eq_iff,
}
use durak_card_game.Card.{Card}
use durak_card_game.Match.{MatchState, Phase, Pile, Seat}
use durak_card_game.Store.{Store, GameState, initial_store, initial_state, Language, ru}
use durak_card_game.Tracker.{Settings}
use durak_card_game.Replay.{MoveApplied, BufferedMove, Clock, Buffer, empty_buffer}
use durak_card_game.Join.State.{Env}

pub differ : (s t : String) → (s == t) ≡ false → s ≢ t
differ s t h = ground (arith, eq_iff s t)

abbrev pub six : Card
six = record { id = "6H"; suit = "hearts"; rank = "6" }

abbrev pub nine : Card
nine = record { id = "9H"; suit = "hearts"; rank = "9" }

abbrev pub trump_seven : Card
trump_seven = record { id = "7S"; suit = "spades"; rank = "7" }

abbrev pub seat : String → Seat
seat id = record {
  id = id;
  name = id;
  card_count = some 6;
  is_ready = true;
  is_confirmed = true;
  avatar_url = none;
}

abbrev pub seats : List Seat
seats = seat "ann" ∷ seat "bob" ∷ seat "me" ∷ []

-- Ann attacked with the six, and it is the turn of the player called `me`, who defends.
abbrev pub defending : MatchState
defending = record {
  version = some 7;
  last_action_id = none;
  phase = some Phase.defend;
  deck_type = some 36;
  mode = some "podkidnoy";
  stake_usd = none;
  trump_suit = some "spades";
  attacker_player_id = some "ann";
  defender_player_id = some "me";
  stock_count = some 12;
  discard_count = some 0;
  capacity_on_table = some 6;
  allowed_ranks = none;
  turn_ends_at = none;
  turn_seat_index = none;
  table_piles = some (record { attack = six; defend = none; defense = none } ∷ []);
  seats = some seats;
  attacker_seat = none;
  defender_seat = none;
  my_hand = none;
  my_seat_index = none;
  shuler = none;
  affordances = none;
  finish = none;
  room_id = some "room";
  match_id = some "match";
  status = some "playing";
  turn_player_id = some "me";
  table_cards = none;
  players = none;
  winner_player_id = none;
}

abbrev pub at_version : ℕ → MatchState
at_version v = record defending { version = some v }

abbrev pub showing : MatchState → GameState
showing m = record initial_state { match_state = some m }

abbrev pub shown_store : Store
shown_store = record initial_store { state = showing defending }

abbrev pub settings : Settings
settings = record {
  enabled = true;
  warn_pending_versioned = 12;
  warn_pending_unversioned = 6;
  warn_dropped_duplicate = 1;
  warn_dropped_stale = 10;
  warn_interval_ms = 15000;
}

abbrev pub env_at : ℕ → Env
env_at time = record {
  language = ru;
  clock = record { now = time; digits = "0" };
  random_uuid = "uuid";
  settings = settings;
  reset_activity_on_match_finish = true;
}

abbrev pub played : String → MoveApplied
played event_id = record {
  room_id = "room";
  match_id = "match";
  event_id = some event_id;
  player_id = "ann";
  action = "attack";
  card_id = some "6H";
}

abbrev pub waiting : String → BufferedMove
waiting event_id = record {
  event_id = event_id;
  player_id = "ann";
  action = "attack";
  card_id = some "6H";
  received_at = 1;
}

-- Moves of the versions 9 and 8, in that order, and one without a version.
abbrev pub early : Buffer
early = record empty_buffer {
  pending_by_version = (9, waiting "match:v9") ∷ (8, waiting "match:v8") ∷ [];
  pending_unversioned = waiting "match-5" ∷ [];
}
