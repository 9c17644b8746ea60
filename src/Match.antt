-- ===== src/Match.antt =====
-- The data that the server sends about a match: src/shared/api/ws/types.ts,
-- src/entities/player/types.ts. A field that may be missing, or that the code tests by `typeof`,
-- is an `Option`. Seat indices are integers, since the code tests them against 0; amounts of money
-- are whole cents.
use durak_card_game.Prelude.{ℕ, String, Bool, Option, List, or_else}
use durak_card_game.Prelude.Int.{ℤ}
use durak_card_game.Card.{Card}

pub data Phase : Type 0 where
  betting playing attack defend result : Phase

pub record Player : Type 0 where
  pub id : String
  pub username : Option String
  pub display_name : Option String
  pub photo_url : Option String
  pub balance_usd : Option ℤ
  pub hand_count : Option ℕ
  pub is_current_turn : Bool
  pub hand : Option (List Card)

pub record Seat : Type 0 where
  pub id : String
  pub name : String
  pub card_count : Option ℕ
  pub is_ready : Bool
  pub is_confirmed : Bool
  pub avatar_url : Option String

pub record Affordances : Type 0 where
  pub can_act : Bool
  pub can_attack : Bool
  pub can_defend : Bool
  pub can_take : Bool
  pub can_pass : Bool
  pub can_throw_in : Bool
  pub can_translate : Bool
  pub can_shuler_play : Bool
  pub can_shuler_report : Bool
  pub attack_card_ids : Option (List String)
  pub defend_card_ids : Option (List String)
  pub throw_in_card_ids : Option (List String)
  pub translate_card_ids : Option (List String)
  pub shuler_play_card_ids : Option (List String)
  pub defendable_target_card_ids : Option (List String)

-- An attack on the table and its answer, under either of its two names.
pub record Pile : Type 0 where
  pub attack : Card
  pub defend : Option Card
  pub defense : Option Card

pub record Shuler : Type 0 where
  pub is_window_open : Bool
  pub window_ends_at : Option ℕ
  pub active_players : List String

pub record Finish : Type 0 where
  pub bank : ℤ
  pub commission : ℤ
  pub payouts : List (String × ℤ)
  pub places : List String

-- `MatchStatePayload`
pub record MatchState : Type 0 where
  pub version : Option ℕ
  pub last_action_id : Option String
  pub phase : Option Phase
  pub deck_type : Option ℕ
  pub mode : Option String
  pub stake_usd : Option ℤ
  pub trump_suit : Option String
  pub attacker_player_id : Option String
  pub defender_player_id : Option String
  pub stock_count : Option ℕ
  pub discard_count : Option ℕ
  pub capacity_on_table : Option ℕ
  pub allowed_ranks : Option (List String)
  pub turn_ends_at : Option ℕ
  pub turn_seat_index : Option ℤ
  pub table_piles : Option (List Pile)
  pub seats : Option (List Seat)
  pub attacker_seat : Option ℤ
  pub defender_seat : Option ℤ
  pub my_hand : Option (List String)
  pub my_seat_index : Option ℤ
  pub shuler : Option Shuler
  pub affordances : Option Affordances
  pub finish : Option Finish
  pub room_id : Option String
  pub match_id : Option String
  pub status : Option String
  pub turn_player_id : Option String
  pub table_cards : Option (List Card)
  pub players : Option (List Player)
  pub winner_player_id : Option String

-- `{ ...current, ...patch }`: a `Partial<MatchStatePayload>` is a state in which `none` is a key
-- that the patch does not have. A key whose value is `null` is not modelled.
unfoldable pub spread : MatchState → MatchState → MatchState
spread current patch = record {
  version = or_else patch.version current.version;
  last_action_id = or_else patch.last_action_id current.last_action_id;
  phase = or_else patch.phase current.phase;
  deck_type = or_else patch.deck_type current.deck_type;
  mode = or_else patch.mode current.mode;
  stake_usd = or_else patch.stake_usd current.stake_usd;
  trump_suit = or_else patch.trump_suit current.trump_suit;
  attacker_player_id = or_else patch.attacker_player_id current.attacker_player_id;
  defender_player_id = or_else patch.defender_player_id current.defender_player_id;
  stock_count = or_else patch.stock_count current.stock_count;
  discard_count = or_else patch.discard_count current.discard_count;
  capacity_on_table = or_else patch.capacity_on_table current.capacity_on_table;
  allowed_ranks = or_else patch.allowed_ranks current.allowed_ranks;
  turn_ends_at = or_else patch.turn_ends_at current.turn_ends_at;
  turn_seat_index = or_else patch.turn_seat_index current.turn_seat_index;
  table_piles = or_else patch.table_piles current.table_piles;
  seats = or_else patch.seats current.seats;
  attacker_seat = or_else patch.attacker_seat current.attacker_seat;
  defender_seat = or_else patch.defender_seat current.defender_seat;
  my_hand = or_else patch.my_hand current.my_hand;
  my_seat_index = or_else patch.my_seat_index current.my_seat_index;
  shuler = or_else patch.shuler current.shuler;
  affordances = or_else patch.affordances current.affordances;
  finish = or_else patch.finish current.finish;
  room_id = or_else patch.room_id current.room_id;
  match_id = or_else patch.match_id current.match_id;
  status = or_else patch.status current.status;
  turn_player_id = or_else patch.turn_player_id current.turn_player_id;
  table_cards = or_else patch.table_cards current.table_cards;
  players = or_else patch.players current.players;
  winner_player_id = or_else patch.winner_player_id current.winner_player_id;
}
