-- ===== src/Rooms.antt =====
-- Rooms: src/entities/match/types.ts and src/shared/api/rooms.ts. What the server sends is a raw
-- object, and `normalizeRoom` makes a room of it. A number is an `Option ℕ`, where `none` is `NaN`:
-- the numbers of a room are whole and not negative.
pub mod Laws
use durak_card_game.Prelude.{
  ℕ, ◌≡◌, String, Bool, true, false, not, ◌==◌, Option, none, some, List, [], ltb, length, get_or,
  if◌then◌else◌,
}

pub record Room : Type 0 where
  pub id : String
  pub title : String
  pub stake_usd : Option ℕ
  pub players : ℕ
  pub player_ids : List String
  pub max_players : Option ℕ
  pub deck : Option ℕ
  pub mode : String
  pub status : Option String
  pub match_id : Option String
  pub ready_players : Option ℕ
  pub ready_user_ids : List String
  pub stake_confirmed_players : Option ℕ
  pub stake_confirmed_user_ids : List String
  pub stake_confirm_deadline : Option ℕ

-- A field of an object from outside; `missing` is `null` too. The items of an array are kept as the
-- texts that `String` makes of them.
pub data Value : Type 0 where
  missing : Value
  number : ℕ → Value
  text : String → Value
  list : List String → Value
  bool : Bool → Value
  object : Value

-- `Number` and `String`, as the language defines them; `none` is what is not finite.
pub record Conversions : Type 0 where
  pub to_number : Value → Option ℕ
  pub to_text : Value → String
  pub to_number-number : (n : ℕ) → to_number (number n) ≡ some n
  pub to_text-text : (s : String) → to_text (text s) ≡ s

pub record RawRoom : Type 0 where
  pub id : Value
  pub room_id : Value
  pub title : Value
  pub stake_usd : Value
  pub stake : Value
  pub players : Value
  pub max_players : Value
  pub max_players_snake : Value
  pub deck : Value
  pub mode : Value
  pub status : Value
  pub match_id : Value
  pub match_id_snake : Value
  pub ready_users : Value
  pub ready_users_snake : Value
  pub stake_confirmed_users : Value
  pub stake_confirmed_users_snake : Value
  pub stake_confirm_deadline : Value
  pub stake_confirm_deadline_snake : Value

-- `a ?? b`
abbrev pub or_value : Value → Value → Value
or_value missing d = d
or_value (number n) d = number n
or_value (text s) d = text s
or_value (list xs) d = list xs
or_value (bool b) d = bool b
or_value object d = object

-- `Boolean(v)`
abbrev pub is_truthy : Value → Bool
is_truthy missing = false
is_truthy (number n) = ltb 0 n
is_truthy (text s) = not (s == "")
is_truthy (list xs) = true
is_truthy (bool b) = b
is_truthy object = true

-- `Array.isArray(raw) ? raw.map((item) => String(item)) : []`
abbrev pub ids_of : Value → List String
ids_of (list ids) = ids
ids_of _ = []

-- `n > 0 ? n : undefined`, with `undefined` for what is not finite
abbrev pub positive : Option ℕ → Option ℕ
positive none = none
positive (some n) = if ltb 0 n then some n else none

module _ (c : Conversions) where
  -- The length of the array, or the number that the field holds.
  abbrev pub count_of : List String → Value → ℕ
  count_of ids raw = if ltb 0 (length ids) then length ids else get_or (c.to_number raw) 0

  abbrev pub ready_raw : RawRoom → Value
  ready_raw raw = or_value raw.ready_users raw.ready_users_snake

  abbrev pub confirmed_raw : RawRoom → Value
  confirmed_raw raw = or_value raw.stake_confirmed_users raw.stake_confirmed_users_snake

  abbrev pub deadline_of : RawRoom → Option ℕ
  deadline_of raw =
      c.to_number
        (or_value raw.stake_confirm_deadline (or_value raw.stake_confirm_deadline_snake (number 0)))

  unfoldable pub normalize_room : RawRoom → Room
  normalize_room raw = record {
    id = c.to_text (or_value raw.id (text ""));
    title = c.to_text (or_value raw.title (text "Стол"));
    stake_usd = c.to_number (or_value raw.stake_usd (or_value raw.stake (number 0)));
    players = count_of (ids_of raw.players) raw.players;
    player_ids = ids_of raw.players;
    max_players =
        c.to_number (or_value raw.max_players (or_value raw.max_players_snake (number 2)));
    deck = c.to_number (or_value raw.deck (number 36));
    mode = c.to_text (or_value raw.mode (text "Подкидной"));
    status = some (c.to_text (or_value raw.status (text "waiting")));
    match_id = some (c.to_text (or_value raw.match_id (or_value raw.match_id_snake (text ""))));
    ready_players = some (count_of (ids_of (ready_raw raw)) (ready_raw raw));
    ready_user_ids = ids_of (ready_raw raw);
    stake_confirmed_players = some (count_of (ids_of (confirmed_raw raw)) (confirmed_raw raw));
    stake_confirmed_user_ids = ids_of (confirmed_raw raw);
    stake_confirm_deadline = positive (deadline_of raw);
  }
