-- ===== src/GameTable/Labels.antt =====
-- The texts of the table's page, and the opponents round the table. `tr` picks the language, and
-- `text_of` writes a number.
use Prim.Native.String
use durak_card_game.Prelude.{
  ℕ, ◌+◌, ◌/◌, String, Bool, false, not, ◌==◌, ◌||◌, Option, none, some, List, [], ◌∷◌, eqb, ltb,
  take, drop, length, filter, includes, truthy, get_or, lower_includes, if◌then◌else◌,
}
use durak_card_game.Match.{Player, Seat}
use durak_card_game.Store.{GameState}
use durak_card_game.Selectors.{length_or_zero}
use durak_card_game.Selectors.Ordered.{select_ordered_seats}
use durak_card_game.GameTable.{
  Page, current_player, players_of, name_of_player, attacker_id, defender_id, shuler_players,
  turn_player_name, shuler_window_ends_at,
}

-- the symbol of a suit that is known
abbrev pub symbol_of : String → String
symbol_of suit =
    if suit == "hearts"
    then "♥"
    else if suit == "diamonds"
    then "♦"
    else if suit == "clubs"
    then "♣"
    else if suit == "spades"
    then "♠"
    else "?"

unfoldable pub get_suit_symbol : Option String → String
get_suit_symbol suit = if truthy suit then symbol_of (get_or suit "") else "?"

-- `playerId === attackerId`, and the same for the defender
abbrev pub is_player : Option String → String → Bool
is_player none id = false
is_player (some p) id = id == p

-- Math.ceil(ms / 1000)
abbrev pub whole_seconds : ℕ → ℕ
whole_seconds ms = (ms + 999) / 1000

unfoldable pub shuler_window_seconds_left : Page → GameState → Option ℕ
shuler_window_seconds_left p g = elim (shuler_window_ends_at g) [
  | none ↦ none
  | some n ↦ some (whole_seconds p.shuler_window_ms_left)
]

-- `SeatViewModel`
pub record SeatViewModel : Type 0 where
  pub id : String
  pub name : String
  pub avatar_url : Option String
  pub card_count : Option ℕ
  pub role_label : Option String
  pub is_shuler : Bool

module _ (tr : String → String → String) (text_of : ℕ → String) where
  unfoldable pub format_suit_label : Option String → String
  unfolding get_suit_symbol
  format_suit_label suit =
      if not (truthy suit)
      then tr "Козырь —" "Козир —"
      else let s = get_or suit "" in
        String.◌++◌ (get_suit_symbol suit) (
          String.◌++◌ " " (
            if s == "hearts"
            then tr "Черви" "Чирва"
            else if s == "diamonds"
            then tr "Бубны" "Бубна"
            else if s == "clubs"
            then tr "Трефы" "Трефа"
            else if s == "spades"
            then tr "Пики" "Піка"
            else s))

  unfoldable pub format_mode_label : Option String → String
  unfolding lower_includes
  format_mode_label raw_mode =
      let s = get_or raw_mode "" in
      if lower_includes s "podkid" || lower_includes s "подкид"
      then tr "Подкидной" "Підкидний"
      else if lower_includes s "perevod" || lower_includes s "перевод"
      then tr "Переводной" "Перевідний"
      else if lower_includes s "fair" || lower_includes s "чест"
      then tr "Честная игра" "Чесна гра"
      else if lower_includes s "shuler" || lower_includes s "шулер"
      then tr "Шулер" "Шулер"
      else if lower_includes s "classic" || lower_includes s "класс"
      then tr "Классика" "Класика"
      else if truthy raw_mode
      then s
      else tr "Матч" "Матч"

  unfoldable pub format_fairness_label : Option String → String
  unfolding lower_includes
  format_fairness_label raw_mode =
      let s = get_or raw_mode "" in
      if lower_includes s "shuler" || lower_includes s "шулер"
      then tr "Шулер" "Шулер"
      else tr "Честная игра" "Чесна гра"

  unfoldable pub format_deck_label : Option ℕ → String
  format_deck_label none = tr "Колода —" "Колода —"
  format_deck_label (some deck) =
      if eqb deck 0
      then tr "Колода —" "Колода —"
      else tr (String.◌++◌ (text_of deck) " карт") (String.◌++◌ (text_of deck) " карт")

  unfoldable pub format_players_label : ℕ → ℕ → String
  format_players_label players max_players =
      let total = if eqb max_players 0 then players else max_players in
      let counted = String.◌++◌ (text_of players) (String.◌++◌ "/" (text_of total)) in
      tr (String.◌++◌ counted " игрока") (String.◌++◌ counted " гравця")

  unfoldable pub get_role_label : String → Option String → Option String → Option String
  get_role_label player_id attacker defender =
      if is_player attacker player_id
      then some (tr "Атакует" "Атакує")
      else if is_player defender player_id
      then some (tr "Защита" "Захист")
      else none

  unfoldable pub fallback_player_name : ℕ → String
  fallback_player_name index =
      tr (String.◌++◌ "Игрок " (text_of index)) (String.◌++◌ "Гравець " (text_of index))

  unfoldable pub turn_label : Bool → GameState → String
  turn_label is_my_turn g =
      if is_my_turn
      then tr "Ваш ход" "Ваш хід"
      else if truthy (turn_player_name g)
      then tr (String.◌++◌ "Ходит " (get_or (turn_player_name g) ""))
          (String.◌++◌ "Ходить " (get_or (turn_player_name g) ""))
      else tr "Ожидайте ход" "Очікуйте хід"

  abbrev pub view_of_seat : GameState → Seat → SeatViewModel
  view_of_seat g seat = record {
    id = seat.id;
    name = seat.name;
    avatar_url = seat.avatar_url;
    card_count = seat.card_count;
    role_label = get_role_label seat.id (attacker_id g) (defender_id g);
    is_shuler = includes (shuler_players g) seat.id;
  }

  abbrev pub view_of_player : GameState → ℕ → Player → SeatViewModel
  view_of_player g index p = record {
    id = p.id;
    name = get_or (name_of_player p) (fallback_player_name (index + 2));
    avatar_url = p.photo_url;
    card_count = some (get_or p.hand_count (length_or_zero p.hand));
    role_label = get_role_label p.id (attacker_id g) (defender_id g);
    is_shuler = includes (shuler_players g) p.id;
  }

  abbrev pub views_of_seats : GameState → List Seat → List SeatViewModel
  views_of_seats g [] = []
  views_of_seats g (s ∷ seats) = view_of_seat g s ∷ views_of_seats g seats

  abbrev pub views_of_players : GameState → ℕ → List Player → List SeatViewModel
  views_of_players g i [] = []
  views_of_players g i (p ∷ players) = view_of_player g i p ∷ views_of_players g (i + 1) players

  abbrev pub id_of_player : Option Player → Option String
  id_of_player none = none
  id_of_player (some p) = some p.id

  -- `players.filter((player) => player.id !== currentPlayer?.id)`
  unfoldable pub opponents : GameState → Option String → List Player
  opponents g user =
      filter (λ p. not (is_player (id_of_player (current_player g user)) p.id)) (players_of g)

  unfoldable pub opponent_seats : GameState → Option String → List SeatViewModel
  opponent_seats g user =
      let seats = drop 1 (select_ordered_seats g user) in
      if ltb 0 (length seats)
      then views_of_seats g (take 4 seats)
      else views_of_players g 0 (take 4 (opponents g user))
