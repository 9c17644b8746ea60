-- ===== src/GameTable.antt =====
-- The page of the table: src/pages/game-table/GameTablePage.tsx. This file has what the page works
-- out from the state of the game: whose hand is shown, what the player may do beyond the selectors,
-- the pairs on the table. Its children have the buttons, the sending of an action and the result.
pub mod Buttons
pub mod Send
pub mod Mock
pub mod Dealt
pub mod Sending
pub mod Taps
pub mod Offers
pub mod Finish
pub mod Seen
pub mod Labels
use durak_card_game.Prelude.{
  ℕ, ◌+◌, ◌-◌, ◌/◌, String, Bool, true, false, not, ◌==◌, ◌&&◌, ◌||◌, Option, none, some, List, [],
  ◌∷◌, ltb, find, includes, truthy, is_empty, or_else, get_or, get_elem?, lower_includes,
  if◌then◌else◌,
}
use durak_card_game.Card.{Card}
use durak_card_game.Match.{Player, Seat, Affordances, Pile, Shuler, MatchState}
use durak_card_game.Store.{GameState}
use durak_card_game.Selectors.{select_can_defend, at_index, find_seat}
use durak_card_game.Rooms.{Room}

-- `MatchActionType`
pub data MatchAction : Type 0 where
  attack defend throw shuler_play take pass translate shuler_report : MatchAction

-- the argument of `setIntentError`
pub record IntentError : Type 0 where
  pub text : String
  pub code : Option String

pub data Haptic : Type 0 where
  medium warning selection : Haptic

-- the state of the component and what its hooks give it, with its calls of the phone's motor
pub record Page : Type 0 where
  pub id : Option String
  pub room : Option Room
  pub current_user_id : Option String
  pub selected_card_id : Option String
  pub shuler_window_ms_left : ℕ
  pub intent_error : Option IntentError
  pub haptics : List Haptic

-- `allowedCardIdsByAction[action]`
abbrev pub allowed_card_ids : MatchAction → Affordances → Option (List String)
allowed_card_ids attack aff = aff.attack_card_ids
allowed_card_ids defend aff = aff.defend_card_ids
allowed_card_ids throw aff = aff.throw_in_card_ids
allowed_card_ids translate aff = aff.translate_card_ids
allowed_card_ids shuler_play aff = aff.shuler_play_card_ids
allowed_card_ids _ aff = none

unfoldable pub is_card_allowed_for_action :
    MatchAction → Option String → Bool → Option Affordances → Bool
is_card_allowed_for_action action card_id has_detailed_hand affordances =
    if not has_detailed_hand
    then true
    else if not (truthy card_id)
    then false
    else elim affordances [
      | none ↦ true
      | some aff ↦ elim (allowed_card_ids action aff) [
        | none ↦ true
        | some ids ↦ includes ids (get_or card_id "")
      ]
    ]

abbrev pub affordances_of : GameState → Option Affordances
affordances_of g = elim g.match_state [ none ↦ none | some ms ↦ ms.affordances ]

abbrev pub players_of : GameState → List Player
players_of g = elim g.match_state [ none ↦ [] | some ms ↦ get_or ms.players [] ]

abbrev pub find_by_id : Option String → List Player → Option Player
find_by_id none players = none
find_by_id (some me) players = find (λ p. p.id == me) players

-- the user's own entry, or the first
unfoldable pub current_player : GameState → Option String → Option Player
current_player g user = or_else (find_by_id user (players_of g)) (get_elem? (players_of g) 0)

abbrev pub shows_cards : Option Player → Bool
shows_cards none = false
shows_cards (some p) = elim p.hand [ none ↦ false | some hand ↦ not (is_empty hand) ]

unfoldable pub has_detailed_hand : GameState → Option String → Bool
has_detailed_hand g user = shows_cards (current_player g user)

abbrev pub shuler_of : GameState → Option Shuler
shuler_of g = elim g.match_state [ none ↦ none | some ms ↦ ms.shuler ]

abbrev pub window_open : GameState → Bool
window_open g = elim (shuler_of g) [ none ↦ false | some s ↦ s.is_window_open ]

unfoldable pub shuler_window_ends_at : GameState → Option ℕ
shuler_window_ends_at g = elim (shuler_of g) [
  | none ↦ none
  | some s ↦ elim s.window_ends_at [ none ↦ none | some n ↦ if ltb 0 n then some n else none ]
]

-- `shulerWindowEndsAt == null ? true : shulerWindowMsLeft > 0`
abbrev pub runs : Option ℕ → ℕ → Bool
runs none ms_left = true
runs (some n) ms_left = ltb 0 ms_left

abbrev pub shuler_window_is_live : Page → GameState → Bool
shuler_window_is_live p g = window_open g && runs (shuler_window_ends_at g) p.shuler_window_ms_left

-- the tick of the window's timer, and its value without a window
unfoldable pub tick_shuler_window : GameState → ℕ → Page → Page
tick_shuler_window g clock p = record p {
  shuler_window_ms_left = elim (shuler_window_ends_at g) [ none ↦ 0 | some n ↦ n - clock ];
}

abbrev pub shuler_players : GameState → List String
shuler_players g = elim (shuler_of g) [ none ↦ [] | some s ↦ s.active_players ]

abbrev pub by_affordance : Option Affordances → (Affordances → Bool) → Bool → Bool
by_affordance none allowed legacy = legacy
by_affordance (some aff) allowed legacy = allowed aff

unfoldable pub can_report_shuler : Page → GameState → Bool
can_report_shuler p g =
    by_affordance (affordances_of g) (λ aff. aff.can_shuler_report)
      (truthy p.current_user_id
        && (shuler_window_is_live p g
            && not (includes (shuler_players g) (get_or p.current_user_id ""))))

abbrev pub mode_of_room : Option Room → Option String
mode_of_room none = none
mode_of_room (some r) = some r.mode

-- `${matchState?.mode ?? room?.mode ?? ""}`
abbrev pub mode_text : Page → GameState → String
mode_text p g =
    get_or (or_else (elim g.match_state [ none ↦ none | some ms ↦ ms.mode ]) (mode_of_room p.room))
      ""

unfoldable pub is_translate_mode : Page → GameState → Bool
unfolding lower_includes
is_translate_mode p g =
    lower_includes (mode_text p g) "perevod"
    || (lower_includes (mode_text p g) "перевод" || lower_includes (mode_text p g) "перекид")

unfoldable pub can_translate : Page → GameState → Bool
can_translate p g =
    by_affordance (affordances_of g) (λ aff. aff.can_translate)
      (select_can_defend g p.current_user_id && is_translate_mode p g)

-- `buildTablePairs`; a pair has its answer under the name `defense`
unfoldable pub build_table_pairs : List Card → List Pile
build_table_pairs [] = []
build_table_pairs (a ∷ []) = record { attack = a; defend = none; defense = none } ∷ []
build_table_pairs (a ∷ d ∷ cards) =
    record { attack = a; defend = none; defense = some d } ∷ build_table_pairs cards

unfoldable pub pairs_of : MatchState → List Pile
pairs_of ms =
    let legacy = build_table_pairs (get_or ms.table_cards []) in
    let piles = get_or ms.table_piles [] in if is_empty piles then legacy else piles

unfoldable pub table_pairs : GameState → List Pile
unfolding pairs_of
table_pairs g = elim g.match_state [ none ↦ [] | some ms ↦ pairs_of ms ]

-- `pair.defense ?? pair.defend`
abbrev pub defense_card : Pile → Option Card
defense_card pair = or_else pair.defense pair.defend

abbrev pub id_of_seat : Option Seat → Option String
id_of_seat none = none
id_of_seat (some s) = some s.id

unfoldable pub attacker_id : GameState → Option String
attacker_id g = elim g.match_state [
  | none ↦ none
  | some ms ↦ or_else ms.attacker_player_id (id_of_seat (find_seat ms.seats ms.attacker_seat))
]

unfoldable pub defender_id : GameState → Option String
defender_id g = elim g.match_state [
  | none ↦ none
  | some ms ↦ or_else ms.defender_player_id (id_of_seat (find_seat ms.seats ms.defender_seat))
]

abbrev pub name_of_player : Player → Option String
name_of_player p = or_else p.display_name p.username

abbrev pub turn_by_seat : MatchState → Option String
turn_by_seat ms = elim (find_seat ms.seats ms.turn_seat_index) [
  | none ↦ none
  | some s ↦ some s.name
]

unfoldable pub turn_player_name : GameState → Option String
turn_player_name g = elim g.match_state [
  | none ↦ none
  | some ms ↦
      if truthy ms.turn_player_id
      then elim (find_by_id ms.turn_player_id (get_or ms.players [])) [
        | some p ↦ name_of_player p
        | none ↦ turn_by_seat ms
      ]
      else turn_by_seat ms
]
