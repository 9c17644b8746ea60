-- ===== src/Selectors.antt =====
-- What the table shows a player: src/entities/game/model/selectors.ts.
pub mod Ordered
pub mod Seats
pub mod Laws
use durak_card_game.Prelude.{
  ℕ, ◌+◌, eqb, truthy, String, Bool, true, false, not, ◌&&◌, ◌||◌, Option, none, some, List, [],
  ◌∷◌, ◌++◌, map, ◌==◌, ltb, leb, length, get_elem?, take, drop, find, includes, same_text, or_else,
  get_or, is_empty, lower_includes, if◌then◌else◌,
}
use durak_card_game.Prelude.Int.{ℤ, pos, negsuc, eqb_ℤ}
use durak_card_game.Match.{Phase, Player, Seat, Affordances, Shuler, MatchState}
use durak_card_game.Store.{GameState, Status, ready}

-- `rawPhase`; `none` is the empty text
abbrev pub raw_phase : Option MatchState → Option Phase
raw_phase none = none
raw_phase (some ms) = ms.phase

abbrev pub is_phase_attack : Option Phase → Bool
is_phase_attack (some Phase.attack) = true
is_phase_attack _ = false

abbrev pub is_phase_defend : Option Phase → Bool
is_phase_defend (some Phase.defend) = true
is_phase_defend _ = false

abbrev pub is_phase_betting : Option Phase → Bool
is_phase_betting (some Phase.betting) = true
is_phase_betting _ = false

abbrev pub is_phase_result : Option Phase → Bool
is_phase_result (some Phase.result) = true
is_phase_result _ = false

unfoldable pub is_playing_phase : Option Phase → Bool
is_playing_phase (some Phase.playing) = true
is_playing_phase phase = is_phase_attack phase || is_phase_defend phase

abbrev pub length_or_zero {ℓ} : {A : Type ℓ} → Option (List A) → ℕ
length_or_zero none = 0
length_or_zero (some xs) = length xs

unfoldable pub get_table_card_count : MatchState → ℕ
get_table_card_count ms =
    if ltb 0 (length_or_zero ms.table_piles)
    then length_or_zero ms.table_piles
    else length_or_zero ms.table_cards

-- `xs[i]` for a number `i`, which may be negative
abbrev pub at_index {ℓ} : {A : Type ℓ} → List A → ℤ → Option A
at_index xs (pos i) = get_elem? xs i
at_index xs (negsuc i) = none

-- The count of a player's own entry, or of the cards that it shows.
abbrev pub count_of_player : Option Player → Option ℕ
count_of_player none = none
count_of_player (some me) =
    or_else me.hand_count (elim me.hand [ none ↦ none | some hand ↦ some (length hand) ])

abbrev pub count_of_seat : Option Seat → Option ℕ
count_of_seat none = none
count_of_seat (some seat) = seat.card_count

abbrev pub find_player : Option String → Option (List Player) → Option Player
find_player (some me) (some players) = if me == "" then none else find (λ p. p.id == me) players
find_player _ _ = none

abbrev pub find_seat : Option (List Seat) → Option ℤ → Option Seat
find_seat (some seats) (some index) = at_index seats index
find_seat _ _ = none

unfoldable pub get_my_hand_count : MatchState → Option String → ℕ
get_my_hand_count ms user =
    get_or
      (or_else (count_of_player (find_player user ms.players))
        (count_of_seat (find_seat ms.seats ms.my_seat_index)))
      0

-- What `selectCurrentPhase` tells apart.
pub data CurrentPhase : Type 0 where
  betting playing result : CurrentPhase

unfoldable pub phase_of : MatchState → Option CurrentPhase
unfolding is_playing_phase
phase_of ms =
    if is_phase_result ms.phase || same_text ms.status "finished"
    then some result
    else if is_playing_phase ms.phase
    then some playing
    else if is_phase_betting ms.phase
    then some betting
    else none

unfoldable pub select_current_phase : GameState → Option CurrentPhase
select_current_phase state = elim state.match_state [ none ↦ none | some ms ↦ phase_of ms ]

abbrev pub is_playing : Option CurrentPhase → Bool
is_playing (some playing) = true
is_playing _ = false

unfoldable pub select_my_seat_index : GameState → ℤ
select_my_seat_index state = elim state.match_state [
  | none ↦ negsuc 0
  | some ms ↦ get_or ms.my_seat_index (negsuc 0)
]

-- The guard that most selectors begin with: a state of the match, and the playing phase.
abbrev pub while_playing : GameState → (MatchState → Bool) → Bool
while_playing state body = elim state.match_state [
  | none ↦ false
  | some ms ↦ if is_playing (select_current_phase state) then body ms else false
]

-- `currentUserId` is there and not empty.
abbrev pub with_user : Option String → (String → Bool) → Bool
with_user none body = false
with_user (some me) body = if me == "" then false else body me

-- The server's word, where it sent one.
abbrev pub by_affordance : Option Affordances → (Affordances → Bool) → Bool → Bool
by_affordance none allowed legacy = legacy
by_affordance (some a) allowed legacy = allowed a

-- `typeof ms.turnSeatIndex === "number"` and it is the player's own, known seat
abbrev pub seat_turn : Option ℤ → ℤ → Bool
seat_turn turn (negsuc n) = false
seat_turn none (pos i) = false
seat_turn (some turn) (pos i) = eqb_ℤ turn (pos i)

unfoldable pub select_is_my_turn : GameState → Option String → Bool
select_is_my_turn state user = while_playing state λ ms. with_user user λ me.
    if truthy ms.turn_player_id
    then same_text ms.turn_player_id me
    else seat_turn ms.turn_seat_index (select_my_seat_index state)

unfoldable pub select_is_attacker : GameState → Option String → Bool
select_is_attacker state user = elim state.match_state [
  | none ↦ false
  | some ms ↦ select_is_my_turn state user && is_phase_attack ms.phase
]

unfoldable pub select_is_defender : GameState → Option String → Bool
select_is_defender state user = elim state.match_state [
  | none ↦ false
  | some ms ↦ select_is_my_turn state user && is_phase_defend ms.phase
]

abbrev pub is_full : Option ℕ → ℕ → Bool
is_full none count = false
is_full (some capacity) count = ltb 0 capacity && leb capacity count

unfoldable pub select_can_attack : GameState → Option String → Bool
select_can_attack state user = while_playing state λ ms.
    by_affordance ms.affordances (λ a. a.can_attack)
      (if not (select_is_attacker state user)
        then false
        else if is_full ms.capacity_on_table (get_table_card_count ms)
        then false
        else ltb 0 (get_my_hand_count ms user))

unfoldable pub select_can_defend : GameState → Option String → Bool
select_can_defend state user = while_playing state λ ms.
    by_affordance ms.affordances (λ a. a.can_defend)
      (if not (select_is_defender state user)
        then false
        else if eqb (get_table_card_count ms) 0
        then false
        else ltb 0 (get_my_hand_count ms user))

unfoldable pub select_can_throw : GameState → Option String → Bool
select_can_throw state user = while_playing state λ ms. with_user user λ me.
    by_affordance ms.affordances (λ a. a.can_throw_in)
      (if not (is_phase_attack ms.phase)
        then false
        else if select_is_my_turn state user
        then false
        else if same_text ms.defender_player_id me
        then false
        else if eqb (get_table_card_count ms) 0
        then false
        else ltb 0 (get_my_hand_count ms user))

abbrev pub shuler_has : Option Shuler → String → Bool
shuler_has none me = false
shuler_has (some shuler) me = includes shuler.active_players me

unfoldable pub select_can_shuler_play : GameState → Option String → Bool
select_can_shuler_play state user = while_playing state λ ms. with_user user λ me.
    by_affordance ms.affordances (λ a. a.can_shuler_play)
      (if not (is_phase_defend ms.phase)
        then false
        else if not (select_is_my_turn state user)
        then false
        else if not (shuler_has ms.shuler me)
        then false
        else if eqb (get_table_card_count ms) 0
        then false
        else ltb 0 (get_my_hand_count ms user))

unfoldable pub select_can_take : GameState → Option String → Bool
select_can_take state user = while_playing state λ ms.
    by_affordance ms.affordances (λ a. a.can_take)
      (if not (select_is_defender state user) then false else ltb 0 (get_table_card_count ms))

unfoldable pub select_can_pass : GameState → Option String → Bool
select_can_pass state user = while_playing state λ ms.
    by_affordance ms.affordances (λ a. a.can_pass)
      (if not (select_is_attacker state user) then false else ltb 0 (get_table_card_count ms))

unfoldable pub is_translate_mode : String → Bool
is_translate_mode mode = lower_includes mode "perevod" || lower_includes mode "перевод"

unfoldable pub select_can_translate : GameState → Option String → Bool
select_can_translate state user = while_playing state λ ms.
    by_affordance ms.affordances (λ a. a.can_translate)
      (is_translate_mode (get_or ms.mode "") && select_can_defend state user)

abbrev pub window_open : Option Shuler → Bool
window_open none = false
window_open (some shuler) = shuler.is_window_open

unfoldable pub select_can_shuler_report : GameState → Option String → Bool
select_can_shuler_report state user = while_playing state λ ms. with_user user λ me.
    by_affordance ms.affordances (λ a. a.can_shuler_report)
      (window_open ms.shuler && not (shuler_has ms.shuler me))

abbrev pub is_ready : Status → Bool
is_ready ready = true
is_ready _ = false

unfoldable pub select_can_act : GameState → Option String → Bool
select_can_act state user =
    is_ready state.status
    && while_playing state λ ms.
      by_affordance ms.affordances (λ a. a.can_act)
        (select_can_attack state user
          || (select_can_defend state user
              || (select_can_translate state user
                  || (select_can_shuler_play state user
                      || (select_can_throw state user
                          || (select_can_take state user
                              || (select_can_pass state user
                                  || select_can_shuler_report state user)))))))
