-- ===== src/Store.antt =====
-- The client's store of the match: src/store/game.store.ts. Each setter is a function from the
-- store to the store; `update` also records what each listener is given. Listeners are numbered;
-- they do not write to the store while they run. The clock and the language of the interface, as
-- `trRuntime` of src/shared/i18n/runtime.ts uses it, are arguments.
pub mod Versions
pub mod Activity
pub mod Calls
pub mod Distinct
use Prim.Native.String
use durak_card_game.Prelude.{
  ℕ, ◌-◌, String, Bool, true, false, not, Option, none, some, List, [], ◌∷◌, ◌++◌, map, leb, ltb,
  eqb, length, take_last, filter, any, truthy, if◌then◌else◌,
}
use durak_card_game.Prelude.Int.{ℤ}
use durak_card_game.Match.{MatchState}
use durak_card_game.EventId.{parse_move_version_from_event_id}

pub data Language : Type 0 where
  ru uk : Language

-- `trRuntime`
abbrev pub tr_runtime : Language → String → String → String
tr_runtime ru s t = s
tr_runtime uk s t = t

-- `ActivityMoveItem`
pub record MoveItem : Type 0 where
  pub event_id : String
  pub player_id : String
  pub action : String
  pub card_id : Option String
  pub timestamp : ℕ

pub data ActivityItem : Type 0 where
  move : MoveItem → ActivityItem
  system : String → ℕ → ActivityItem

pub record MatchResult : Type 0 where
  pub settlement_id : Option String
  pub net_results : List (String × ℤ)
  pub commission : Option ℤ
  pub pot : Option ℤ
  pub new_balances : Option (List (String × ℤ))
  pub abandoned : Option Bool

pub data Status : Type 0 where
  idle connecting ready error : Status

pub record GameState : Type 0 where
  pub room_id : Option String
  pub status : Status
  pub match_state : Option MatchState
  pub error : Option String
  pub activity : List ActivityItem
  pub reconnecting_player_id : Option String
  pub match_finished_abandoned : Bool
  pub match_result : Option MatchResult
  pub is_finished_handled : Bool
  pub display_balance : Option ℤ
  pub interaction_locked : Bool

-- the first value of `state`
abbrev pub initial_state : GameState
initial_state = record {
  room_id = none;
  status = idle;
  match_state = none;
  error = none;
  activity = [];
  reconnecting_player_id = none;
  match_finished_abandoned = false;
  match_result = none;
  is_finished_handled = false;
  display_balance = none;
  interaction_locked = false;
}

-- The module's variables, and the calls of listeners so far, oldest first.
pub record Store : Type 0 where
  pub state : GameState
  pub listeners : List ℕ
  pub calls : List (ℕ × GameState)

abbrev pub initial_store : Store
initial_store = record { state = initial_state; listeners = []; calls = [] }

-- `update(partial)`, the partial state given as what it does to the state
unfoldable pub update : (GameState → GameState) → Store → Store
update partial s =
    let next = partial s.state in
    record s { state = next; calls = s.calls ++ map (λ l. (l, next)) s.listeners }

abbrev pub activity_limit : ℕ
activity_limit = 50

abbrev pub stale_activity_version_window : ℕ
stale_activity_version_window = 80

-- `[...state.activity, item].slice(-ACTIVITY_LIMIT)`
unfoldable pub push_activity : ActivityItem → List ActivityItem → List ActivityItem
push_activity item activity = take_last activity_limit (activity ++ item ∷ [])

unfoldable pub set_game_connecting : String → Store → Store
unfolding update
set_game_connecting room_id = update λ g. record g {
  room_id = some room_id;
  status = connecting;
  error = none;
  match_result = none;
  is_finished_handled = false;
  activity = [];
  interaction_locked = false;
}

unfoldable pub set_interaction_locked : Bool → Store → Store
unfolding update
set_interaction_locked locked = update λ g. record g { interaction_locked = locked }

unfoldable pub set_game_ready : Store → Store
unfolding update
set_game_ready = update λ g. record g { status = ready; error = none }

unfoldable pub set_game_error : Language → ℕ → String → Store → Store
unfolding update
set_game_error language now message = update λ g. record g {
  status = error;
  error = some message;
  activity =
      push_activity
        (system (String.◌++◌ (tr_runtime language "Ошибка" "Помилка") (String.◌++◌ ": " message))
          now)
        g.activity;
}

unfoldable pub clear_game_error : Store → Store
unfolding update
clear_game_error s = if truthy s.state.error then update (λ g. record g { error = none }) s else s

unfoldable pub set_match_state : MatchState → Store → Store
unfolding update
set_match_state match_state = update λ g. record g { match_state = some match_state }

abbrev pub version_of : Option MatchState → Option ℕ
version_of none = none
version_of (some m) = m.version

-- `typeof currentVersion === "number" && incomingVersion <= currentVersion`; a missing incoming
-- version compares to nothing
abbrev pub is_stale : Option ℕ → Option ℕ → Bool
is_stale (some incoming) (some current) = leb incoming current
is_stale _ _ = false

unfoldable pub set_match_state_if_newer : MatchState → Store → Store
unfolding update
set_match_state_if_newer payload s =
    if is_stale payload.version (version_of s.state.match_state)
    then s
    else update (λ g. record g { match_state = some payload; interaction_locked = false }) s

unfoldable pub set_reconnecting_player : Option String → Store → Store
unfolding update
set_reconnecting_player player_id = update λ g. record g { reconnecting_player_id = player_id }

unfoldable pub set_match_finished_abandoned : Bool → Store → Store
unfolding update
set_match_finished_abandoned abandoned =
    update λ g. record g { match_finished_abandoned = abandoned }

unfoldable pub set_match_result : Option MatchResult → Store → Store
unfolding update
set_match_result result = update λ g. record g { match_result = result }

unfoldable pub set_is_finished_handled : Bool → Store → Store
unfolding update
set_is_finished_handled handled = update λ g. record g { is_finished_handled = handled }

unfoldable pub set_display_balance : Option ℤ → Store → Store
unfolding update
set_display_balance balance = update λ g. record g { display_balance = balance }

unfoldable pub add_activity : ℕ → String → Store → Store
unfolding update
add_activity now message =
    update λ g. record g { activity = push_activity (system message now) g.activity }

unfoldable pub add_activity_item : MoveItem → Store → Store
unfolding update
add_activity_item item = update λ g. record g { activity = push_activity (move item) g.activity }

abbrev pub is_system : ActivityItem → Bool
is_system (move m) = false
is_system (system message now) = true

unfoldable pub reset_activity_for_match_finished : ℕ → Store → Store
unfolding update
reset_activity_for_match_finished keep s =
    if eqb keep 0
    then update (λ g. record g { activity = [] }) s
    else update (λ g. record g { activity = take_last keep (filter is_system g.activity) }) s

-- A system item, a move with no version in its id, or one that is new enough.
unfoldable pub is_fresh : ℕ → ActivityItem → Bool
is_fresh min_version (system message now) = true
is_fresh min_version (move m) = elim (parse_move_version_from_event_id m.event_id) [
  | none ↦ true
  | some version ↦ leb min_version version
]

-- a missing version is no finite number
unfoldable pub prune_stale_move_activity : Option ℕ → Store → Store
unfolding update
prune_stale_move_activity none s = s
prune_stale_move_activity (some current_version) s =
    if leb current_version 0
    then s
    else let next =
        filter (is_fresh (current_version - stale_activity_version_window)) s.state.activity in
      if eqb (length next) (length s.state.activity)
      then s
      else update (λ g. record g { activity = next }) s

-- `listeners.add(listener)`, on a set in order of insertion
unfoldable pub subscribe_game_store : ℕ → Store → Store
subscribe_game_store listener s = record s {
  listeners = if any (eqb listener) s.listeners then s.listeners else s.listeners ++ listener ∷ [];
  calls = s.calls ++ (listener, s.state) ∷ [];
}

-- the function that `subscribeGameStore` returns
unfoldable pub unsubscribe : ℕ → Store → Store
unsubscribe listener s = record s { listeners = filter (λ l. not (eqb l listener)) s.listeners }
