-- ===== src/Bus.antt =====
-- The handlers of the server's events: src/shared/api/ws/events.ts, and how the session at a table
-- puts its own among them and takes them off (src/processes/joinGame.process.ts). A handler is known
-- by a number, as a function is by its identity; it works on a state `S`, in the surroundings `env`.
-- One list holds the sets of all types, in the order in which the handlers were added.
pub mod Delivery
pub mod Linked
use durak_card_game.Prelude.{
  ℕ, zero, suc, ◌+◌, String, not, List, [], ◌∷◌, ◌++◌, filter, eqb, if◌then◌else◌,
}
use durak_card_game.Join.State.{
  Env, World, ServerEvent, room_update, game_state, state_sync, state_diff, move_applied,
  timer_update, match_finished, error_event, version_mismatch, player_disconnected,
  player_afk_bot_takeover, player_reconnected,
}
use durak_card_game.Join.Room.{on_event}

-- `event.type`, as a number
abbrev pub type_of : ServerEvent → ℕ
type_of room_update = 0
type_of (game_state p) = 1
type_of (state_sync r m) = 2
type_of (state_diff r v p) = 3
type_of (move_applied p) = 4
type_of (timer_update p) = 5
type_of (match_finished p) = 6
type_of (error_event c m) = 7
type_of (version_mismatch p) = 8
type_of (player_disconnected r p) = 9
type_of (player_afk_bot_takeover r p) = 10
type_of (player_reconnected r p) = 11

-- the twelve types, in the order in which `joinGameRoom` listens to them
abbrev pub all_types : List ℕ
all_types = 0 ∷ 1 ∷ 2 ∷ 3 ∷ 4 ∷ 5 ∷ 6 ∷ 7 ∷ 8 ∷ 9 ∷ 10 ∷ 11 ∷ []

pub record Listener (S : Type 0) : Type 0 where
  pub id : ℕ
  pub type : ℕ
  pub handler : Env → ServerEvent → S → S

-- the sets of handlers, and the number that the next handler gets
pub record Bus (S : Type 0) : Type 0 where
  pub listeners : List (Listener S)
  pub next_id : ℕ

module _ {S : Type 0} where
  -- `onWsEvent`; the handler is wrapped in a test of the type
  unfoldable pub on_ws_event : ℕ → (Env → ServerEvent → S → S) → Bus S → Bus S
  on_ws_event type handler bus = record {
    listeners =
        bus.listeners
        ++ (record {
          id = bus.next_id;
          type = type;
          handler = λ env event s. if eqb (type_of event) type then handler env event s else s;
        })
          ∷ [];
    next_id = bus.next_id + 1;
  }

  -- the function that `onWsEvent` returns
  unfoldable pub off : ℕ → Bus S → Bus S
  off id bus = record bus { listeners = filter (λ l. not (eqb l.id id)) bus.listeners }

  unfoldable pub call_all : Env → ServerEvent → List (Listener S) → S → S
  call_all env event [] s = s
  call_all env event (l ∷ ls) s =
      call_all env event ls (if eqb (type_of event) l.type then l.handler env event s else s)

  -- `emitWsEvent`
  unfoldable pub emit_ws_event : Env → ServerEvent → Bus S → S → S
  unfolding call_all
  emit_ws_event env event bus s = call_all env event bus.listeners s

  unfoldable pub listen_to : List ℕ → (Env → ServerEvent → S → S) → Bus S → Bus S
  unfolding on_ws_event
  listen_to [] handler bus = bus
  listen_to (type ∷ types) handler bus = listen_to types handler (on_ws_event type handler bus)

  unfoldable pub off_from : ℕ → ℕ → Bus S → Bus S
  unfolding off
  off_from zero first bus = bus
  off_from (suc n) first bus = off_from n (first + 1) (off first bus)

-- the twelve calls of `onWsEvent` in `joinGameRoom`
unfoldable pub join_listeners : String → Bus World → Bus World
unfolding listen_to
join_listeners room_id bus = listen_to all_types (λ env event w. on_event env room_id event w) bus

-- the twelve calls that take them off again, in the function that `joinGameRoom` returns
unfoldable pub leave_listeners : ℕ → Bus World → Bus World
unfolding off_from
leave_listeners first bus = off_from 12 first bus
