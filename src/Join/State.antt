-- ===== src/Join/State.antt =====
-- The state of a session and its messages: the variables of `joinGameRoom` in
-- src/processes/joinGame.process.ts, and the payloads of src/shared/api/ws/types.ts that it uses.
use durak_card_game.Prelude.{ℕ, String, Bool, Option, List}
use durak_card_game.Prelude.Int.{ℤ}
use durak_card_game.Match.{MatchState}
use durak_card_game.Store.{Language, tr_runtime, Store, version_of, add_activity_item}
use durak_card_game.Store.Activity.{has_move}
use durak_card_game.Tracker as Counters
use durak_card_game.Tracker.{Tracker, Settings, SyncMode, Snapshot}
use durak_card_game.Replay.{MoveApplied, Clock, Host, Buffer}
use durak_card_game.ErrorText.{ErrorText}
use durak_card_game.Reconnect.{SocketStore}

pub record Env : Type 0 where
  pub language : Language
  pub clock : Clock
  pub random_uuid : String
  pub settings : Settings
  pub reset_activity_on_match_finish : Bool

-- `SyncRequestPayload`
pub record SyncRequest : Type 0 where
  pub room_id : String
  pub last_known_version : Option ℕ
  pub last_known_match_id : Option String
  pub supports_state_diff : Bool

pub record MakeMove : Type 0 where
  pub room_id : String
  pub action : String
  pub card_id : Option String
  pub expected_version : Option ℕ
  pub action_id : String

-- the payload of `create_room`
pub record NewRoom : Type 0 where
  pub title : String
  pub stake : ℕ
  pub mode : String
  pub deck : ℕ

pub data ClientEvent : Type 0 where
  join_room reconnect sync_request : SyncRequest → ClientEvent
  make_move : MakeMove → ClientEvent
  ready confirm_join start_game confirm_stake : String → ClientEvent
  create_room : NewRoom → ClientEvent
  send_message : String → String → ClientEvent

-- What the callbacks of the replay buffer work on.
pub record Session : Type 0 where
  pub store : Store
  pub tracker : Tracker

pub record World : Type 0 where
  pub session : Session
  pub buffer : Buffer
  pub last_game_state_at : ℕ
  pub socket : SocketStore
  pub sent : List ClientEvent
  pub intent_errors : List ErrorText

pub record FinishedPayload : Type 0 where
  pub room_id : String
  pub winner_player_id : Option String
  pub abandoned : Option Bool
  pub settlement_id : Option String
  pub payouts : Option (List (String × ℤ))
  pub commission : Option ℤ
  pub pot : Option ℤ
  pub new_balances : Option (List (String × ℤ))

pub record MismatchPayload : Type 0 where
  pub room_id : String
  pub action : Option String
  pub card_id : Option String
  pub action_id : Option String

-- The events of the server that the process listens to.
pub data ServerEvent : Type 0 where
  room_update : ServerEvent
  game_state : MatchState → ServerEvent
  state_sync : String → SyncMode → ServerEvent
  state_diff : String → Option ℕ → MatchState → ServerEvent
  move_applied : MoveApplied → ServerEvent
  timer_update : String → ServerEvent
  match_finished : FinishedPayload → ServerEvent
  error_event : Option String → Option String → ServerEvent
  version_mismatch : MismatchPayload → ServerEvent
  player_disconnected player_afk_bot_takeover player_reconnected : String → String → ServerEvent

abbrev pub on_store : (Store → Store) → World → World
on_store f w = record w { session = record (w.session) { store = f w.session.store } }

abbrev pub on_tracker : (Tracker → Tracker) → World → World
on_tracker f w = record w { session = record (w.session) { tracker = f w.session.tracker } }

abbrev pub session_version : Session → Option ℕ
session_version s = version_of s.store.state.match_state

abbrev pub on_session_tracker : (Tracker → Tracker) → Session → Session
on_session_tracker f s = record s { tracker = f s.tracker }

abbrev pub with_replay : (Buffer × Session → Buffer × Session) → World → World
with_replay f w = let s = f (w.buffer, w.session) in record w { buffer = s.0; session = s.1 }

module _ (env : Env) where
  abbrev pub now : ℕ
  now = env.clock.now

  abbrev pub tr : String → String → String
  tr = tr_runtime env.language

  -- the options that `joinGameRoom` gives to the replay buffer
  abbrev pub session_host : Host Session
  session_host = record {
    get_current_version = session_version;
    has_move_event_id = λ id s. has_move id s.store.state.activity;
    add_buffered_move = λ m s. record s {
      store =
          add_activity_item
            (record {
              event_id = m.event_id;
              player_id = m.player_id;
              action = m.action;
              card_id = m.card_id;
              timestamp = m.received_at;
            })
            s.store;
    };
    update_pending = λ n k. on_session_tracker (Counters.update_pending env.settings n k now);
    inc_dropped_duplicate = on_session_tracker (Counters.inc_dropped_duplicate env.settings now);
    inc_dropped_stale = on_session_tracker (Counters.inc_dropped_stale env.settings now);
    inc_flushed = on_session_tracker (Counters.inc_flushed env.settings now);
    inc_buffered_versioned = on_session_tracker (Counters.inc_buffered_versioned env.settings now);
    inc_buffered_unversioned =
        on_session_tracker (Counters.inc_buffered_unversioned env.settings now);
  }
