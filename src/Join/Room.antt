-- ===== src/Join/Room.antt =====
-- Joining a room, its events in the order in which they arrive, the fallback timer, and leaving:
-- src/processes/joinGame.process.ts.
use Prim.Native.String
use durak_card_game.Prelude.{
  ℕ, ◌+◌, String, Bool, true, false, ◌&&◌, none, some, List, [], ◌∷◌, ltb, same_text, if◌then◌else◌,
}
use durak_card_game.Match.{MatchState}
use durak_card_game.Store.{
  Store, set_game_connecting, set_game_ready, set_game_error, set_match_state,
  set_reconnecting_player, set_match_finished_abandoned, add_activity,
}
use durak_card_game.Tracker as Counters
use durak_card_game.Tracker.{Tracker, Settings, SyncMode, Snapshot}
use durak_card_game.Replay.{empty_buffer}
use durak_card_game.Reconnect.{SocketStore, set_socket_reconnecting}
use durak_card_game.Join.State.{
  Env, SyncRequest, sync_request, World, ServerEvent, room_update, game_state, state_sync,
  state_diff, move_applied, timer_update, match_finished, error_event, version_mismatch,
  player_disconnected, player_afk_bot_takeover, player_reconnected, on_store, on_tracker, now, tr,
}
use durak_card_game.Join.Handlers.{
  on_room_update, on_game_state, on_state_sync, on_state_diff, on_move_applied, on_timer_update,
  on_match_finished, on_error, on_version_mismatch, on_player_disconnected, on_bot_takeover,
  on_player_reconnected, send, nonempty,
}

abbrev pub sync_fallback_ms : ℕ
sync_fallback_ms = 5000

abbrev pub sync_of : String → MatchState → SyncRequest
sync_of room_id m = record {
  room_id = room_id;
  last_known_version = m.version;
  last_known_match_id = nonempty m.match_id;
  supports_state_diff = true;
}

-- What the request to join, and the build's setting for the mock, come to.
pub data JoinReply : Type 0 where
  refused : JoinReply
  mocked : MatchState → JoinReply
  admitted : JoinReply

-- Outside a session only the store is left; the session works on a world.
pub data Joined : Type 0 where
  outside : Store → Joined
  inside : World → Joined

module _ (env : Env) where
  -- `joinGameRoom` up to the first event; `tracker` has the snapshots that are published so far
  unfoldable pub join_game_room :
      String → JoinReply → List (String × Snapshot) → SocketStore → Store → Joined
  join_game_room room_id refused published socket store = outside (
      set_game_error env.language (now env)
        (tr env "Не удалось войти в комнату" "Не вдалося увійти в кімнату")
        (set_game_connecting room_id store))
  join_game_room room_id (mocked match_state) published socket store = outside (
      set_match_state match_state (
        add_activity (now env)
          (tr env (String.◌++◌ "Mock: вход в комнату " room_id)
            (String.◌++◌ "Mock: вхід у кімнату " room_id))
          (set_game_ready (set_game_connecting room_id store))))
  join_game_room room_id admitted published socket store = inside (record {
    session = record {
      store = set_game_connecting room_id store;
      tracker = Counters.new_tracker env.settings room_id (now env) published;
    };
    buffer = empty_buffer;
    last_game_state_at = now env;
    socket = socket;
    sent = [];
    intent_errors = [];
  })

  abbrev pub request_sync : String → MatchState → World → World
  request_sync room_id m w =
      if same_text m.status "playing" && ltb (w.last_game_state_at + sync_fallback_ms) (now env)
      then send (sync_request (sync_of room_id m))
          (on_tracker (Counters.inc_sync_request env.settings (now env)) w)
      else w

  -- the callback of `window.setInterval`
  unfoldable pub on_sync_tick : String → World → World
  on_sync_tick room_id w = elim w.session.store.state.match_state [
    | none ↦ w
    | some m ↦ request_sync room_id m w
  ]

  unfoldable pub on_event : String → ServerEvent → World → World
  on_event room_id room_update = on_room_update env room_id
  on_event room_id (game_state payload) = on_game_state env room_id payload
  on_event room_id (state_sync room mode) = on_state_sync env room_id room mode
  on_event room_id (state_diff room to_version patch) =
      on_state_diff env room_id room to_version patch
  on_event room_id (move_applied payload) = on_move_applied env room_id payload
  on_event room_id (timer_update turn_player_id) = on_timer_update env turn_player_id
  on_event room_id (match_finished payload) = on_match_finished env room_id payload
  on_event room_id (error_event code message) = on_error env code message
  on_event room_id (version_mismatch payload) = on_version_mismatch env room_id payload
  on_event room_id (player_disconnected room player_id) =
      on_player_disconnected env room_id room player_id
  on_event room_id (player_afk_bot_takeover room player_id) =
      on_bot_takeover env room_id room player_id
  on_event room_id (player_reconnected room player_id) =
      on_player_reconnected env room_id room player_id

  -- `setConnectionHandler((event) => …)`
  unfoldable pub on_connection : Bool → World → World
  on_connection lost w = record w { socket = set_socket_reconnecting lost w.socket }

  -- the function that `joinGameRoom` returns, but for the listeners that it takes off
  unfoldable pub leave : World → World
  leave w = on_tracker (Counters.dispose env.settings (now env)) (
      on_store (λ s. set_match_finished_abandoned false (set_reconnecting_player none s))
        (record w { socket = set_socket_reconnecting false w.socket }))

-- What can happen in a room: an event of the server, a tick of the fallback timer, the socket
-- lost or found.
pub data Happening : Type 0 where
  event : ServerEvent → Happening
  tick : Happening
  connection : Bool → Happening

unfoldable pub happen : String → Env × Happening → World → World
happen room_id (env, event e) = on_event env room_id e
happen room_id (env, tick) = on_sync_tick env room_id
happen room_id (env, connection lost) = on_connection env lost

-- All that happens in a session, in order, each with its own clock.
unfoldable pub run_session : String → List (Env × Happening) → World → World
run_session room_id [] w = w
run_session room_id (h ∷ rest) w = run_session room_id rest (happen room_id h w)
