-- ===== src/Socket.antt =====
-- The client of the server's socket: src/shared/api/ws/socket.ts. A socket is a number, and the
-- callbacks that `openSocket`, `attachSocket` and `scheduleReconnect` leave behind are functions of
-- what they close over: the room, the attempt and the socket. The browser's part is a `Wire`: which
-- sockets are open, what was sent on them, and the timers that were set. A socket is open from its
-- `open` event until its `close` event or a call of `close`.
pub mod Attempts
pub mod Backoff
pub mod Intents
use durak_card_game.Prelude.{
  ℕ, ◌+◌, ◌*◌, ◌^◌, String, Bool, true, false, not, ◌&&◌, ◌||◌, Option, none, some, List, [], ◌∷◌,
  ◌++◌, ◌==◌, ltb, eqb, min, same_text, truthy, get_or, is_some, any, filter, if◌then◌else◌,
}
use durak_card_game.Match.{MatchState}
use durak_card_game.Store.{Store, version_of, set_interaction_locked}
use durak_card_game.Join.State.{
  SyncRequest, MakeMove, ClientEvent, join_room, reconnect, make_move, confirm_stake, ServerEvent,
}

-- `IntentType`
pub data Intent : Type 0 where
  play_attack play_defend throw_in shuler_play translate take pass end_turn confirm_stake_intent
        shuler_report :
      Intent

-- the fields of an intent's payload that the code reads
pub record IntentPayload : Type 0 where
  pub room_id : Option String
  pub card_id : Option String

-- The fields of `WsClient`.
pub record Client : Type 0 where
  pub socket : Option ℕ
  pub connected_room_id : Option String
  pub reconnect_attempts : ℕ
  pub connect_attempt_id : ℕ
  pub is_connecting : Bool

-- a call of `window.setTimeout` by `scheduleReconnect`
pub record Timer : Type 0 where
  pub room_id : String
  pub attempt_id : ℕ
  pub delay : ℕ

pub record Wire : Type 0 where
  pub client : Client
  pub sockets_made : ℕ
  pub open_sockets : List ℕ
  pub frames : List (ℕ × ClientEvent)
  pub timers : List Timer
  -- the calls of the connection handler, `true` for a lost connection
  pub told : List Bool
  pub dispatched : List ServerEvent

abbrev pub is_open : ℕ → Wire → Bool
is_open s w = any (eqb s) w.open_sockets

-- `socket.close()`
abbrev pub close : ℕ → Wire → Wire
close s w = record w { open_sockets = filter (λ t. not (eqb t s)) w.open_sockets }

abbrev pub close_any : Option ℕ → List ℕ → List ℕ
close_any none sockets = sockets
close_any (some s) sockets = filter (λ t. not (eqb t s)) sockets

abbrev pub same_socket : Option ℕ → ℕ → Bool
same_socket none s = false
same_socket (some t) s = eqb t s

unfoldable pub is_attempt_current : String → ℕ → Wire → Bool
is_attempt_current room_id attempt_id w =
    same_text w.client.connected_room_id room_id && eqb w.client.connect_attempt_id attempt_id

unfoldable pub is_current_socket : ℕ → String → ℕ → Wire → Bool
is_current_socket s room_id attempt_id w =
    same_socket w.client.socket s && is_attempt_current room_id attempt_id w

abbrev pub transmit_on : Option ℕ → ClientEvent → Wire → Wire
transmit_on none event w = w
transmit_on (some s) event w =
    if is_open s w then record w { frames = w.frames ++ (s, event) ∷ [] } else w

-- `send`
unfoldable pub transmit : ClientEvent → Wire → Wire
transmit event w = transmit_on w.client.socket event w

unfoldable pub disconnect : Wire → Wire
disconnect w = record w {
  client = record (w.client) {
    connect_attempt_id = w.client.connect_attempt_id + 1;
    is_connecting = false;
    socket = none;
    connected_room_id = none;
  };
  open_sockets = close_any w.client.socket w.open_sockets;
}

-- `connect`, up to the call of `openSocket`, which waits for a ticket
unfoldable pub connect : String → Wire → Wire
connect room_id w =
    if same_text w.client.connected_room_id room_id
      && (is_some w.client.socket || w.client.is_connecting)
    then w
    else let u = disconnect w in
      record u {
        client = record (u.client) {
          connected_room_id = some room_id;
          connect_attempt_id = u.client.connect_attempt_id + 1;
          is_connecting = true;
        };
      }

abbrev pub reconnect_delay : ℕ → ℕ
reconnect_delay attempts = min (1000 * 2 ^ attempts) 10000

unfoldable pub schedule_reconnect : String → ℕ → Wire → Wire
schedule_reconnect room_id attempt_id w =
    if not (is_attempt_current room_id attempt_id w) then w else record w {
      client = record (w.client) { reconnect_attempts = w.client.reconnect_attempts + 1 };
      timers =
          w.timers
          ++ record {
            room_id = room_id;
            attempt_id = attempt_id;
            delay = reconnect_delay w.client.reconnect_attempts;
          }
            ∷ [];
    }

-- the callback of the timer
unfoldable pub on_timer : String → ℕ → Wire → Wire
on_timer room_id attempt_id w =
    if not (is_attempt_current room_id attempt_id w) then w else connect room_id w

-- `openSocket` from the ticket on
unfoldable pub on_ticket : String → ℕ → Wire → Wire
on_ticket room_id attempt_id w =
    if not (is_attempt_current room_id attempt_id w) then w else record w {
      sockets_made = w.sockets_made + 1;
      client = record (w.client) { socket = some w.sockets_made };
    }

-- the connection is lost: `connectionHandler?.("disconnect")`, and a new attempt later
abbrev pub give_up : String → ℕ → Wire → Wire
give_up room_id attempt_id w =
    schedule_reconnect room_id attempt_id (record w {
      client = record (w.client) { is_connecting = false };
      told = w.told ++ true ∷ [];
    })

-- the `catch` of `openSocket`
unfoldable pub on_ticket_failed : String → ℕ → Wire → Wire
on_ticket_failed room_id attempt_id w =
    if not (is_attempt_current room_id attempt_id w) then w else give_up room_id attempt_id w

abbrev pub known_match_id : Option MatchState → Option String
known_match_id none = none
known_match_id (some m) = if truthy m.match_id then m.match_id else none

abbrev pub hello_request : String → Option MatchState → SyncRequest
hello_request room_id known = record {
  room_id = room_id;
  last_known_version = version_of known;
  last_known_match_id = known_match_id known;
  supports_state_diff = true;
}

abbrev pub hello : Bool → String → Option MatchState → ClientEvent
hello again room_id known =
    if again
    then reconnect (hello_request room_id known)
    else join_room (hello_request room_id known)

-- the listener of `open`; the browser has opened the socket before it calls
unfoldable pub on_open : Option MatchState → ℕ → String → ℕ → Wire → Wire
on_open known s room_id attempt_id w =
    let u = record w { open_sockets = s ∷ w.open_sockets } in
    if not (is_current_socket s room_id attempt_id u)
    then close s u
    else transmit (hello (ltb 0 u.client.reconnect_attempts) room_id known) (record u {
      client = record (u.client) { is_connecting = false; reconnect_attempts = 0 };
      told = u.told ++ false ∷ [];
    })

-- the listener of `message`, the data parsed, with the packet disorder of the development off
unfoldable pub on_message : Option ServerEvent → ℕ → String → ℕ → Wire → Wire
on_message none s room_id attempt_id w = w
on_message (some event) s room_id attempt_id w =
    if not (is_current_socket s room_id attempt_id w)
    then w
    else record w { dispatched = w.dispatched ++ event ∷ [] }

-- the listener of `close`; the browser has closed the socket before it calls
unfoldable pub on_close : ℕ → String → ℕ → Wire → Wire
on_close s room_id attempt_id w =
    let u = close s w in
    if not (is_attempt_current room_id attempt_id u)
    then u
    else give_up room_id attempt_id (record u {
      client = record (u.client) {
        socket = if same_socket u.client.socket s then none else u.client.socket;
      };
    })

-- `mapIntentToWireAction`, where `none` is `null`
unfoldable pub map_intent_to_wire_action : Intent → Option String
map_intent_to_wire_action play_attack = some "attack_card"
map_intent_to_wire_action throw_in = some "throw_card"
map_intent_to_wire_action translate = some "translate"
map_intent_to_wire_action play_defend = some "defend_card"
map_intent_to_wire_action take = some "take_cards"
map_intent_to_wire_action pass = some "pass_turn"
map_intent_to_wire_action end_turn = some "pass_turn"
map_intent_to_wire_action shuler_play = some "shuler_play"
map_intent_to_wire_action shuler_report = some "shuler_report"
map_intent_to_wire_action confirm_stake_intent = none

abbrev pub intent_room : IntentPayload → Wire → Option String
intent_room p w = if truthy p.room_id then p.room_id else w.client.connected_room_id

abbrev pub move_of_intent : String → String → IntentPayload → ℕ → String → ClientEvent
move_of_intent room_id action p version action_id = make_move (record {
  room_id = room_id;
  action = action;
  card_id = if truthy p.card_id then p.card_id else none;
  expected_version = some version;
  action_id = action_id;
})

abbrev pub send_move : String → Option String → IntentPayload → String → Wire × Store → Wire × Store
send_move room_id none p action_id (w, store) = (w, store)
send_move room_id (some action) p action_id (w, store) = (
  transmit
      (move_of_intent room_id action p (get_or (version_of store.state.match_state) 0) action_id) w,
  set_interaction_locked true store,
)

-- `sendIntent` past the test of the room
abbrev pub send_in_room : String → Intent → IntentPayload → String → Wire × Store → Wire × Store
send_in_room room_id confirm_stake_intent p action_id (w, store) =
    (transmit (confirm_stake room_id) w, store)
send_in_room room_id intent p action_id (w, store) =
    send_move room_id (map_intent_to_wire_action intent) p action_id (w, store)

unfoldable pub send_intent : Intent → IntentPayload → String → Wire × Store → Wire × Store
send_intent intent p action_id (w, store) = elim (intent_room p w) [
  | none ↦ (w, store)
  | some room_id ↦
      if room_id == "" then (w, store) else send_in_room room_id intent p action_id (w, store)
]
