-- ===== src/Socket/Intents.antt =====
-- What becomes of a player's intent.
use durak_card_game.Prelude.{
  ℕ, String, ◌≡◌, ap, get_or, Bool, true, false, Option, none, some, ◌==◌, is_some, if◌then◌else◌,
}
use durak_card_game.Store.{Store, version_of, set_interaction_locked}
use durak_card_game.Socket.{
  Intent, IntentPayload, Wire, is_open, transmit, intent_room, send_intent, send_in_room, send_move,
  move_of_intent, map_intent_to_wire_action, confirm_stake_intent, play_attack, play_defend,
  throw_in, shuler_play, translate, take, pass, end_turn, shuler_report,
}

-- The client has a socket, and it is open.
abbrev pub is_live : Option ℕ → Wire → Bool
is_live none w = false
is_live (some s) w = is_open s w

-- The intents that are moves lock the table.
abbrev pub lock_after : Intent → Store → Bool
lock_after i store =
    if is_some (map_intent_to_wire_action i) then true else store.state.interaction_locked

moved :
    (room : String) (p : IntentPayload) (id : String) (w : Wire) (store : Store)
    {o u : Option String}
    → o ≡ u
    → send_move room o p id (w, store) ≡ send_move room u p id (w, store)
moved room p id w store e = ap (λ named. send_move room named p id (w, store)) e

send_in_room-moves :
    (room action : String) (i : Intent) (p : IntentPayload) (id : String) (w : Wire) (store : Store)
    → map_intent_to_wire_action i ≡ some action
    → send_in_room room i p id (w, store) ≡ send_move room (some action) p id (w, store)
unfolding map_intent_to_wire_action
send_in_room-moves room action confirm_stake_intent p id w store named = cc named
send_in_room-moves room action play_attack p id w store named = moved room p id w store named
send_in_room-moves room action play_defend p id w store named = moved room p id w store named
send_in_room-moves room action throw_in p id w store named = moved room p id w store named
send_in_room-moves room action shuler_play p id w store named = moved room p id w store named
send_in_room-moves room action translate p id w store named = moved room p id w store named
send_in_room-moves room action take p id w store named = moved room p id w store named
send_in_room-moves room action pass p id w store named = moved room p id w store named
send_in_room-moves room action end_turn p id w store named = moved room p id w store named
send_in_room-moves room action shuler_report p id w store named = moved room p id w store named

-- An intent that names a move, in a room, is the message of that move, and the lock.
pub send_intent-moves :
    (i : Intent) (p : IntentPayload) (id room action : String) (w : Wire) (store : Store)
    → map_intent_to_wire_action i ≡ some action
    → intent_room p w ≡ some room
    → (room == "") ≡ false
    → send_intent i p id (w, store) ≡ (
      transmit (move_of_intent room action p (get_or (version_of store.state.match_state) 0) id) w,
      set_interaction_locked true store,
    )
unfolding send_intent
send_intent-moves i p id room action w store named there known =
    rw (there, known, send_intent) (send_in_room-moves room action i p id w store named)
