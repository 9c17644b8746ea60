-- ===== src/Join/Frame.antt =====
-- The handlers that leave the state of the match alone.
use durak_card_game.Prelude.{ℕ, String, ◌≡◌, refl, true, Option, none, some, arith}
use durak_card_game.Match.{MatchState}
use durak_card_game.Store.{
  Store, clear_game_error, prune_stale_move_activity, add_activity_item, add_activity,
  set_game_ready, set_game_error, set_interaction_locked, set_reconnecting_player,
  set_is_finished_handled, set_match_finished_abandoned, set_match_result,
  reset_activity_for_match_finished, update,
}
use durak_card_game.Replay.{Buffer, flush, handle_move_applied, MoveApplied, Clock}
use durak_card_game.Replay.Guards.{IsKept, flush-keeps, handle_move_applied-keeps}
use durak_card_game.Tracker.{SyncMode}
use durak_card_game.Join.State.{Env, Session, World, FinishedPayload, MismatchPayload, session_host}
use durak_card_game.Join.Handlers.{
  on_room_update, on_state_sync, on_move_applied, on_timer_update, on_match_finished, on_error,
  on_version_mismatch, on_player_disconnected, on_bot_takeover, on_player_reconnected, note_version,
}

-- What the replay writes to the store is no state of the match.
pub match_state-IsKept :
    (env : Env) (ms : Option MatchState)
    → IsKept (session_host env) (λ s. s.store.state.match_state ≡ ms)
unfolding add_activity_item
match_state-IsKept env ms = record {
  add = λ m h new i. i;
  pending = λ n k h i. i;
  duplicate = λ h i. i;
  stale = λ h i. i;
  flushed = λ h i. i;
  versioned = λ h i. i;
  unversioned = λ h i. i;
}

pub flush-match_state :
    (env : Env) (s : Buffer × Session)
    → (flush (session_host env) s).1.store.state.match_state ≡ s.1.store.state.match_state
flush-match_state env s =
    flush-keeps (session_host env) _ (match_state-IsKept env s.1.store.state.match_state) s refl

pub handle-match_state :
    (env : Env) (p : MoveApplied) (clock : Clock) (s : Buffer × Session)
    → (handle_move_applied (session_host env) p clock s).1.store.state.match_state
      ≡ s.1.store.state.match_state
handle-match_state env p clock s =
    handle_move_applied-keeps (session_host env) _
      (match_state-IsKept env s.1.store.state.match_state) p clock s refl

pub clear_error-match_state :
    (s : Store) → (clear_game_error s).state.match_state ≡ s.state.match_state
unfolding clear_game_error
clear_error-match_state s = ground arith

pub prune-match_state :
    (v : Option ℕ) (s : Store)
    → (prune_stale_move_activity v s).state.match_state ≡ s.state.match_state
unfolding prune_stale_move_activity
prune-match_state none s = refl
prune-match_state (some v) s = ground arith

pub reset-match_state :
    (keep : ℕ) (s : Store)
    → (reset_activity_for_match_finished keep s).state.match_state ≡ s.state.match_state
unfolding reset_activity_for_match_finished
reset-match_state keep s = ground arith

pub note_version-match_state :
    (env : Env) (v : Option ℕ) (w : World)
    → (note_version env v w).session.store.state.match_state ≡ w.session.store.state.match_state
note_version-match_state env none w = refl
note_version-match_state env (some v) w = prune-match_state (some v) w.session.store

-- The other handlers leave the state of the match alone.
pub error-match_state :
    (env : Env) (code message : Option String) (w : World)
    → (on_error env code message w).session.store.state.match_state
      ≡ w.session.store.state.match_state
unfolding on_error set_game_error update
error-match_state env code message w = ground arith

pub finished-match_state :
    (env : Env) (room_id : String) (p : FinishedPayload) (w : World)
    → (on_match_finished env room_id p w).session.store.state.match_state
      ≡ w.session.store.state.match_state
unfolding on_match_finished set_is_finished_handled set_match_finished_abandoned add_activity
    set_match_result
finished-match_state env room_id p w = grind (arith, reset-match_state)

pub mismatch-match_state :
    (env : Env) (room_id : String) (p : MismatchPayload) (w : World)
    → (on_version_mismatch env room_id p w).session.store.state.match_state
      ≡ w.session.store.state.match_state
unfolding on_version_mismatch set_interaction_locked
mismatch-match_state env room_id p w =
    ground (arith, clear_error-match_state (set_interaction_locked true w.session.store))

pub move-match_state :
    (env : Env) (room_id : String) (p : MoveApplied) (w : World)
    → (on_move_applied env room_id p w).session.store.state.match_state
      ≡ w.session.store.state.match_state
unfolding on_move_applied
move-match_state env room_id p w =
    ground (arith, handle-match_state env p env.clock (w.buffer, w.session))

pub disconnected-match_state :
    (env : Env) (room_id room player : String) (w : World)
    → (on_player_disconnected env room_id room player w).session.store.state.match_state
      ≡ w.session.store.state.match_state
unfolding on_player_disconnected set_reconnecting_player add_activity
disconnected-match_state env room_id room player w = ground arith

pub takeover-match_state :
    (env : Env) (room_id room player : String) (w : World)
    → (on_bot_takeover env room_id room player w).session.store.state.match_state
      ≡ w.session.store.state.match_state
unfolding on_bot_takeover set_reconnecting_player add_activity
takeover-match_state env room_id room player w = ground arith

pub reconnected-match_state :
    (env : Env) (room_id room player : String) (w : World)
    → (on_player_reconnected env room_id room player w).session.store.state.match_state
      ≡ w.session.store.state.match_state
unfolding on_player_reconnected set_reconnecting_player add_activity
reconnected-match_state env room_id room player w = ground arith

pub room_update-match_state :
    (env : Env) (room_id : String) (w : World)
    → (on_room_update env room_id w).session.store.state.match_state
      ≡ w.session.store.state.match_state
unfolding on_room_update set_game_ready add_activity
room_update-match_state env room_id w = refl

pub timer-match_state :
    (env : Env) (player : String) (w : World)
    → (on_timer_update env player w).session.store.state.match_state
      ≡ w.session.store.state.match_state
unfolding on_timer_update add_activity
timer-match_state env player w = refl

pub sync-match_state :
    (env : Env) (room_id room : String) (mode : SyncMode) (w : World)
    → (on_state_sync env room_id room mode w).session.store.state.match_state
      ≡ w.session.store.state.match_state
unfolding on_state_sync
sync-match_state env room_id room mode w = ground arith
