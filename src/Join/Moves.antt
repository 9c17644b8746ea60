-- ===== src/Join/Moves.antt =====
-- The moves that are shown in the activity list through the events of a session.
use durak_card_game.Prelude.{
  ℕ, String, ◌≡◌, Bool, true, false, Option, none, some, List, [], ◌∷◌, Bool-cases, inl, inr, ◌==◌,
  ◌||◌, not, same_text, if◌then◌else◌,
}
use mathlib.Core.Path.{subst}
use durak_card_game.Match.{MatchState}
use durak_card_game.Store.{
  Store, is_stale, add_activity_item, add_activity, set_game_ready, set_interaction_locked,
  set_reconnecting_player, set_is_finished_handled, set_match_finished_abandoned, set_match_result,
  update,
}
use durak_card_game.Store.Activity.{AreDistinct, AreDistinct-push_activity}
use durak_card_game.Replay.{Buffer, flush, MoveApplied}
use durak_card_game.Replay.Guards.{IsKept, flush-keeps, handle_move_applied-keeps}
use durak_card_game.Join.State.{
  Env, Session, World, FinishedPayload, ServerEvent, room_update, game_state, state_sync,
  state_diff, move_applied, timer_update, match_finished, error_event, version_mismatch,
  player_disconnected, player_afk_bot_takeover, player_reconnected, session_host,
}
use durak_card_game.Join.Handlers.{
  on_room_update, on_game_state, on_state_sync, on_state_diff, on_move_applied, on_timer_update,
  on_match_finished, on_error, on_version_mismatch, on_player_disconnected, on_bot_takeover,
  on_player_reconnected, apply_diff, next_version, merge, note_version, is_intent_error,
  finish_message,
}
use durak_card_game.Tracker.{Snapshot}
use durak_card_game.Reconnect.{SocketStore}
use durak_card_game.Store.{set_game_connecting}
use durak_card_game.Join.Room.{
  on_event, on_sync_tick, request_sync, on_connection, Happening, event, tick, connection, happen,
  run_session, join_game_room, inside, admitted,
}
use durak_card_game.Store.Distinct.{
  HasDistinctMoves, clear_error-HasDistinctMoves, newer-HasDistinctMoves, prune-HasDistinctMoves,
  message-HasDistinctMoves, error-HasDistinctMoves, reset-HasDistinctMoves,
}

-- The replay publishes a move only where no move with its id is shown.
pub moves-IsKept : (env : Env) → IsKept (session_host env) (λ s. HasDistinctMoves s.store)
unfolding add_activity_item update
moves-IsKept env = record {
  add = λ m h new i. record { distinct = AreDistinct-push_activity _ _ i.distinct new };
  pending = λ n k h i. i;
  duplicate = λ h i. i;
  stale = λ h i. i;
  flushed = λ h i. i;
  versioned = λ h i. i;
  unversioned = λ h i. i;
}

-- A world whose store shows no move twice.
pub record IsDistinct (w : World) : Type 0 where
  pub store : HasDistinctMoves w.session.store

if-IsDistinct :
    (b : Bool) (w u : World) → IsDistinct w → IsDistinct u → IsDistinct (if b then w else u)
if-IsDistinct true w u h k = h
if-IsDistinct false w u h k = k

-- What is done to the store by an operation that keeps the activity.
kept : (w : World) → HasDistinctMoves w.session.store → IsDistinct w
kept w h = record { store = h }

flush-HasDistinctMoves :
    (env : Env) (s : Buffer × Session)
    → HasDistinctMoves s.1.store
    → HasDistinctMoves (flush (session_host env) s).1.store
flush-HasDistinctMoves env s h =
    flush-keeps (session_host env) (λ t. HasDistinctMoves t.store) (moves-IsKept env) s h

note_version-HasDistinctMoves :
    (env : Env) (v : Option ℕ) (w : World)
    → HasDistinctMoves w.session.store
    → HasDistinctMoves (note_version env v w).session.store
note_version-HasDistinctMoves env none w h = h
note_version-HasDistinctMoves env (some v) w h = prune-HasDistinctMoves (some v) w.session.store h

game_state-IsDistinct :
    (env : Env) (room_id : String) (p : MatchState) (w : World)
    → IsDistinct w
    → IsDistinct (on_game_state env room_id p w)
unfolding on_game_state
game_state-IsDistinct env room_id p w h = elim (Bool-cases (same_text p.room_id room_id)) [
  | inr other ↦ rw (other, on_game_state) h
  | inl ours ↦ record {
    store =
        rw (ours, on_game_state)
          (flush-HasDistinctMoves env _ (
            prune-HasDistinctMoves p.version _
              (newer-HasDistinctMoves p _ (clear_error-HasDistinctMoves w.session.store h.store))));
  }
]

apply_diff-IsDistinct :
    (env : Env) (room : String) (v : Option ℕ) (patch current : MatchState) (w : World)
    → IsDistinct w
    → IsDistinct (apply_diff env room v patch current w)
unfolding apply_diff
apply_diff-IsDistinct env room v patch current w h =
    if-IsDistinct (is_stale v current.version) w _ h (record {
      store = flush-HasDistinctMoves env _ (
          note_version-HasDistinctMoves env v _
            (newer-HasDistinctMoves (merge current patch v room) w.session.store h.store));
    })

state_diff-IsDistinct :
    (env : Env) (room_id room : String) (to_version : Option ℕ) (patch : MatchState) (w : World)
    → IsDistinct w
    → IsDistinct (on_state_diff env room_id room to_version patch w)
unfolding on_state_diff
state_diff-IsDistinct env room_id room to_version patch w h =
    if-IsDistinct (not (room == room_id)) w _ h
      (elim w.session.store.state.match_state
        as (λ found. IsDistinct (elim found [
          | none ↦ w
          | some current ↦
              apply_diff env room (next_version to_version patch current) patch current w
        ])) [
          | none ↦ h
          | some current ↦
              apply_diff-IsDistinct env room (next_version to_version patch current) patch current w
                h
        ])

move_applied-IsDistinct :
    (env : Env) (room_id : String) (p : MoveApplied) (w : World)
    → IsDistinct w
    → IsDistinct (on_move_applied env room_id p w)
unfolding on_move_applied
move_applied-IsDistinct env room_id p w h =
    if-IsDistinct (not (p.room_id == room_id) || p.player_id == "") w _ h (record {
      store =
          handle_move_applied-keeps (session_host env) (λ t. HasDistinctMoves t.store)
            (moves-IsKept env) p env.clock (w.buffer, w.session) h.store;
    })

error_event-IsDistinct :
    (env : Env) (code message : Option String) (w : World)
    → IsDistinct w
    → IsDistinct (on_error env code message w)
unfolding on_error
error_event-IsDistinct env code message w h =
    if-IsDistinct (same_text code "VERSION_MISMATCH") w _ h (
      if-IsDistinct (is_intent_error code) _ _
        (record { store = error-HasDistinctMoves _ _ _ w.session.store h.store })
        (record { store = error-HasDistinctMoves _ _ _ w.session.store h.store }))

finished-IsDistinct :
    (env : Env) (room_id : String) (p : FinishedPayload) (w : World)
    → IsDistinct w
    → IsDistinct (on_match_finished env room_id p w)
unfolding on_match_finished set_is_finished_handled set_match_finished_abandoned set_match_result
    update add_activity
finished-IsDistinct env room_id p w h = if-IsDistinct (not (p.room_id == room_id)) w _ h (
    if-IsDistinct w.session.store.state.is_finished_handled w _ h (
      let shown =
        (message-HasDistinctMoves env.clock.now (finish_message env p) w.session.store
          h.store).distinct in
      if-IsDistinct env.reset_activity_on_match_finish _ _
        (record { store = reset-HasDistinctMoves 2 _ (record { distinct = shown }) })
        (record { store = record { distinct = shown } })))

on_event-IsDistinct :
    (env : Env) (room_id : String) (e : ServerEvent) (w : World)
    → IsDistinct w
    → IsDistinct (on_event env room_id e w)
unfolding on_event on_room_update set_game_ready update on_state_sync on_timer_update
    on_player_disconnected on_bot_takeover on_player_reconnected set_reconnecting_player
    on_version_mismatch set_interaction_locked
on_event-IsDistinct env room room_update w h = record {
  store = message-HasDistinctMoves _ _ _ (record { distinct = h.store.distinct });
}
on_event-IsDistinct env room (game_state p) w h = game_state-IsDistinct env room p w h
on_event-IsDistinct env room (state_sync r mode) w h =
    if-IsDistinct (not (r == room)) w _ h (record { store = h.store })
on_event-IsDistinct env room (state_diff r to patch) w h =
    state_diff-IsDistinct env room r to patch w h
on_event-IsDistinct env room (move_applied p) w h = move_applied-IsDistinct env room p w h
on_event-IsDistinct env room (timer_update p) w h = record {
  store = message-HasDistinctMoves _ _ w.session.store h.store;
}
on_event-IsDistinct env room (match_finished p) w h = finished-IsDistinct env room p w h
on_event-IsDistinct env room (error_event c m) w h = error_event-IsDistinct env c m w h
on_event-IsDistinct env room (version_mismatch p) w h =
    if-IsDistinct (not (p.room_id == room)) w _ h
      (record { store = clear_error-HasDistinctMoves _ (record { distinct = h.store.distinct }) })
on_event-IsDistinct env room (player_disconnected r p) w h =
    if-IsDistinct _ _ w
      (record { store = message-HasDistinctMoves _ _ _ (record { distinct = h.store.distinct }) }) h
on_event-IsDistinct env room (player_afk_bot_takeover r p) w h =
    if-IsDistinct _ w _ h
      (record { store = message-HasDistinctMoves _ _ _ (record { distinct = h.store.distinct }) })
on_event-IsDistinct env room (player_reconnected r p) w h =
    if-IsDistinct _ _ w
      (record { store = message-HasDistinctMoves _ _ _ (record { distinct = h.store.distinct }) }) h

tick-IsDistinct :
    (env : Env) (room_id : String) (w : World)
    → IsDistinct w
    → IsDistinct (on_sync_tick env room_id w)
unfolding on_sync_tick
tick-IsDistinct env room_id w h =
    elim w.session.store.state.match_state
      as (λ found. IsDistinct (elim found [ none ↦ w | some m ↦ request_sync env room_id m w ])) [
        | none ↦ h
        | some m ↦ if-IsDistinct _ _ w (record { store = h.store }) h
      ]

happen-IsDistinct :
    (room_id : String) (h : Env × Happening) (w : World)
    → IsDistinct w
    → IsDistinct (happen room_id h w)
unfolding happen on_connection
happen-IsDistinct room_id (env, event e) w k = on_event-IsDistinct env room_id e w k
happen-IsDistinct room_id (env, tick) w k = tick-IsDistinct env room_id w k
happen-IsDistinct room_id (env, connection lost) w k = record { store = k.store }

run-IsDistinct :
    (room_id : String) (hs : List (Env × Happening)) (w : World)
    → IsDistinct w
    → IsDistinct (run_session room_id hs w)
unfolding run_session
run-IsDistinct room_id [] w k = k
run-IsDistinct room_id (h ∷ hs) w k =
    run-IsDistinct room_id hs (happen room_id h w) (happen-IsDistinct room_id h w k)

inside_inj : (w u : World) → inside w ≡ inside u → w ≡ u
inside_inj w u e = cc e

-- In every session, from joining a room on, no two moves in the activity list have the same id,
-- whatever events arrive and in whatever order, repeated ones included.
pub run_session-IsDistinct :
    (env : Env) (room_id : String) (published : List (String × Snapshot)) (socket : SocketStore)
    (store : Store) (w : World) (hs : List (Env × Happening))
    → join_game_room env room_id admitted published socket store ≡ inside w
    → AreDistinct (run_session room_id hs w).session.store.state.activity
unfolding join_game_room set_game_connecting update
run_session-IsDistinct env room_id published socket store w hs e =
    (run-IsDistinct room_id hs w (
      subst IsDistinct (inside_inj _ w e)
        (record { store = record { distinct = tt } }))).store.distinct
