-- ===== src/Join/InStep.antt =====
-- The moves that are shown are not ahead of the state of the match.
use durak_card_game.Prelude.{
  ℕ, String, ◌≡◌, Option, none, some, List, [], ◌∷◌, ◌==◌, not, same_text,
}
use durak_card_game.Match.{MatchState}
use durak_card_game.Store.{
  add_activity, set_game_ready, set_interaction_locked, set_reconnecting_player,
  set_is_finished_handled, set_match_finished_abandoned, set_match_result, update,
}
use durak_card_game.Join.State.{
  Env, World, FinishedPayload, ServerEvent, room_update, game_state, state_sync, state_diff,
  move_applied, timer_update, match_finished, error_event, version_mismatch, player_disconnected,
  player_afk_bot_takeover, player_reconnected,
}
use durak_card_game.Join.Handlers.{
  on_room_update, on_state_sync, on_timer_update, on_match_finished, on_error, on_version_mismatch,
  on_player_disconnected, on_bot_takeover, on_player_reconnected, is_intent_error, finish_message,
}
use durak_card_game.Join.Room.{
  on_event, on_sync_tick, request_sync, on_connection, Happening, event, tick, connection, happen,
  run_session,
}
use durak_card_game.Prelude.{All}
use durak_card_game.Store.{add_activity}
use durak_card_game.Join.Handlers.{concerns}
use durak_card_game.Join.Versions.{world_version, HasVersion, on_event_mono}
use durak_card_game.Prelude.{ltb, ◌&&◌, ◌+◌}
use durak_card_game.Join.Room.{sync_fallback_ms}
use durak_card_game.Join.Shown.{clear_error-IsShownBy}
use durak_card_game.Join.Replayed.{
  IsInStep, IsFrom, if-IsFrom, catch_up, if-IsInStep, said, erred, reset-IsShownBy,
  game_state-IsInStep, state_diff-IsInStep, move_applied-IsInStep,
}

error_event-IsFrom :
    (env : Env) (v : Option ℕ) (code message : Option String) (w : World)
    → IsFrom v w
    → IsFrom v (on_error env code message w)
unfolding on_error
error_event-IsFrom env v code message w h = if-IsFrom v (same_text code "VERSION_MISMATCH") w _ h (
    if-IsFrom v (is_intent_error code) _ _
      (record { labelled = h.labelled; shown = erred v _ _ _ w.session.store h.shown })
      (record { labelled = h.labelled; shown = erred v _ _ _ w.session.store h.shown }))

finished-IsFrom :
    (env : Env) (v : Option ℕ) (room_id : String) (p : FinishedPayload) (w : World)
    → IsFrom v w
    → IsFrom v (on_match_finished env room_id p w)
unfolding on_match_finished set_is_finished_handled set_match_finished_abandoned set_match_result
    update add_activity
finished-IsFrom env v room_id p w h =
    let shown = (said v env.clock.now (finish_message env p) w.session.store h.shown).shown in
    if-IsFrom v (not (p.room_id == room_id)) w _ h (
      if-IsFrom v w.session.store.state.is_finished_handled w _ h (
        if-IsFrom v env.reset_activity_on_match_finish _ _
          (record {
            labelled = h.labelled;
            shown = reset-IsShownBy v 2 _ (record { shown = shown });
          })
          (record { labelled = h.labelled; shown = record { shown = shown } })))

-- Of the events, a whole state says its version, and a move has an id, which may show a version or not.
unfoldable pub IsOrdinary : ServerEvent → Type 0
IsOrdinary (game_state payload) = (v : ℕ) × (payload.version ≡ some v)
IsOrdinary (move_applied payload) = (id : String) × (payload.event_id ≡ some id)
IsOrdinary _ = Unit

room_update-IsFrom :
    (env : Env) (v : Option ℕ) (room : String) (w : World)
    → IsFrom v w
    → IsFrom v (on_room_update env room w)
unfolding on_room_update set_game_ready update
room_update-IsFrom env v room w h = record {
  labelled = h.labelled;
  shown = said v _ _ _ (record { shown = h.shown.shown });
}

on_event-IsInStep :
    (env : Env) (room_id : String) (e : ServerEvent) (w : World)
    → IsOrdinary e
    → IsInStep w
    → IsInStep (on_event env room_id e w)
unfolding on_event IsOrdinary HasVersion on_room_update set_game_ready update on_state_sync
    on_timer_update on_player_disconnected on_bot_takeover on_player_reconnected
    set_reconnecting_player on_version_mismatch set_interaction_locked
on_event-IsInStep env room room_update w o h =
    catch_up (world_version w) _ (on_event_mono env room room_update w tt) (record {
      labelled = h.labelled;
      shown = said (world_version w) _ _ _ (record { shown = h.shown.shown });
    })
on_event-IsInStep env room (game_state p) w (n, e) h = game_state-IsInStep env room p n w e h
on_event-IsInStep env room (state_sync r mode) w o h =
    if-IsInStep (not (r == room)) w _ h
      (record { labelled = h.labelled; shown = record { shown = h.shown.shown } })
on_event-IsInStep env room (state_diff r to patch) w o h =
    state_diff-IsInStep env room r to patch w h
on_event-IsInStep env room (move_applied p) w (id, named) h =
    move_applied-IsInStep env room p id w named h
on_event-IsInStep env room (timer_update p) w o h =
    catch_up (world_version w) _ (on_event_mono env room (timer_update p) w tt)
      (record { labelled = h.labelled; shown = said (world_version w) _ _ w.session.store h.shown })
on_event-IsInStep env room (match_finished p) w o h =
    catch_up (world_version w) _ (on_event_mono env room (match_finished p) w tt) (
      finished-IsFrom env (world_version w) room p w
        (record { labelled = h.labelled; shown = h.shown }))
on_event-IsInStep env room (error_event c m) w o h =
    catch_up (world_version w) _ (on_event_mono env room (error_event c m) w tt) (
      error_event-IsFrom env (world_version w) c m w
        (record { labelled = h.labelled; shown = h.shown }))
on_event-IsInStep env room (version_mismatch p) w o h =
    catch_up (world_version w) _ (on_event_mono env room (version_mismatch p) w tt) (
      if-IsFrom (world_version w) (not (p.room_id == room)) w _
        (record { labelled = h.labelled; shown = h.shown })
        (record {
          labelled = h.labelled;
          shown = clear_error-IsShownBy (world_version w) _ (record { shown = h.shown.shown });
        }))
on_event-IsInStep env room (player_disconnected r p) w o h =
    catch_up (world_version w) _ (on_event_mono env room (player_disconnected r p) w tt) (
      if-IsFrom (world_version w) (concerns room r p) _ w
        (record {
          labelled = h.labelled;
          shown = said (world_version w) _ _ _ (record { shown = h.shown.shown });
        })
        (record { labelled = h.labelled; shown = h.shown }))
on_event-IsInStep env room (player_afk_bot_takeover r p) w o h =
    catch_up (world_version w) _ (on_event_mono env room (player_afk_bot_takeover r p) w tt) (
      if-IsFrom (world_version w) (not (concerns room r p)) w _
        (record { labelled = h.labelled; shown = h.shown })
        (record {
          labelled = h.labelled;
          shown = said (world_version w) _ _ _ (record { shown = h.shown.shown });
        }))
on_event-IsInStep env room (player_reconnected r p) w o h =
    catch_up (world_version w) _ (on_event_mono env room (player_reconnected r p) w tt) (
      if-IsFrom (world_version w) (concerns room r p) _ w
        (record {
          labelled = h.labelled;
          shown = said (world_version w) _ _ _ (record { shown = h.shown.shown });
        })
        (record { labelled = h.labelled; shown = h.shown }))

request-IsInStep :
    (env : Env) (room : String) (m : MatchState) (w : World)
    → IsInStep w
    → IsInStep (request_sync env room m w)
request-IsInStep env room m w h =
    if-IsInStep
      (same_text m.status "playing" && ltb (w.last_game_state_at + sync_fallback_ms) env.clock.now)
      _ w (record { labelled = h.labelled; shown = record { shown = h.shown.shown } }) h

tick-IsInStep :
    (env : Env) (room_id : String) (w : World) → IsInStep w → IsInStep (on_sync_tick env room_id w)
unfolding on_sync_tick
tick-IsInStep env room_id w h =
    elim w.session.store.state.match_state
      as (λ found.
        IsInStep
          (elim found as (λ o. World) [ none ↦ w | some m ↦ request_sync env room_id m w ])) [
            | none ↦ h
            | some m ↦ request-IsInStep env room_id m w h
          ]

unfoldable pub IsPlain : Env × Happening → Type 0
IsPlain (env, event e) = IsOrdinary e
IsPlain (env, _) = Unit

happen-IsInStep :
    (room_id : String) (h : Env × Happening) (w : World)
    → IsPlain h
    → IsInStep w
    → IsInStep (happen room_id h w)
unfolding happen on_connection IsPlain
happen-IsInStep room_id (env, event e) w o k = on_event-IsInStep env room_id e w o k
happen-IsInStep room_id (env, tick) w o k = tick-IsInStep env room_id w k
happen-IsInStep room_id (env, connection lost) w o k = record {
  labelled = k.labelled;
  shown = record { shown = k.shown.shown };
}

-- Through whatever happens in a session, in any order, each move in the activity list whose id shows
-- a version is at or before the version of the match, and the waiting moves stand under the versions
-- of their ids, if this holds at the start, each whole state says its version and each move has an id.
pub run_session-IsInStep :
    (room_id : String) (hs : List (Env × Happening)) (w : World)
    → All IsPlain hs
    → IsInStep w
    → IsInStep (run_session room_id hs w)
unfolding run_session
run_session-IsInStep room_id [] w o k = k
run_session-IsInStep room_id (h ∷ hs) w (o, os) k =
    run_session-IsInStep room_id hs (happen room_id h w) os (happen-IsInStep room_id h w o k)
