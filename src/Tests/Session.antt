-- ===== src/Tests/Session.antt =====
-- The theorems on the store, the replay and the session at concrete inputs.
use durak_card_game.Prelude.{
  includes, Bool, ◌↔◌, ◌≡◌, refl, true, false, none, some, List, [], ◌∷◌, arith, eqb, ltb, filter,
  any, codes,
}
use durak_card_game.Store.{
  ActivityItem, initial_store, set_game_connecting, prune_stale_move_activity, unsubscribe,
  subscribe_game_store,
}
use durak_card_game.Store.Versions.{VersionLe, unsubscribe-removes}
use durak_card_game.Store.Activity.{AreDistinct, IsRecent, prune_stale_move_activity_lem}
use durak_card_game.Store.Calls
use durak_card_game.Store.Calls.{Call, IsWell, run-IsWell}
use durak_card_game.EventId.{parse_move_version_from_event_id, parse_version_from_event_id}
use durak_card_game.EventId.Laws.{event_id_of, decimal_from, parse_version-event_id_of}
use durak_card_game.Replay.{empty_buffer, flush, remember_move_event_id}
use durak_card_game.Replay.Pending.{flush-pending}
use durak_card_game.Replay.Memory.{Tidy, remember-Tidy}
use durak_card_game.Tracker.{new_tracker, Snapshot, fresh_snapshot}
use durak_card_game.Tracker.Laws.{IsHonest, run_calls, TrackerCall, tracker-IsHonest}
use durak_card_game.Join.State.{
  Env, World, Session, FinishedPayload, session_host, move_applied, game_state,
}
use durak_card_game.Join.Handlers.{on_error}
use durak_card_game.Join.Room.{Happening, event, tick, run_session, join_game_room}
use durak_card_game.Join.Versions.{world_version, IsVersioned, HasVersion, run_session_mono}
use durak_card_game.Join.Moves.{run_session-IsDistinct}
use durak_card_game.Join.Locks.{on_error-locked}
use durak_card_game.Join.Replayed.{IsInStep}
use durak_card_game.Join.InStep.{IsPlain, IsOrdinary, run_session-IsInStep}
use durak_card_game.Tests.{differ, at_version, shown_store, settings, env_at, played, early}

unsubscribe-removes_example :
    any (eqb 4) (unsubscribe 4 (subscribe_game_store 4 shown_store)).listeners ≡ false
unsubscribe-removes_example = unsubscribe-removes 4 (subscribe_game_store 4 shown_store)

prune_stale_move_activity_lem_example :
    (keeps : ActivityItem → Bool) × ((prune_stale_move_activity
        (some 100)
        shown_store).state.activity
      ≡ filter keeps shown_store.state.activity)
    × ((item : ActivityItem) → (keeps item ≡ true) ↔ IsRecent 100 item)
prune_stale_move_activity_lem_example = prune_stale_move_activity_lem 100 shown_store (omega arith)

initial-IsWell : IsWell initial_store
initial-IsWell = record { bounded = omega arith; informed = record { last = λ l h. cc h } }

run-IsWell_example : IsWell (Calls.run (Call.subscribe 1 ∷ Call.say 5 "hello" ∷ []) initial_store)
run-IsWell_example =
    run-IsWell (Call.subscribe 1 ∷ Call.say 5 "hello" ∷ []) initial_store initial-IsWell

parse_version-event_id_of_example :
    (parse_move_version_from_event_id (event_id_of "m:v1" "42")
      ≡ some (decimal_from 0 (codes "42")))
    × (parse_version_from_event_id (some (event_id_of "m:v1" "42"))
        ≡ some (decimal_from 0 (codes "42")))
parse_version-event_id_of_example =
    parse_version-event_id_of "m:v1" "42" (refl, (refl, tt)) (differ "42" "" refl)

abbrev session : Session
session = record {
  store = record shown_store { state = record (shown_store.state) { interaction_locked = true } };
  tracker = new_tracker settings "room" 0 [];
}

flush-pending_example :
    ((flush (session_host (env_at 5)) (early, session)).0.pending_by_version
      ≡ filter (λ e. ltb 7 e.0) early.pending_by_version)
    × ((flush (session_host (env_at 5)) (early, session)).0.pending_unversioned ≡ [])
flush-pending_example = flush-pending (session_host (env_at 5)) early session

empty-Tidy : Tidy empty_buffer
empty-Tidy = record {
  bounded = omega arith;
  no_repeat = tt;
  queued = λ id other h. cc h;
  known = λ id h. cc h;
}

remember-Tidy_example :
    (includes (remember_move_event_id "match:v8" empty_buffer).seen_ids "match:v8" ≡ true)
    × Tidy (remember_move_event_id "match:v8" empty_buffer)
remember-Tidy_example = remember-Tidy "match:v8" empty_buffer empty-Tidy

tracker-IsHonest_example : IsHonest settings (
    run_calls settings
      ((TrackerCall.pending 3 1, 5) ∷ (TrackerCall.flushed, 6) ∷ (TrackerCall.disposed, 9) ∷ [])
      (new_tracker settings "room" 0 []))
tracker-IsHonest_example =
    tracker-IsHonest settings "room" 0 []
      ((TrackerCall.pending 3 1, 5) ∷ (TrackerCall.flushed, 6) ∷ (TrackerCall.disposed, 9) ∷ [])

abbrev warned : Snapshot
warned = record (fresh_snapshot settings "room" 20000) {
  dropped_duplicate = 2;
  warning_count = 1;
  last_warning_at = some 100;
}

abbrev pub world : World
world = record {
  session = session;
  buffer = early;
  last_game_state_at = 0;
  socket = record { is_reconnecting = false; listeners = []; calls = [] };
  sent = [];
  intent_errors = [];
}

abbrev happenings : List (Env × Happening)
happenings =
    (env_at 10, event (move_applied (played "match:v8")))
    ∷ (env_at 20, event (game_state (at_version 8)))
    ∷ (env_at 30, tick)
    ∷ (env_at 40, event (move_applied (played "match:v8")))
    ∷ []

run_session_mono_example :
    VersionLe (world_version world) (world_version (run_session "room" happenings world))
unfolding IsVersioned HasVersion
run_session_mono_example =
    run_session_mono "room" happenings world (tt, ((8, refl), (tt, (tt, tt))))

abbrev joined : World
joined = record {
  session = record {
    store = set_game_connecting "room" initial_store;
    tracker = new_tracker settings "room" 1 [];
  };
  buffer = empty_buffer;
  last_game_state_at = 1;
  socket = world.socket;
  sent = [];
  intent_errors = [];
}

run_session-IsDistinct_example :
    AreDistinct (run_session "room" happenings joined).session.store.state.activity
unfolding join_game_room
run_session-IsDistinct_example =
    run_session-IsDistinct (env_at 1) "room" [] world.socket initial_store joined happenings refl

on_error-locked_example :
    (on_error (env_at 9) (some "INVALID_TURN") none world).session.store.state.interaction_locked
    ≡ true
on_error-locked_example = on_error-locked (env_at 9) (some "INVALID_TURN") none world

abbrev ended : FinishedPayload
ended = record {
  room_id = "room";
  winner_player_id = some "ann";
  abandoned = none;
  settlement_id = none;
  payouts = none;
  commission = none;
  pot = none;
  new_balances = none;
}

joined-IsInStep : IsInStep joined
unfolding set_game_connecting
joined-IsInStep = record {
  labelled = record { versioned = tt; unversioned = tt };
  shown = record { shown = tt };
}

run_session-IsInStep_example : IsInStep (run_session "room" happenings joined)
unfolding IsPlain IsOrdinary
run_session-IsInStep_example =
    run_session-IsInStep "room" happenings joined
      (("match:v8", refl), ((8, refl), (tt, (("match:v8", refl), tt)))) joined-IsInStep
