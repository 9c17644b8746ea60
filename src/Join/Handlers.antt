-- ===== src/Join/Handlers.antt =====
-- The handlers of the server's events in src/processes/joinGame.process.ts, one function for each.
use Prim.Native.String
use durak_card_game.Prelude.{
  ℕ, String, Bool, true, false, not, ◌&&◌, ◌||◌, Option, none, some, [], ◌∷◌, ◌++◌, ◌==◌, same_text,
  truthy, or_else, get_or, is_empty, if◌then◌else◌,
}
use durak_card_game.Match.{MatchState, spread}
use durak_card_game.Store.{
  MatchResult, version_of, is_stale, set_interaction_locked, set_game_ready, set_game_error,
  clear_game_error, set_match_state_if_newer, set_reconnecting_player, set_match_finished_abandoned,
  set_match_result, set_is_finished_handled, add_activity, reset_activity_for_match_finished,
  prune_stale_move_activity,
}
use durak_card_game.Tracker as Counters
use durak_card_game.Tracker.{Tracker, Settings, SyncMode, Snapshot}
use durak_card_game.Replay.{MoveApplied, flush, handle_move_applied}
use durak_card_game.ErrorText.{map_server_error_to_message}
use durak_card_game.Join.State.{
  Env, ClientEvent, make_move, World, FinishedPayload, MismatchPayload, on_store, on_tracker, now,
  tr, session_host, with_replay,
}

-- `payload.toVersion`, the version of the patch, or the present one
abbrev pub next_version : Option ℕ → MatchState → MatchState → Option ℕ
next_version to_version patch current = or_else to_version (or_else patch.version current.version)

-- `{ ...current, ...payload.patch, version: nextVersion, roomId: payload.roomId }`
abbrev pub merge : MatchState → MatchState → Option ℕ → String → MatchState
merge current patch version payload_room = record (spread current patch) {
  version = version;
  room_id = some payload_room;
}

abbrev pub is_intent_error : Option String → Bool
is_intent_error code =
    same_text code "INVALID_ACTION"
    || (same_text code "INVALID_CARD" || same_text code "INVALID_TURN")

abbrev pub send : ClientEvent → World → World
send event w = record w { sent = w.sent ++ event ∷ [] }

abbrev pub nonempty : Option String → Option String
nonempty s = if truthy s then s else none

abbrev pub concerns : String → String → String → Bool
concerns room_id payload_room player_id = payload_room == room_id && not (player_id == "")

module _ (env : Env) where
  unfoldable pub on_room_update : String → World → World
  on_room_update room_id w =
      on_store
        (λ s.
          add_activity (now env)
            (tr env (String.◌++◌ "Подключение к комнате " room_id)
              (String.◌++◌ "Підключення до кімнати " room_id))
            (set_game_ready s))
        w

  -- `onWsEvent("game_state", …)`
  unfoldable pub on_game_state : String → MatchState → World → World
  on_game_state room_id payload w =
      if not (same_text payload.room_id room_id)
      then w
      else let w₁ = on_store clear_game_error w in
        let w₂ = record w₁ { last_game_state_at = (now env) } in
        let w₃ = on_store (set_match_state_if_newer payload) w₂ in
        let w₄ = on_store (prune_stale_move_activity payload.version) w₃ in
        let w₅ =
          on_tracker (Counters.set_state_version env.settings payload.version (now env)) w₄ in
        with_replay (flush (session_host env)) w₅

  unfoldable pub on_state_sync : String → String → SyncMode → World → World
  on_state_sync room_id payload_room mode w =
      if not (payload_room == room_id)
      then w
      else on_tracker (Counters.mark_sync env.settings mode (now env)) w

  abbrev pub note_version : Option ℕ → World → World
  note_version none w = w
  note_version (some v) w =
      on_tracker (Counters.set_state_version env.settings (some v) (now env))
        (on_store (prune_stale_move_activity (some v)) w)

  unfoldable pub apply_diff : String → Option ℕ → MatchState → MatchState → World → World
  apply_diff payload_room version patch current w =
      if is_stale version current.version
      then w
      else with_replay (flush (session_host env)) (
          note_version version
            (on_store (set_match_state_if_newer (merge current patch version payload_room)) w))

  unfoldable pub on_state_diff : String → String → Option ℕ → MatchState → World → World
  on_state_diff room_id payload_room to_version patch w =
      if not (payload_room == room_id) then w else elim w.session.store.state.match_state [
        | none ↦ w
        | some current ↦
            apply_diff payload_room (next_version to_version patch current) patch current w
      ]

  unfoldable pub on_move_applied : String → MoveApplied → World → World
  on_move_applied room_id payload w =
      if not (payload.room_id == room_id) || payload.player_id == ""
      then w
      else with_replay (handle_move_applied (session_host env) payload env.clock) w

  unfoldable pub on_timer_update : String → World → World
  on_timer_update turn_player_id w =
      on_store
        (add_activity (now env) (
          tr env (String.◌++◌ "Таймер обновлен: " turn_player_id)
            (String.◌++◌ "Таймер оновлено: " turn_player_id)))
        w

  -- `${payload.winnerPlayerId}` of a missing id is the word `undefined`
  abbrev pub finish_message : FinishedPayload → String
  finish_message p =
      if get_or p.abandoned false
      then tr env "Соперник не вернулся. Победа." "Суперник не повернувся. Перемога."
      else let winner = get_or p.winner_player_id "undefined" in
        tr env (String.◌++◌ "Матч завершен. Победитель: " winner)
          (String.◌++◌ "Матч завершено. Переможець: " winner)

  abbrev pub finish_result : FinishedPayload → MatchResult
  finish_result p =
      if is_empty (get_or p.payouts [])
      then record {
        settlement_id = none;
        net_results = [];
        commission = none;
        pot = none;
        new_balances = none;
        abandoned = p.abandoned;
      }
      else record {
        settlement_id = p.settlement_id;
        net_results = get_or p.payouts [];
        commission = p.commission;
        pot = p.pot;
        new_balances = p.new_balances;
        abandoned = p.abandoned;
      }

  unfoldable pub on_match_finished : String → FinishedPayload → World → World
  on_match_finished room_id p w =
      if not (p.room_id == room_id)
      then w
      else if w.session.store.state.is_finished_handled
      then w
      else let w₁ = on_store (set_is_finished_handled true) w in
        let w₂ = on_store (set_match_finished_abandoned (get_or p.abandoned false)) w₁ in
        let w₃ = on_store (add_activity (now env) (finish_message p)) w₂ in
        let w₄ = on_store (set_match_result (some (finish_result p))) w₃ in
        if env.reset_activity_on_match_finish
        then on_store (reset_activity_for_match_finished 2) w₄
        else w₄

  unfoldable pub on_error : Option String → Option String → World → World
  on_error code message w =
      if same_text code "VERSION_MISMATCH"
      then w
      else let mapped =
          map_server_error_to_message env.language
            (some (record { code = code; reason = none; kind = none; message = message })) in
        let w₁ = on_store (set_game_error env.language (now env) mapped.text) w in
        if is_intent_error code
        then record w₁ {
          intent_errors =
              w₁.intent_errors
              ++ record { text = mapped.text; code = or_else mapped.code code } ∷ [];
        }
        else w₁

  unfoldable pub on_version_mismatch : String → MismatchPayload → World → World
  on_version_mismatch room_id p w =
      if not (p.room_id == room_id)
      then w
      else let w₁ = on_store clear_game_error (on_store (set_interaction_locked true) w) in
        send
          (make_move (record {
            room_id = room_id;
            action = get_or p.action "pass_turn";
            card_id = nonempty p.card_id;
            expected_version = version_of w₁.session.store.state.match_state;
            action_id = get_or p.action_id env.random_uuid;
          }))
          w₁

  unfoldable pub on_player_disconnected : String → String → String → World → World
  on_player_disconnected room_id payload_room player_id w =
      if concerns room_id payload_room player_id
      then on_store
          (λ s.
            add_activity (now env)
              (tr env "Соперник отключился. Ожидание 60 сек..."
                "Суперник відключився. Очікування 60 сек...")
              (set_reconnecting_player (some player_id) s))
          w
      else w

  unfoldable pub on_bot_takeover : String → String → String → World → World
  on_bot_takeover room_id payload_room player_id w =
      if not (concerns room_id payload_room player_id)
      then w
      else on_store
          (λ s.
            add_activity (now env)
              (tr env "Игрок долго офлайн. Для него включены автоходы."
                "Гравець довго офлайн. Для нього ввімкнено автоходи.")
              (set_reconnecting_player none s))
          w

  unfoldable pub on_player_reconnected : String → String → String → World → World
  on_player_reconnected room_id payload_room player_id w =
      if concerns room_id payload_room player_id
      then on_store
          (λ s.
            add_activity (now env) (tr env "Соперник переподключился." "Суперник перепідключився.")
              (set_reconnecting_player none s))
          w
      else w
