-- ===== src/Join/Versions.antt =====
-- The version of the match through the events of a session.
use durak_card_game.Prelude.{
  ℕ, String, ◌≡◌, refl, Option, none, some, List, [], ◌∷◌, arith, Bool-cases, Option-cases, inl,
  inr, ◌==◌, same_text, or_else,
}
use mathlib.Core.Path.{subst}
use durak_card_game.Match.{MatchState}
use durak_card_game.Store.{Store, version_of, is_stale, clear_game_error, set_match_state_if_newer}
use durak_card_game.Store.Versions.{
  VersionLe, VersionLe-refl, VersionLe-trans, state_version, set_match_state_if_newer_mono,
}
use durak_card_game.Join.State.{
  Env, World, ServerEvent, room_update, game_state, state_sync, state_diff, move_applied,
  timer_update, match_finished, error_event, version_mismatch, player_disconnected,
  player_afk_bot_takeover, player_reconnected, session_version,
}
use durak_card_game.Join.Handlers.{on_game_state, on_state_diff, apply_diff, next_version, merge}
use durak_card_game.Prelude.{All}
use durak_card_game.Join.Room.{
  on_event, on_sync_tick, request_sync, on_connection, Happening, event, tick, connection, happen,
  run_session,
}
use durak_card_game.Join.Frame.{
  flush-match_state, clear_error-match_state, prune-match_state, note_version-match_state,
  error-match_state, finished-match_state, mismatch-match_state, move-match_state,
  disconnected-match_state, takeover-match_state, reconnected-match_state, room_update-match_state,
  timer-match_state, sync-match_state,
}

abbrev pub world_version : World → Option ℕ
world_version w = session_version w.session

-- The same state of the match has the same version.
pub same-VersionLe : {m n : Option MatchState} → n ≡ m → VersionLe (version_of m) (version_of n)
same-VersionLe {m} e = rw e (VersionLe-refl (version_of m))

pub newer-VersionLe :
    (payload : MatchState) (v : ℕ) (s t : Store)
    → payload.version ≡ some v
    → t.state.match_state ≡ s.state.match_state
    → VersionLe (state_version s) (state_version (set_match_state_if_newer payload t))
newer-VersionLe payload v s t e same =
    subst (λ m. VersionLe (version_of m) (state_version (set_match_state_if_newer payload t))) same
      (set_match_state_if_newer_mono payload t v e)

-- A state of the match that arrives whole.
game_state_mono :
    (env : Env) (room_id : String) (payload : MatchState) (v : ℕ) (w : World)
    → payload.version ≡ some v
    → VersionLe (world_version w) (world_version (on_game_state env room_id payload w))
unfolding on_game_state
game_state_mono env room_id payload v w e = elim (Bool-cases (same_text payload.room_id room_id)) [
  | inr other ↦ rw (other, on_game_state) (VersionLe-refl (world_version w))
  | inl ours ↦
      rw (ours, on_game_state, flush-match_state, prune-match_state)
        (newer-VersionLe payload v w.session.store (clear_game_error w.session.store) e
          (clear_error-match_state w.session.store))
]

newer_than :
    (payload current : MatchState) (v : ℕ) (s : Store)
    → payload.version ≡ some v
    → s.state.match_state ≡ some current
    → VersionLe current.version (state_version (set_match_state_if_newer payload s))
newer_than payload current v s e has =
    subst (λ m. VersionLe (version_of m) (state_version (set_match_state_if_newer payload s))) has
      (set_match_state_if_newer_mono payload s v e)

all_unknown : (a b c : Option ℕ) → or_else a (or_else b c) ≡ none → c ≡ none
all_unknown a b c h = ground arith

pub merged-VersionLe :
    (env : Env) (to_version : Option ℕ) (patch current : MatchState) (room : String) (s : Store)
    → s.state.match_state ≡ some current
    → VersionLe current.version (
        state_version (
          set_match_state_if_newer
            (merge current patch (next_version to_version patch current) room)
            s))
merged-VersionLe env to_version patch current room s has =
    elim (Option-cases (next_version to_version patch current)) [
      | inr (v, known) ↦
          newer_than (merge current patch (next_version to_version patch current) room) current v s
            known has
      | inl unknown ↦ rw (all_unknown to_version patch.version current.version unknown) tt
    ]

state_diff_mono :
    (env : Env) (room_id room : String) (to_version : Option ℕ) (patch : MatchState) (w : World)
    → VersionLe
        (world_version w)
        (world_version (on_state_diff env room_id room to_version patch w))
unfolding on_state_diff apply_diff
state_diff_mono env room_id room to_version patch w = elim (Bool-cases (room == room_id)) [
  | inr other ↦ rw (other, on_state_diff) (VersionLe-refl (world_version w))
  | inl ours ↦ elim (Option-cases w.session.store.state.match_state) [
    | inl nothing ↦ rw (ours, nothing, on_state_diff) tt
    | inr (current, has) ↦
        elim (Bool-cases (is_stale (next_version to_version patch current) current.version)) [
          | inl stale ↦
              rw (ours, has, stale, on_state_diff, apply_diff)
                (rw has (VersionLe-refl current.version))
          | inr fresh ↦
              rw
                (
                  ours, has, fresh, on_state_diff, apply_diff, flush-match_state,
                  note_version-match_state,
                )
                (merged-VersionLe env to_version patch current room w.session.store has)
        ]
  ]
]

-- A whole state says its version; every other event is fine as it is.
unfoldable pub HasVersion : ServerEvent → Type 0
HasVersion (game_state payload) = (v : ℕ) × (payload.version ≡ some v)
HasVersion _ = Unit

-- Whatever event arrives, and whatever room it is for, the version of the match that the client shows
-- never goes back, provided that a whole state of the match says its version.
pub on_event_mono :
    (env : Env) (room_id : String) (e : ServerEvent) (w : World)
    → HasVersion e
    → VersionLe (world_version w) (world_version (on_event env room_id e w))
unfolding on_event HasVersion
on_event_mono env room room_update w h = same-VersionLe (room_update-match_state env room w)
on_event_mono env room (game_state p) w (v, k) = game_state_mono env room p v w k
on_event_mono env room (state_sync r mode) w h = same-VersionLe (sync-match_state env room r mode w)
on_event_mono env room (state_diff r to patch) w h = state_diff_mono env room r to patch w
on_event_mono env room (move_applied p) w h = same-VersionLe (move-match_state env room p w)
on_event_mono env room (timer_update p) w h = same-VersionLe (timer-match_state env p w)
on_event_mono env room (match_finished p) w h = same-VersionLe (finished-match_state env room p w)
on_event_mono env room (error_event c m) w h = same-VersionLe (error-match_state env c m w)
on_event_mono env room (version_mismatch p) w h = same-VersionLe (mismatch-match_state env room p w)
on_event_mono env room (player_disconnected r p) w h =
    same-VersionLe (disconnected-match_state env room r p w)
on_event_mono env room (player_afk_bot_takeover r p) w h =
    same-VersionLe (takeover-match_state env room r p w)
on_event_mono env room (player_reconnected r p) w h =
    same-VersionLe (reconnected-match_state env room r p w)

request-match_state :
    (env : Env) (room_id : String) (m : MatchState) (w : World)
    → (request_sync env room_id m w).session.store.state.match_state
      ≡ w.session.store.state.match_state
request-match_state env room_id m w = ground arith

pub tick-match_state :
    (env : Env) (room_id : String) (w : World)
    → (on_sync_tick env room_id w).session.store.state.match_state
      ≡ w.session.store.state.match_state
unfolding on_sync_tick
tick-match_state env room_id w =
    elim w.session.store.state.match_state
      as (λ found.
        (elim found as (λ o. World) [
          | none ↦ w
          | some m ↦ request_sync env room_id m w
        ]).session.store.state.match_state
        ≡ w.session.store.state.match_state) [
          | none ↦ refl
          | some m ↦ request-match_state env room_id m w
        ]

-- Of what happens in a room, only a whole state has to say its version.
unfoldable pub IsVersioned : Env × Happening → Type 0
IsVersioned (env, event e) = HasVersion e
IsVersioned (env, _) = Unit

happen_mono :
    (room_id : String) (h : Env × Happening) (w : World)
    → IsVersioned h
    → VersionLe (world_version w) (world_version (happen room_id h w))
unfolding happen IsVersioned on_connection
happen_mono room_id (env, event e) w k = on_event_mono env room_id e w k
happen_mono room_id (env, tick) w k = same-VersionLe (tick-match_state env room_id w)
happen_mono room_id (env, connection lost) w k = VersionLe-refl (world_version w)

-- Through whatever happens in a session, in any order and for any rooms, the version of the match that
-- the client shows never goes back, provided that each whole state of a match says its version.
pub run_session_mono :
    (room_id : String) (hs : List (Env × Happening)) (w : World)
    → All IsVersioned hs
    → VersionLe (world_version w) (world_version (run_session room_id hs w))
unfolding run_session
run_session_mono room_id [] w k = VersionLe-refl (world_version w)
run_session_mono room_id (h ∷ hs) w (k, ks) =
    VersionLe-trans (world_version w) (world_version (happen room_id h w)) _
      (happen_mono room_id h w k) (run_session_mono room_id hs (happen room_id h w) ks)
