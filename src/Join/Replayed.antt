-- ===== src/Join/Replayed.antt =====
-- The handlers that show waiting moves keep the moves in step with the state of the match.
use durak_card_game.Prelude.{
  ℕ, String, ◌≡◌, Bool, true, false, Option, none, some, ◌==◌, ◌||◌, not, same_text, if◌then◌else◌,
}
use mathlib.Core.Path.{subst}
use durak_card_game.Match.{MatchState}
use durak_card_game.Store.{Store, is_stale, add_activity, update}
use durak_card_game.Replay.{flush, MoveApplied}
use durak_card_game.Join.State.{Env, World, session_host}
use durak_card_game.Join.Handlers.{
  on_game_state, on_state_diff, on_move_applied, apply_diff, next_version, merge, note_version,
}
use durak_card_game.Prelude.{sym, All-drop, All-filter, filter, eqb, length, ◌-◌, refl}
use durak_card_game.Store.{
  system, set_match_state_if_newer, is_system, Language, set_game_error, add_activity,
  clear_game_error, prune_stale_move_activity, reset_activity_for_match_finished, version_of,
  is_stale,
}
use durak_card_game.Store.Versions.{VersionLe, state_version}
use durak_card_game.Replay.{handle_move_applied}
use durak_card_game.Join.State.{with_replay}
use durak_card_game.Replay.Labels.{IsLabelled, flush-IsLabelled, handle-IsLabelled}
use durak_card_game.Join.Versions.{world_version, newer-VersionLe, merged-VersionLe}
use durak_card_game.Join.Frame.{clear_error-match_state, prune-match_state}
use durak_card_game.Prelude.{refl}
use durak_card_game.Join.Shown.{
  shown_version, ShownBy, raise, push-ShownBy, IsShownBy, if-IsShownBy, clear_error-IsShownBy,
  newer-IsShownBy, prune-IsShownBy, flush-InStep, handle-IsAt,
}

-- The waiting moves stand under their versions, and no move is shown before its version came.
pub record IsInStep (w : World) : Type 0 where
  pub labelled : IsLabelled w.buffer
  pub shown : IsShownBy (world_version w) w.session.store

-- The same, with the version that a world before had.
pub record IsFrom (v : Option ℕ) (w : World) : Type 0 where
  pub labelled : IsLabelled w.buffer
  pub shown : IsShownBy v w.session.store

pub if-IsFrom :
    (v : Option ℕ) (b : Bool) (w u : World)
    → IsFrom v w
    → IsFrom v u
    → IsFrom v (if b then w else u)
if-IsFrom v true w u h k = h
if-IsFrom v false w u h k = k

pub catch_up : (v : Option ℕ) (w : World) → VersionLe v (world_version w) → IsFrom v w → IsInStep w
catch_up v w le h = record {
  labelled = h.labelled;
  shown = record {
    shown = raise v (world_version w) w.session.store.state.activity le h.shown.shown;
  };
}

pub if-IsInStep : (b : Bool) (w u : World) → IsInStep w → IsInStep u → IsInStep (if b then w else u)
if-IsInStep true w u h k = h
if-IsInStep false w u h k = k

pub flush-IsInStep :
    (env : Env) (w : World) → IsInStep w → IsInStep (with_replay (flush (session_host env)) w)
flush-IsInStep env w h = record {
  labelled = flush-IsLabelled (session_host env) (w.buffer, w.session) h.labelled;
  shown = flush-InStep env (w.buffer, w.session) h.labelled h.shown;
}

pub said :
    (v : Option ℕ) (at : ℕ) (message : String) (s : Store)
    → IsShownBy v s
    → IsShownBy v (add_activity at message s)
unfolding add_activity update
said v at message s h = record {
  shown = push-ShownBy v (system message at) s.state.activity tt h.shown;
}

pub erred :
    (v : Option ℕ) (l : Language) (at : ℕ) (message : String) (s : Store)
    → IsShownBy v s
    → IsShownBy v (set_game_error l at message s)
unfolding set_game_error update
erred v l at message s h = record { shown = push-ShownBy v _ s.state.activity tt h.shown }

pub reset-IsShownBy :
    (v : Option ℕ) (keep : ℕ) (s : Store)
    → IsShownBy v s
    → IsShownBy v (reset_activity_for_match_finished keep s)
unfolding reset_activity_for_match_finished update
reset-IsShownBy v keep s h =
    if-IsShownBy v (eqb keep 0) _ _ (record { shown = tt })
      (record {
        shown =
            All-drop (λ j. VersionLe (shown_version j) v)
              (length (filter is_system s.state.activity) - keep)
              (filter is_system s.state.activity) (All-filter _ is_system s.state.activity h.shown);
      })

pub newest :
    (payload : MatchState) (n : ℕ) (s t : Store)
    → payload.version ≡ some n
    → t.state.match_state ≡ s.state.match_state
    → IsShownBy (state_version s) t
    → IsShownBy
        (state_version (set_match_state_if_newer payload t))
        (set_match_state_if_newer payload t)
newest payload n s t e same h = record {
  shown =
      raise (state_version s) _ _ (newer-VersionLe payload n s t e same)
        (newer-IsShownBy (state_version s) payload t h).shown;
}

pub pruned :
    (u : Option ℕ) (s : Store)
    → IsShownBy (state_version s) s
    → IsShownBy (state_version (prune_stale_move_activity u s)) (prune_stale_move_activity u s)
pruned u s h = record {
  shown =
      subst (λ m. ShownBy (version_of m) (prune_stale_move_activity u s).state.activity)
        (sym (prune-match_state u s)) (prune-IsShownBy (state_version s) u s h).shown;
}

pub game_state-IsInStep :
    (env : Env) (room_id : String) (p : MatchState) (n : ℕ) (w : World)
    → p.version ≡ some n
    → IsInStep w
    → IsInStep (on_game_state env room_id p w)
unfolding on_game_state
game_state-IsInStep env room_id p n w e h = if-IsInStep (not (same_text p.room_id room_id)) w _ h (
    flush-IsInStep env _ (record {
      labelled = h.labelled;
      shown = pruned p.version _ (
          newest p n w.session.store (clear_game_error w.session.store) e
            (clear_error-match_state w.session.store)
            (clear_error-IsShownBy (world_version w) w.session.store h.shown));
    }))

pub noted : (env : Env) (v : Option ℕ) (w : World) → IsInStep w → IsInStep (note_version env v w)
noted env none w h = h
noted env (some v) w h = record {
  labelled = h.labelled;
  shown = pruned (some v) w.session.store h.shown;
}

pub apply_diff-IsInStep :
    (env : Env) (room : String) (to_version : Option ℕ) (patch current : MatchState) (w : World)
    → w.session.store.state.match_state ≡ some current
    → IsInStep w
    → IsInStep (apply_diff env room (next_version to_version patch current) patch current w)
unfolding apply_diff
apply_diff-IsInStep env room to_version patch current w has h =
    if-IsInStep (is_stale (next_version to_version patch current) current.version) w _ h (
      flush-IsInStep env _ (
        noted env (next_version to_version patch current) _ (record {
          labelled = h.labelled;
          shown = record {
            shown =
                raise (version_of (some current)) _ _
                  (merged-VersionLe env to_version patch current room w.session.store has)
                  (subst
                    (λ m.
                      ShownBy (version_of m)
                        (set_match_state_if_newer
                          (merge current patch (next_version to_version patch current) room)
                          w.session.store).state.activity)
                    has
                    (newer-IsShownBy (world_version w)
                      (merge current patch (next_version to_version patch current) room)
                      w.session.store h.shown).shown);
          };
        })))

pub found-IsInStep :
    (env : Env) (room : String) (to_version : Option ℕ) (patch : MatchState) (w : World)
    (found : Option MatchState)
    → w.session.store.state.match_state ≡ found
    → IsInStep w
    → IsInStep (elim found as (λ o. World) [
      | none ↦ w
      | some current ↦ apply_diff env room (next_version to_version patch current) patch current w
    ])
found-IsInStep env room to_version patch w none e h = h
found-IsInStep env room to_version patch w (some current) e h =
    apply_diff-IsInStep env room to_version patch current w e h

pub state_diff-IsInStep :
    (env : Env) (room_id room : String) (to_version : Option ℕ) (patch : MatchState) (w : World)
    → IsInStep w
    → IsInStep (on_state_diff env room_id room to_version patch w)
unfolding on_state_diff
state_diff-IsInStep env room_id room to_version patch w h =
    if-IsInStep (not (room == room_id)) w _ h
      (found-IsInStep env room to_version patch w w.session.store.state.match_state refl h)

pub move_applied-IsInStep :
    (env : Env) (room_id : String) (p : MoveApplied) (id : String) (w : World)
    → p.event_id ≡ some id
    → IsInStep w
    → IsInStep (on_move_applied env room_id p w)
unfolding on_move_applied
move_applied-IsInStep env room_id p id w named h =
    let i =
      handle-IsAt env (world_version w) p id env.clock (w.buffer, w.session) named h.labelled
        (record { at = refl; shown = h.shown.shown }) in
    if-IsInStep (not (p.room_id == room_id) || p.player_id == "") w _ h (record {
      labelled =
          handle-IsLabelled (session_host env) p id env.clock (w.buffer, w.session) named
            h.labelled;
      shown = record {
        shown =
            subst
              (λ v.
                ShownBy v
                  (handle_move_applied (session_host env) p env.clock
                    (w.buffer, w.session)).1.store.state.activity)
              (sym i.at) i.shown;
      };
    })
