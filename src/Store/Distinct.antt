-- ===== src/Store/Distinct.antt =====
-- The operations of the store keep the moves of the activity list distinct.
use durak_card_game.Prelude.{
  ℕ, String, sym, Bool, true, false, Option, none, some, arith, Bool-cases, inl, inr, truthy,
  if◌then◌else◌, leb, eqb, length, filter, ◌-◌,
}
use mathlib.Core.Path.{subst}
use durak_card_game.Match.{MatchState}
use durak_card_game.Store.{
  Store, system, is_stale, is_system, is_fresh, stale_activity_version_window, version_of,
  clear_game_error, set_match_state_if_newer, prune_stale_move_activity, add_activity,
  set_game_error, reset_activity_for_match_finished, update, Language,
}
use durak_card_game.Store.Activity.{
  AreDistinct, AreDistinct-push_activity, AreDistinct-filter, AreDistinct-drop, prune-filter,
}

-- No move stands twice in the store's activity.
pub record HasDistinctMoves (s : Store) : Type 0 where
  pub distinct : AreDistinct s.state.activity

pub if-HasDistinctMoves :
    (b : Bool) (s t : Store)
    → HasDistinctMoves s
    → HasDistinctMoves t
    → HasDistinctMoves (if b then s else t)
if-HasDistinctMoves true s t h k = h
if-HasDistinctMoves false s t h k = k

-- The operations of the store, one by one.
pub clear_error-HasDistinctMoves :
    (s : Store) → HasDistinctMoves s → HasDistinctMoves (clear_game_error s)
unfolding clear_game_error update
clear_error-HasDistinctMoves s h =
    if-HasDistinctMoves (truthy s.state.error) _ s (record { distinct = h.distinct }) h

pub newer-HasDistinctMoves :
    (payload : MatchState) (s : Store)
    → HasDistinctMoves s
    → HasDistinctMoves (set_match_state_if_newer payload s)
unfolding set_match_state_if_newer update
newer-HasDistinctMoves payload s h =
    if-HasDistinctMoves (is_stale payload.version (version_of s.state.match_state)) s _ h
      (record { distinct = h.distinct })

pub prune-HasDistinctMoves :
    (v : Option ℕ) (s : Store)
    → HasDistinctMoves s
    → HasDistinctMoves (prune_stale_move_activity v s)
unfolding prune_stale_move_activity update
prune-HasDistinctMoves none s h = h
prune-HasDistinctMoves (some v) s h = elim (Bool-cases (leb v 0)) [
  | inl zero ↦ rw (zero, prune_stale_move_activity) h
  | inr positive ↦ record {
    distinct = subst AreDistinct (sym (prune-filter v s (ground arith))) (
        AreDistinct-filter (is_fresh (v - stale_activity_version_window)) s.state.activity
          h.distinct);
  }
]

pub message-HasDistinctMoves :
    (at : ℕ) (message : String) (s : Store)
    → HasDistinctMoves s
    → HasDistinctMoves (add_activity at message s)
unfolding add_activity update
message-HasDistinctMoves at message s h = record {
  distinct = AreDistinct-push_activity (system message at) s.state.activity h.distinct tt;
}

pub error-HasDistinctMoves :
    (l : Language) (now : ℕ) (message : String) (s : Store)
    → HasDistinctMoves s
    → HasDistinctMoves (set_game_error l now message s)
unfolding set_game_error update
error-HasDistinctMoves l now message s h = record {
  distinct = AreDistinct-push_activity _ s.state.activity h.distinct tt;
}

pub reset-HasDistinctMoves :
    (keep : ℕ) (s : Store)
    → HasDistinctMoves s
    → HasDistinctMoves (reset_activity_for_match_finished keep s)
unfolding reset_activity_for_match_finished update
reset-HasDistinctMoves keep s h =
    if-HasDistinctMoves (eqb keep 0) _ _ (record { distinct = tt })
      (record {
        distinct =
            AreDistinct-drop (length (filter is_system s.state.activity) - keep)
              (filter is_system s.state.activity)
              (AreDistinct-filter is_system s.state.activity h.distinct);
      })
