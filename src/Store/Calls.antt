-- ===== src/Store/Calls.antt =====
-- Any sequence of calls of the store's operations.
use durak_card_game.Prelude.{
  leb, eqb, truthy, ℕ, ◌≤◌, ◌-◌, none, some, length-take_last-le-length, String, Bool, Option, List,
  [], ◌∷◌, arith, length, length-filter-le, filter,
}
use durak_card_game.Prelude.Int.{ℤ}
use durak_card_game.Match.{MatchState}
use durak_card_game.Store.{
  is_stale, version_of, Store, Language, MoveItem, MatchResult, activity_limit, set_game_connecting,
  set_interaction_locked, set_game_ready, set_game_error, clear_game_error, set_match_state,
  set_match_state_if_newer, set_reconnecting_player, set_match_finished_abandoned, set_match_result,
  set_is_finished_handled, set_display_balance, add_activity, add_activity_item,
  reset_activity_for_match_finished, prune_stale_move_activity, subscribe_game_store, unsubscribe,
  is_fresh, is_system, stale_activity_version_window,
}
use durak_card_game.Store.Versions.{
  IsInformed, delivered-IsInformed, if-IsInformed, subscribe-IsInformed, unsubscribe-IsInformed,
}
use durak_card_game.Store.Activity.{length-push_activity-le}

-- A call of one of the functions that the module exports.
pub data Call : Type 0 where
  connecting : String → Call
  lock : Bool → Call
  ready : Call
  fail : Language → ℕ → String → Call
  clear_error : Call
  match_state if_newer : MatchState → Call
  reconnecting : Option String → Call
  abandoned : Bool → Call
  result : Option MatchResult → Call
  handled : Bool → Call
  balance : Option ℤ → Call
  say : ℕ → String → Call
  item : MoveItem → Call
  reset : ℕ → Call
  prune : Option ℕ → Call
  subscribe unsubscribe_call : ℕ → Call

unfoldable pub call : Call → Store → Store
call (connecting room_id) = set_game_connecting room_id
call (lock locked) = set_interaction_locked locked
call ready = set_game_ready
call (fail language now message) = set_game_error language now message
call clear_error = clear_game_error
call (match_state m) = set_match_state m
call (if_newer m) = set_match_state_if_newer m
call (reconnecting player_id) = set_reconnecting_player player_id
call (abandoned b) = set_match_finished_abandoned b
call (result r) = set_match_result r
call (handled b) = set_is_finished_handled b
call (balance b) = set_display_balance b
call (say now message) = add_activity now message
call (item m) = add_activity_item m
call (reset keep) = reset_activity_for_match_finished keep
call (prune v) = prune_stale_move_activity v
call (subscribe l) = subscribe_game_store l
call (unsubscribe_call l) = unsubscribe l

unfoldable pub run : List Call → Store → Store
run [] s = s
run (c ∷ cs) s = run cs (call c s)

-- The limit of the activity list, and every listener informed of the present state.
pub record IsWell (s : Store) : Type 0 where
  pub bounded : length s.state.activity ≤ activity_limit
  pub informed : IsInformed s

call-bounded :
    (c : Call) (s : Store)
    → length s.state.activity ≤ activity_limit
    → length (call c s).state.activity ≤ activity_limit
unfolding call set_game_connecting set_interaction_locked set_game_ready set_game_error
    clear_game_error set_match_state set_match_state_if_newer set_reconnecting_player
    set_match_finished_abandoned set_match_result set_is_finished_handled set_display_balance
    add_activity add_activity_item reset_activity_for_match_finished prune_stale_move_activity
    subscribe_game_store unsubscribe
call-bounded (fail language now message) s h = length-push_activity-le _ s.state.activity
call-bounded (say now message) s h = length-push_activity-le _ s.state.activity
call-bounded (item m) s h = length-push_activity-le _ s.state.activity
call-bounded (reset keep) s h = ground (
  arith,
  length-take_last-le-length keep (filter is_system s.state.activity),
  length-filter-le is_system s.state.activity,
)
call-bounded (prune none) s h = h
call-bounded (prune (some v)) s h =
    ground (arith, length-filter-le (is_fresh (v - stale_activity_version_window)) s.state.activity)
call-bounded (if_newer m) s h = ground arith
call-bounded _ s h = ground arith

call-IsInformed : (c : Call) (s : Store) → IsInformed s → IsInformed (call c s)
unfolding call set_game_connecting set_interaction_locked set_game_ready set_game_error
    clear_game_error set_match_state set_match_state_if_newer set_reconnecting_player
    set_match_finished_abandoned set_match_result set_is_finished_handled set_display_balance
    add_activity add_activity_item reset_activity_for_match_finished prune_stale_move_activity
call-IsInformed (subscribe l) s h = subscribe-IsInformed l s h
call-IsInformed (unsubscribe_call l) s h = unsubscribe-IsInformed l s h
call-IsInformed (prune none) s h = h
call-IsInformed (prune (some v)) s h = if-IsInformed (leb v 0) s _ h (
    if-IsInformed
      (eqb (length (filter (is_fresh (v - stale_activity_version_window)) s.state.activity))
        (length s.state.activity))
      s _ h (delivered-IsInformed _ s))
call-IsInformed (if_newer m) s h =
    if-IsInformed (is_stale m.version (version_of s.state.match_state)) s _ h
      (delivered-IsInformed _ s)
call-IsInformed clear_error s h =
    if-IsInformed (truthy s.state.error) _ s (delivered-IsInformed _ s) h
call-IsInformed (reset keep) s h =
    if-IsInformed (eqb keep 0) _ _ (delivered-IsInformed _ s) (delivered-IsInformed _ s)
call-IsInformed _ s h = delivered-IsInformed _ s

-- Whatever sequence of its functions is called, the activity list holds at most 50 items, and every
-- listener that is subscribed was last given the present state, if both hold at the start.
pub run-IsWell : (cs : List Call) (s : Store) → IsWell s → IsWell (run cs s)
unfolding run
run-IsWell [] s w = w
run-IsWell (c ∷ cs) s w =
    run-IsWell cs (call c s)
      (record { bounded = call-bounded c s w.bounded; informed = call-IsInformed c s w.informed })
