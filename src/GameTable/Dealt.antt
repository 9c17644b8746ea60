-- ===== src/GameTable/Dealt.antt =====
-- What the table shows when the mock API is on.
use mathlib.Core.Path.{subst}
use durak_card_game.Prelude.{
  ℕ, String, ◌≡◌, refl, sym, ◌∙◌, Bool, true, false, not, ◌&&◌, ◌||◌, Option, none, some, List, [],
  ◌∷◌, arith, any, truthy, get_or, Bool-cases, if◌then◌else◌,
}
use durak_card_game.Match.{MatchState}
use durak_card_game.Store.{Language, set_match_state, add_activity}
use durak_card_game.MockApi.{MockStates, is_pass, initialize_mock_match}
use durak_card_game.MockApi.Kept.{IsMatch, AllMatches, initialize-IsMatch, apply-AllMatches}
use durak_card_game.GameTable.{MatchAction, Page, can_report_shuler}
use durak_card_game.GameTable.Send.{Table, plays_card, is_report, card_of, is_allowed}
use durak_card_game.GameTable.Mock.{
  MockTap, choose, press, mock_action, after_mock, mock_now, send_mocked, mock_tap, run_mock_taps,
  is_passing,
}

-- A match with the cards that the mock has dealt is shown.
abbrev pub IsDealt : Bool → String → Option MatchState → Type 0
IsDealt p room_id o = (m : MatchState) × (o ≡ some m) × IsMatch p room_id m

-- The page is the one of the room, and what it and the mock hold is dealt.
pub record Shows (p : Bool) (room_id : String) (s : Table × MockStates) : Type 0 where
  here : s.0.page.id ≡ some room_id
  shown : IsDealt p room_id s.0.store.state.match_state
  held : AllMatches p s.1

after_mock-id : (action : MatchAction) (p : Page) → (after_mock action p).id ≡ p.id
after_mock-id action p = ground (arith, Bool-cases (plays_card action))

module _ (p : Bool) (room_id : String) where
  Shows-page :
      (page : Page) (t : Table) (states : MockStates)
      → page.id ≡ t.page.id
      → Shows p room_id (t, states)
      → Shows p room_id (record t { page = page }, states)
  Shows-page page t states same_id h = record {
    here = same_id ∙ h.here;
    shown = h.shown;
    held = h.held;
  }

  mock_now-Shows :
      (now : ℕ) (action : MatchAction) (card_id : Option String) (t : Table) (states : MockStates)
      → (is_pass (mock_action action) ≡ true → p ≡ true)
      → Shows p room_id (t, states)
      → Shows p room_id (mock_now now room_id action card_id t states)
  unfolding set_match_state add_activity
  mock_now-Shows now action card_id t states may h =
      let (next, after) =
        apply-AllMatches p now room_id (mock_action action) card_id states may h.held in
      record { here = after_mock-id action t.page ∙ h.here; shown = (_, refl, next); held = after }

  if-Shows :
      (b : Bool) (r u : Table × MockStates)
      → Shows p room_id r
      → Shows p room_id u
      → Shows p room_id (if b then r else u)
  if-Shows true r u h k = h
  if-Shows false r u h k = k

  send_mocked-Shows :
      (lang : Language) (now : ℕ) (action : MatchAction) (over : Option String) (t : Table)
      (states : MockStates)
      → (is_pass (mock_action action) ≡ true → p ≡ true)
      → Shows p room_id (t, states)
      → Shows p room_id (send_mocked lang now action over t states)
  unfolding send_mocked
  send_mocked-Shows lang now action over t states may h =
      if-Shows (not (truthy t.page.id) || t.store.state.interaction_locked) _ _ h (
        if-Shows (is_report action && not (can_report_shuler t.page t.store.state)) _ _
          (Shows-page _ t states refl h)
          (if-Shows (not (is_allowed action (card_of over t.page) t)) _ _
            (Shows-page _ t states refl h)
            (subst
              (λ id.
                Shows p room_id (mock_now now (get_or id "") action (card_of over t.page) t states))
              (sym h.here) (mock_now-Shows now action (card_of over t.page) t states may h))))

  run-Shows :
      (lang : Language) (taps : List MockTap) (s : Table × MockStates)
      → (any is_passing taps ≡ true → p ≡ true)
      → Shows p room_id s
      → Shows p room_id (run_mock_taps lang taps s)
  unfolding mock_tap
  run-Shows lang [] s may h = h
  run-Shows lang (choose card_id ∷ taps) (t, states) may h =
      run-Shows lang taps _ may (Shows-page _ t states refl h)
  run-Shows lang (press now action ∷ taps) (t, states) may h =
      run-Shows lang taps _ (λ e. may (ground arith))
        (send_mocked-Shows lang now action none t states (λ e. may (ground arith)) h)

-- With the mock API on, from the page of a room that shows the match which the mock starts there:
-- after any clicks on cards and buttons the table shows a match whose cards in the hand, on the
-- table and gone are the six that were dealt, each as often, and which is finished, with the user
-- as winner, when the hand is empty and only then. If no click is_passing, no card is gone.
pub run_mock_taps-IsDealt :
    (lang : Language) (taps : List MockTap) (t : Table) (now : ℕ) (room_id : String)
    → t.page.id ≡ some room_id
    → t.store.state.match_state ≡ some (initialize_mock_match now room_id []).0
    → IsDealt
        (any is_passing taps)
        room_id
        (run_mock_taps lang taps
          (t, (initialize_mock_match now room_id []).1)).0.store.state.match_state
run_mock_taps-IsDealt lang taps t now room_id here shown =
    let (m, held) = initialize-IsMatch (any is_passing taps) now room_id [] tt in
    (run-Shows (any is_passing taps) room_id lang taps _ (λ e. e)
      (record { here = here; shown = (_, shown, m); held = held })).shown
