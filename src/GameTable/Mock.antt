-- ===== src/GameTable/Mock.antt =====
-- `sendAction` of src/pages/game-table/GameTablePage.tsx, with the mock API on: the page draws the
-- state that the mock returns.
use Prim.Native.String
use durak_card_game.Prelude.{
  ℕ, String, Bool, false, not, ◌&&◌, ◌||◌, Option, none, some, List, [], ◌∷◌, truthy, get_or,
  if◌then◌else◌,
}
use durak_card_game.Store.{Language, set_match_state, add_activity}
use durak_card_game.MockApi as Mocked
use durak_card_game.MockApi.{MockAction, MockStates, is_pass, apply_mock_match_action}
use durak_card_game.GameTable.{
  MatchAction, attack, defend, throw, shuler_play, take, pass, translate, shuler_report, Page,
  warning, selection, can_report_shuler,
}
use durak_card_game.GameTable.Send.{
  Table, plays_card, is_report, feel, card_of, is_allowed, too_late,
}

abbrev pub mock_action : MatchAction → MockAction
mock_action attack = Mocked.attack
mock_action defend = Mocked.defend
mock_action throw = Mocked.attack
mock_action shuler_play = Mocked.defend
mock_action take = Mocked.take
mock_action pass = Mocked.pass
mock_action translate = Mocked.defend
mock_action shuler_report = Mocked.pass

-- the text of an action
abbrev pub action_text : MatchAction → String
action_text attack = "attack"
action_text defend = "defend"
action_text throw = "throw"
action_text shuler_play = "shuler_play"
action_text take = "take"
action_text pass = "pass"
action_text translate = "translate"
action_text shuler_report = "shuler_report"

abbrev pub after_mock : MatchAction → Page → Page
after_mock action p = if plays_card action then record p { selected_card_id = none } else p

-- past the guards
abbrev pub mock_now :
    ℕ → String → MatchAction → Option String → Table → MockStates → Table × MockStates
mock_now now id action card_id t states =
    let (next, after) = apply_mock_match_action now id (mock_action action) card_id states in
    (
      record t {
        page = after_mock action t.page;
        store =
            add_activity now (String.◌++◌ "Mock action: " (action_text action))
              (set_match_state next t.store);
      },
      after,
    )

unfoldable pub send_mocked :
    Language → ℕ → MatchAction → Option String → Table → MockStates → Table × MockStates
send_mocked lang now action card_id_override t states =
    if not (truthy t.page.id) || t.store.state.interaction_locked
    then (t, states)
    else if is_report action && not (can_report_shuler t.page t.store.state)
    then (
      record t { page = feel warning (record (t.page) { intent_error = some (too_late lang) }) },
      states,
    )
    else if not (is_allowed action (card_of card_id_override t.page) t)
    then (record t { page = feel warning t.page }, states)
    else mock_now now (get_or t.page.id "") action (card_of card_id_override t.page) t states

-- A card of the hand that is clicked, or a button.
pub data MockTap : Type 0 where
  choose : String → MockTap
  press : ℕ → MatchAction → MockTap

module _ (lang : Language) where
  unfoldable pub mock_tap : MockTap → Table × MockStates → Table × MockStates
  mock_tap (choose card_id) (t, states) = (
    record t { page = record (feel selection t.page) { selected_card_id = some card_id } },
    states,
  )
  mock_tap (press now action) (t, states) = send_mocked lang now action none t states

  abbrev pub run_mock_taps : List MockTap → Table × MockStates → Table × MockStates
  run_mock_taps [] s = s
  run_mock_taps (x ∷ taps) s = run_mock_taps taps (mock_tap x s)

abbrev pub is_passing : MockTap → Bool
is_passing (choose card_id) = false
is_passing (press now action) = is_pass (mock_action action)
