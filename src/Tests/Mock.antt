-- ===== src/Tests/Mock.antt =====
-- The theorem on the mock's matches at a concrete sequence of calls.
use durak_card_game.Prelude.{◌≡◌, refl, String, false, Option, none, some, List, [], ◌∷◌, map}
use durak_card_game.Match.{MatchState}
use durak_card_game.MockApi as Mocked
use durak_card_game.MockApi.{
  MockAction, MockAction.attack, MockAction.take, MockCall, get_state, act_on,
  initialize_mock_match, apply_mock_match_action, run_mock,
}
use durak_card_game.GameTable.{
  take, attack, is_card_allowed_for_action, has_detailed_hand, current_player,
}
use durak_card_game.GameTable.Send.{Table}
use durak_card_game.GameTable.Mock.{MockTap, choose, press, run_mock_taps, mock_tap, send_mocked}
use durak_card_game.GameTable.Dealt.{IsDealt, run_mock_taps-IsDealt}
use durak_card_game.Store.{ru, set_match_state, add_activity, update}
use durak_card_game.Tests.{showing, shown_store}
use durak_card_game.Tests.Page.{at_table, page}
use durak_card_game.MockApi.Kept.{AllMatches, run_mock-kept}

abbrev call : String → MockAction → Option String → MockCall
call room_id action card_id = record {
  now = 5;
  room_id = room_id;
  action = action;
  card_id = card_id;
}

abbrev calls : List MockCall
calls =
    call "one" Mocked.attack (some "c5")
    ∷ call "two" Mocked.attack (some "c1")
    ∷ call "one" Mocked.attack (some "c9")
    ∷ call "two" Mocked.take none
    ∷ []

abbrev table_of : Option MatchState → List String
table_of none = []
table_of (some state) = elim state.table_cards [ none ↦ [] | some cards ↦ map (λ c. c.id) cards ]

-- The five of the hand is laid in the first room; in the second the ace is taken back.
run_mock_at_calls :
    (table_of (get_state "one" (run_mock calls [])) ≡ "c5" ∷ [])
    × (table_of (get_state "two" (run_mock calls [])) ≡ [])
unfolding act_on initialize_mock_match apply_mock_match_action
run_mock_at_calls = (refl, refl)

run_mock-kept_example : AllMatches false (run_mock calls [])
run_mock-kept_example = run_mock-kept calls

-- The page of the room where the mock has dealt.
abbrev seated : Table
unfolding initialize_mock_match
seated = record at_table {
  page = record page { current_user_id = some "local-user" };
  store = record shown_store { state = showing (initialize_mock_match 5 "room" []).0 };
}

abbrev taps : List MockTap
taps = press 6 attack ∷ choose "c5" ∷ press 7 attack ∷ press 8 take ∷ []

-- An attack without a card is refused, and so is taking without one; the five is chosen and laid.
run_mock_taps_at_taps :
    table_of
      (run_mock_taps ru taps
        (seated, (initialize_mock_match 5 "room" []).1)).0.store.state.match_state
    ≡ "c5" ∷ []
unfolding mock_tap send_mocked initialize_mock_match act_on apply_mock_match_action set_match_state
    add_activity update is_card_allowed_for_action has_detailed_hand current_player
run_mock_taps_at_taps = refl

run_mock_taps-IsDealt_example :
    IsDealt false "room"
      (run_mock_taps ru taps
        (seated, (initialize_mock_match 5 "room" []).1)).0.store.state.match_state
unfolding initialize_mock_match
run_mock_taps-IsDealt_example = run_mock_taps-IsDealt ru taps seated 5 "room" refl refl
