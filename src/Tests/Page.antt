-- ===== src/Tests/Page.antt =====
-- The theorems on the table's page at concrete inputs.
use mathlib.Core.List.{Perm}
use durak_card_game.Prelude.{
  ◌≡◌, refl, true, false, none, some, List, [], ◌∷◌, ◌++◌, map, inl, inr, if◌then◌else◌,
}
use durak_card_game.Prelude.Int.{pos, negsuc}
use durak_card_game.Match.{MatchState, Player, Finish}
use durak_card_game.Play.{piles_of}
use durak_card_game.Store.{Store, GameState, MatchResult, ru}
use durak_card_game.Socket.{Wire}
use durak_card_game.GameTable.{
  take, defend, Page, has_detailed_hand, current_player, is_card_allowed_for_action, table_pairs,
}
use durak_card_game.GameTable.Send.{Table, send_action, plays_card}
use durak_card_game.GameTable.Sending.{MaySend, move_at, send_action-transmits, send_action-once}
use durak_card_game.GameTable.Taps.{Tap, click, arrive, tap, run_taps, IsUnsent, run_taps-IsUnsent}
use durak_card_game.GameTable.Offers.{passes_by}
use durak_card_game.GameTable.Seen.{as_shown, as_ruled, table_pairs-as_ruled}
use durak_card_game.GameTable.Finish.{NetResults, finish_of, IsDescending, finish_of-places}
use durak_card_game.Tests.{nine, six, defending, showing, shown_store}

abbrev pub page : Page
page = record {
  id = some "room";
  room = none;
  current_user_id = some "me";
  selected_card_id = none;
  shuler_window_ms_left = 0;
  intent_error = none;
  haptics = [];
}

abbrev open_wire : Wire
open_wire = record {
  client = record {
    socket = some 1;
    connected_room_id = some "room";
    reconnect_attempts = 0;
    connect_attempt_id = 5;
    is_connecting = false;
  };
  sockets_made = 2;
  open_sockets = 1 ∷ [];
  frames = [];
  timers = [];
  told = [];
  dispatched = [];
}

abbrev pub at_table : Table
at_table = record { page = page; wire = open_wire; store = shown_store }

may_take : MaySend "room" take none at_table
unfolding is_card_allowed_for_action has_detailed_hand current_player
may_take = record { at = refl; named = refl; unlocked = refl; report = refl; allowed = refl }

send_action-transmits_example :
    ((send_action ru "id" take none at_table).wire.frames
      ≡ open_wire.frames ++ (1, move_at "id" "room" take none at_table) ∷ [])
    × ((send_action ru "id" take none at_table).store.state.interaction_locked ≡ true)
    × ((send_action ru "id" take none at_table).page.selected_card_id
        ≡ (if plays_card take then none else none))
send_action-transmits_example =
    send_action-transmits ru "id" take none at_table 1 may_take refl refl

send_action-once_example :
    send_action ru "id-2" defend (some "9H") (send_action ru "id" take none at_table)
    ≡ send_action ru "id" take none at_table
send_action-once_example =
    send_action-once ru "id" take none at_table "id-2" defend (some "9H") may_take

abbrev me_with_cards : Player
me_with_cards = record {
  id = "me";
  username = none;
  display_name = none;
  photo_url = none;
  balance_usd = none;
  hand_count = some 1;
  is_current_turn = true;
  hand = some (nine ∷ []);
}

abbrev dealt : MatchState
dealt = record defending { players = some (me_with_cards ∷ []) }

abbrev dealt_store : Store
dealt_store = record shown_store { state = showing dealt }

abbrev taps : List Tap
taps = arrive dealt_store ∷ click "id" defend ∷ []

run_taps-IsUnsent_example :
    IsUnsent (run_taps ru taps at_table) (tap ru (click "id-2" take) (run_taps ru taps at_table))
    × IsUnsent (run_taps ru taps at_table) (tap ru (Tap.swipe "id-2") (run_taps ru taps at_table))
unfolding run_taps tap send_action is_card_allowed_for_action has_detailed_hand current_player
run_taps-IsUnsent_example = run_taps-IsUnsent ru taps at_table "id-2" take refl refl

abbrev dealt_table : Table
dealt_table = record at_table { store = dealt_store }

-- With the hand shown and no card chosen, a press of the button to take is refused.
take_at_hand : passes_by page (showing dealt) take ≡ false
unfolding has_detailed_hand current_player
take_at_hand = refl

table_pairs-as_ruled_example :
    map as_shown (table_pairs (showing defending)) ≡ map as_ruled (piles_of defending)
table_pairs-as_ruled_example =
    table_pairs-as_ruled (showing defending) defending refl
      (inr (inr (record { attack = six; defend = none; defense = none }, [], refl, (inl refl, tt))))

abbrev result : MatchResult
result = record {
  settlement_id = none;
  net_results = ("ann", negsuc 999) ∷ ("me", pos 950) ∷ [];
  commission = some (pos 50);
  pot = some (pos 2000);
  new_balances = none;
  abandoned = none;
}

abbrev over : GameState
over = record (showing defending) { match_result = some result }

finish_of-places_example :
    (f : Finish) × (order : NetResults) × (finish_of over ≡ some f)
    × Perm order result.net_results
    × IsDescending order
    × (f.places ≡ map (λ e. e.0) order)
finish_of-places_example = finish_of-places over result refl refl
