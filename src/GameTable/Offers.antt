-- ===== src/GameTable/Offers.antt =====
-- The buttons against `sendAction`: what a press of each comes to.
use durak_card_game.Prelude.{
  String, ◌≡◌, Bool, none, truthy, false, not, ◌&&◌, ◌||◌, List, All, if◌then◌else◌,
}
use durak_card_game.Store.{GameState, Language}
use durak_card_game.GameTable.{
  warning, MatchAction, Page, affordances_of, can_report_shuler, is_card_allowed_for_action,
  has_detailed_hand,
}
use durak_card_game.GameTable.Buttons.{ActionDescriptor}
use durak_card_game.GameTable.Send.{Table, plays_card, is_report, feel, send_now, send_action}

-- Whether a press gets past the guards: always for a button that plays a card, and for the others
-- unless the state shows the hand and no card is chosen.
abbrev pub passes_by : Page → GameState → MatchAction → Bool
passes_by p g action =
    plays_card action || (not (has_detailed_hand g p.current_user_id) || truthy p.selected_card_id)

-- What a button that can be pressed is worth to each guard of `sendAction` in turn.
abbrev pub Gated : Page → GameState → ActionDescriptor → Type 0
Gated p g b =
    b.disabled ≡ false
    → (g.interaction_locked ≡ false)
      × ((is_report b.key && not (can_report_shuler p g)) ≡ false)
      × (is_card_allowed_for_action b.key p.selected_card_id (has_detailed_hand g p.current_user_id)
            (affordances_of g)
          ≡ passes_by p g b.key)

record AllGated (p : Page) (g : GameState) (bs : List ActionDescriptor) : Type 0 where
  all : All (Gated p g) bs

-- A press of the button sends its action, with the chosen card if there is one, or is refused with a
-- tap of the motor, which leaves all else as it is.
abbrev pub Pressed : Language → String → String → Table → ActionDescriptor → Type 0
Pressed lang action_id room_id t b =
    b.disabled ≡ false
    → send_action lang action_id b.key none t ≡ (
        if passes_by t.page t.store.state b.key
        then send_now action_id room_id b.key t.page.selected_card_id t
        else record t { page = feel warning t.page })
