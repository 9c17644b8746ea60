-- ===== src/GameTable/Buttons.antt =====
-- The buttons of the table's page: `primaryActions` and `secondaryActions` of
-- src/pages/game-table/GameTablePage.tsx, without their labels.
use durak_card_game.Prelude.{
  Bool, true, false, not, ◌||◌, Option, none, some, List, [], ◌∷◌, ◌++◌, String, is_empty,
  if◌then◌else◌,
}
use durak_card_game.Match.{Affordances}
use durak_card_game.Store.{GameState}
use durak_card_game.Selectors.{
  select_can_attack, select_can_defend, select_can_take, select_can_pass, select_can_throw,
  select_can_shuler_play, select_is_attacker, select_is_defender,
}
use durak_card_game.GameTable.{
  MatchAction, attack, defend, throw, shuler_play, take, pass, translate, shuler_report, Page,
  is_card_allowed_for_action, affordances_of, has_detailed_hand, can_report_shuler,
  is_translate_mode, can_translate,
}

pub data Variant : Type 0 where
  primary default unset : Variant

-- `ActionDescriptor`; the key is the action, and a click sends it.
pub record ActionDescriptor : Type 0 where
  pub key : MatchAction
  pub variant : Variant
  pub disabled : Bool

abbrev pub when : Bool → ActionDescriptor → List ActionDescriptor
when true b = b ∷ []
when false b = []

-- `Boolean(ids?.length)`
abbrev pub lists_any : Option Affordances → (Affordances → Option (List String)) → Bool
lists_any none ids = false
lists_any (some aff) ids = elim (ids aff) [ none ↦ false | some xs ↦ not (is_empty xs) ]

-- `!allowed || interactionLocked || !isCardAllowedForAction(…)`
abbrev pub blocked : Page → GameState → Bool → MatchAction → Bool
blocked p g allowed action =
    not allowed
    || (g.interaction_locked
        || not (
            is_card_allowed_for_action action p.selected_card_id
              (has_detailed_hand g p.current_user_id) (affordances_of g)))

unfoldable pub attack_button : Page → GameState → List ActionDescriptor
attack_button p g =
    when
      (select_can_attack g p.current_user_id
        || (select_is_attacker g p.current_user_id
            || lists_any (affordances_of g) (λ a. a.attack_card_ids)))
      (record {
        key = attack;
        variant = primary;
        disabled = blocked p g (select_can_attack g p.current_user_id) attack;
      })

unfoldable pub defend_button : Page → GameState → List ActionDescriptor
defend_button p g =
    when
      (select_can_defend g p.current_user_id
        || (select_is_defender g p.current_user_id
            || lists_any (affordances_of g) (λ a. a.defend_card_ids)))
      (record {
        key = defend;
        variant = if select_can_defend g p.current_user_id then primary else default;
        disabled = blocked p g (select_can_defend g p.current_user_id) defend;
      })

unfoldable pub take_button : Page → GameState → List ActionDescriptor
take_button p g =
    when (select_can_take g p.current_user_id || select_is_defender g p.current_user_id) (record {
      key = take;
      variant = primary;
      disabled = not (select_can_take g p.current_user_id) || g.interaction_locked;
    })

unfoldable pub primary_actions : Page → GameState → List ActionDescriptor
unfolding attack_button defend_button take_button
primary_actions p g = attack_button p g ++ defend_button p g ++ take_button p g

unfoldable pub pass_button : Page → GameState → List ActionDescriptor
pass_button p g =
    when (select_can_pass g p.current_user_id)
      (record { key = pass; variant = unset; disabled = g.interaction_locked })

unfoldable pub translate_button : Page → GameState → List ActionDescriptor
translate_button p g = when (is_translate_mode p g) (record {
  key = translate;
  variant = unset;
  disabled = blocked p g (can_translate p g) translate;
})

unfoldable pub throw_button : Page → GameState → List ActionDescriptor
throw_button p g =
    when
      (select_can_throw g p.current_user_id
        || lists_any (affordances_of g) (λ a. a.throw_in_card_ids))
      (record {
        key = throw;
        variant = unset;
        disabled = blocked p g (select_can_throw g p.current_user_id) throw;
      })

unfoldable pub shuler_play_button : Page → GameState → List ActionDescriptor
shuler_play_button p g =
    when
      (select_can_shuler_play g p.current_user_id
        || lists_any (affordances_of g) (λ a. a.shuler_play_card_ids))
      (record {
        key = shuler_play;
        variant = unset;
        disabled = blocked p g (select_can_shuler_play g p.current_user_id) shuler_play;
      })

unfoldable pub shuler_report_button : Page → GameState → List ActionDescriptor
shuler_report_button p g =
    when (can_report_shuler p g)
      (record { key = shuler_report; variant = unset; disabled = g.interaction_locked })

unfoldable pub secondary_actions : Page → GameState → List ActionDescriptor
unfolding pass_button translate_button throw_button shuler_play_button shuler_report_button
secondary_actions p g =
    pass_button p g
    ++ translate_button p g
    ++ throw_button p g
    ++ shuler_play_button p g
    ++ shuler_report_button p g
