-- ===== src/FormatActivity.antt =====
-- The lines of the activity list: src/entities/game/lib/formatActivity.ts.
use Prim.Native.String
use durak_card_game.Prelude.{
  String, ◌==◌, none, some, List, find, get_or, or_else, truthy, if◌then◌else◌,
}
use durak_card_game.Match.{Player}
use durak_card_game.Store.{Language, tr_runtime, ActivityItem, move, system}

module _ (lang : Language) where
  unfoldable pub get_player_name : List Player → String → String
  get_player_name players player_id = elim (find (λ p. p.id == player_id) players) [
    | none ↦ tr_runtime lang "Игрок" "Гравець"
    | some p ↦ get_or (or_else p.display_name p.username) (tr_runtime lang "Игрок" "Гравець")
  ]

  -- `actionLabels[move.action] ?? move.action`
  unfoldable pub action_label : String → String
  action_label action =
      if action == "attack"
      then tr_runtime lang "атаковал" "атакував"
      else if action == "throw"
      then tr_runtime lang "подкинул" "підкинув"
      else if action == "defend"
      then tr_runtime lang "побил" "побив"
      else if action == "shuler_play"
      then tr_runtime lang "сыграл как шулер" "зіграв як шулер"
      else if action == "take"
      then tr_runtime lang "взял" "взяв"
      else if action == "pass"
      then tr_runtime lang "пас" "пас"
      else action

  unfoldable pub format_activity_item : ActivityItem → List Player → String
  unfolding get_player_name action_label
  format_activity_item (system message timestamp) players = message
  format_activity_item (move m) players = String.◌++◌ (get_player_name players m.player_id) (
      String.◌++◌ ": " (
        String.◌++◌ (action_label m.action)
          (if truthy m.card_id then tr_runtime lang " (карта)" " (карта)" else "")))
