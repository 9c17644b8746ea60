-- ===== src/GameTable/Send.antt =====
-- `sendAction` of src/pages/game-table/GameTablePage.tsx, with the mock API off, and the handlers
-- that call it or set what it shows. The page is drawn from the store's present state.
use durak_card_game.Prelude.{
  String, Bool, true, false, not, ◌&&◌, ◌||◌, Option, none, some, [], ◌∷◌, ◌++◌, truthy, or_else,
  get_or, if◌then◌else◌,
}
use durak_card_game.Store.{Store, Language, tr_runtime}
use durak_card_game.Selectors.{select_can_take}
use durak_card_game.Play as Rules
use durak_card_game.Play.{PlayAction}
use durak_card_game.Socket as Client
use durak_card_game.Socket.{Intent, IntentPayload, Wire, send_intent}
use durak_card_game.GameTable.{
  MatchAction, attack, defend, throw, shuler_play, take, pass, translate, shuler_report, Page,
  IntentError, Haptic, medium, warning, is_card_allowed_for_action, affordances_of,
  has_detailed_hand, can_report_shuler,
}

-- the page, the client of the socket and the store
pub record Table : Type 0 where
  pub page : Page
  pub wire : Wire
  pub store : Store

-- `intentByAction`
unfoldable pub intent_by_action : MatchAction → Intent
intent_by_action attack = Client.play_attack
intent_by_action defend = Client.play_defend
intent_by_action throw = Client.throw_in
intent_by_action shuler_play = Client.shuler_play
intent_by_action take = Client.take
intent_by_action pass = Client.pass
intent_by_action translate = Client.translate
intent_by_action shuler_report = Client.shuler_report

-- `["attack", "defend", "throw", "translate", "shuler_play"].includes(action)`
abbrev pub plays_card : MatchAction → Bool
plays_card take = false
plays_card pass = false
plays_card shuler_report = false
plays_card _ = true

abbrev pub is_report : MatchAction → Bool
is_report shuler_report = true
is_report _ = false

abbrev pub feel : Haptic → Page → Page
feel h p = record p { haptics = p.haptics ++ h ∷ [] }

-- `cardIdOverride ?? selectedCardId ?? undefined`
abbrev pub card_of : Option String → Page → Option String
card_of card_id_override p = or_else card_id_override p.selected_card_id

abbrev pub is_allowed : MatchAction → Option String → Table → Bool
is_allowed action card_id t =
    is_card_allowed_for_action action card_id
      (has_detailed_hand t.store.state t.page.current_user_id) (affordances_of t.store.state)

abbrev pub payload_of : MatchAction → String → Option String → IntentPayload
payload_of action id card_id = record {
  room_id = some id;
  card_id = if truthy card_id && plays_card action then card_id else none;
}

abbrev pub after_send : MatchAction → Page → Page
after_send action p =
    let felt = feel medium p in
    if plays_card action then record felt { selected_card_id = none } else felt

abbrev pub too_late : Language → IntentError
too_late lang = record {
  text = tr_runtime lang "Окно жалобы на шулера уже закрыто." "Вікно скарги на шулера вже закрите.";
  code = some "shulerReportWindowClosed";
}

-- past the guards; `action_id` is the random id that `sendIntent` draws
abbrev pub send_now : String → String → MatchAction → Option String → Table → Table
send_now action_id id action card_id t =
    let sent =
      send_intent (intent_by_action action) (payload_of action id card_id) action_id
        (t.wire, t.store) in
    record { page = after_send action t.page; wire = sent.0; store = sent.1 }

abbrev pub has_id : Option String → Bool
has_id = truthy

unfoldable pub send_action : Language → String → MatchAction → Option String → Table → Table
unfolding intent_by_action
send_action lang action_id action card_id_override t =
    if not (truthy t.page.id) || t.store.state.interaction_locked
    then t
    else if is_report action && not (can_report_shuler t.page t.store.state)
    then record t { page = feel warning (record (t.page) { intent_error = some (too_late lang) }) }
    else if not (is_allowed action (card_of card_id_override t.page) t)
    then record t { page = feel warning t.page }
    else send_now action_id (get_or t.page.id "") action (card_of card_id_override t.page) t

-- the swipe over the table
unfoldable pub swipe_take : Language → String → Table → Table
unfolding send_action
swipe_take lang action_id t =
    if select_can_take t.store.state t.page.current_user_id && not t.store.state.interaction_locked
    then send_action lang action_id take none (record t { page = feel medium t.page })
    else t

-- `onPlayCard`, for the action of a card that was dropped
abbrev pub action_of_play : PlayAction → MatchAction
action_of_play Rules.attack = attack
action_of_play Rules.defend = defend
action_of_play Rules.throw = throw
action_of_play Rules.shuler_play = shuler_play

unfoldable pub on_play_card : Language → String → String → PlayAction → Table → Table
unfolding send_action
on_play_card lang action_id card_id action t =
    send_action lang action_id (action_of_play action) (some card_id) t

-- `onIntentError`, for an event with a text, or none
unfoldable pub on_intent_error : Language → Option String → Option String → Page → Page
on_intent_error lang text code p = record p {
  intent_error = some (record {
    text =
        if truthy text
        then get_or text ""
        else tr_runtime lang "Не удалось выполнить действие. Попробуйте еще раз."
            "Не вдалося виконати дію. Спробуйте ще раз.";
    code = code;
  });
}
