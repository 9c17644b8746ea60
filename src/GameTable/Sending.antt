-- ===== src/GameTable/Sending.antt =====
-- What comes of an action at the table.
use durak_card_game.Prelude.{
  ℕ, String, ◌≡◌, refl, ap, ◌∙◌, Bool, true, false, not, ◌&&◌, ◌||◌, ◌==◌, Option, none, some, [],
  ◌∷◌, ◌++◌, truthy, get_or, arith, Bool-cases, inl, inr, if◌then◌else◌,
}
use durak_card_game.Store.{Language, version_of, set_interaction_locked, update}
use durak_card_game.Join.State.{ClientEvent, make_move}
use durak_card_game.Socket.{Wire, is_open, send_intent, transmit, map_intent_to_wire_action}
use durak_card_game.Socket.Intents.{send_intent-moves}
use durak_card_game.GameTable.{
  MatchAction, attack, defend, throw, shuler_play, take, pass, translate, shuler_report, Page,
  can_report_shuler,
}
use durak_card_game.GameTable.Send.{
  Table, intent_by_action, plays_card, is_report, card_of, is_allowed, send_now, payload_of,
  after_send, send_action,
}

-- The name of an action in the messages to the server.
abbrev pub wire_action : MatchAction → String
wire_action attack = "attack_card"
wire_action defend = "defend_card"
wire_action throw = "throw_card"
wire_action shuler_play = "shuler_play"
wire_action take = "take_cards"
wire_action pass = "pass_turn"
wire_action translate = "translate"
wire_action shuler_report = "shuler_report"

-- The page is that of a room, the table is not locked, a report is possible where it is one, and
-- the card is allowed.
pub record MaySend (id : String) (action : MatchAction) (card_id : Option String) (t : Table)
    : Type 0 where
  pub at : t.page.id ≡ some id
  pub named : (id == "") ≡ false
  pub unlocked : t.store.state.interaction_locked ≡ false
  pub report : (is_report action && not (can_report_shuler t.page t.store.state)) ≡ false
  pub allowed : is_allowed action card_id t ≡ true

if_false {ℓ} : {A : Type ℓ} (b : Bool) (x y : A) → b ≡ false → (if b then x else y) ≡ y
if_false true x y h = cc h
if_false false x y h = refl

open_page : (o : Option String) (id : String) → o ≡ some id → (id == "") ≡ false → truthy o ≡ true
open_page o id e named = rw (e, named) refl

module _ (lang : Language) (action_id : String) (action : MatchAction) (over : Option String)
    (t : Table) where
  send_action-now :
      {id : String}
      → MaySend id action (card_of over t.page) t
      → send_action lang action_id action over t
        ≡ send_now action_id id action (card_of over t.page) t
  unfolding send_action
  send_action-now {id} m =
      if_false (not (truthy t.page.id) || t.store.state.interaction_locked) _ _
        (rw (open_page t.page.id id m.at m.named, m.unlocked) refl)
      ∙ if_false (is_report action && not (can_report_shuler t.page t.store.state)) _ _ m.report
      ∙ if_false (not (is_allowed action (card_of over t.page) t)) _ _ (ap not m.allowed)
      ∙ ap (λ o. send_now action_id (get_or o "") action (card_of over t.page) t) m.at

  send_action-locked :
      t.store.state.interaction_locked ≡ true → send_action lang action_id action over t ≡ t
  unfolding send_action
  send_action-locked h = ground (arith, h)

wire_name :
    (a : MatchAction) → map_intent_to_wire_action (intent_by_action a) ≡ some (wire_action a)
unfolding map_intent_to_wire_action intent_by_action
wire_name attack = refl
wire_name defend = refl
wire_name throw = refl
wire_name shuler_play = refl
wire_name take = refl
wire_name pass = refl
wire_name translate = refl
wire_name shuler_report = refl

-- The message of the action, with the version that the store shows.
abbrev pub move_at : String → String → MatchAction → Option String → Table → ClientEvent
move_at action_id id action card_id t = make_move (record {
  room_id = id;
  action = wire_action action;
  card_id = if plays_card action then (if truthy card_id then card_id else none) else none;
  expected_version = some (get_or (version_of t.store.state.match_state) 0);
  action_id = action_id;
})

-- `truthy` again on what the payload keeps of the card
card_sent :
    (action : MatchAction) (card : Option String)
    → (let kept = if truthy card && plays_card action then card else none in
        if truthy kept then kept else none)
      ≡ (if plays_card action then (if truthy card then card else none) else none)
card_sent action card = ground (arith, Bool-cases (truthy card), Bool-cases (plays_card action))

module _ (action_id id : String) (action : MatchAction) (card_id : Option String) (t : Table)
    (named : (id == "") ≡ false) where
  intent_sent :
      send_intent
        (intent_by_action action)
        (payload_of action id card_id)
        action_id
        (t.wire, t.store)
      ≡ (
        transmit (move_at action_id id action card_id t) t.wire,
        set_interaction_locked true t.store,
      )
  intent_sent =
      send_intent-moves (intent_by_action action) (payload_of action id card_id) action_id id
        (wire_action action) t.wire t.store (wire_name action) (rw named refl) named
      ∙ ap
          (λ card. (
            transmit
                (make_move (record {
                  room_id = id;
                  action = wire_action action;
                  card_id = card;
                  expected_version = some (get_or (version_of t.store.state.match_state) 0);
                  action_id = action_id;
                }))
                t.wire,
            set_interaction_locked true t.store,
          ))
          (card_sent action card_id)

chosen_after :
    (action : MatchAction) (p : Page)
    → (after_send action p).selected_card_id
      ≡ (if plays_card action then none else p.selected_card_id)
chosen_after action p = elim (Bool-cases (plays_card action)) [
  | inl e ↦ rw e refl
  | inr e ↦ rw e refl
]

transmit-open :
    (event : ClientEvent) (s : ℕ) (w : Wire)
    → w.client.socket ≡ some s
    → is_open s w ≡ true
    → (transmit event w).frames ≡ w.frames ++ (s, event) ∷ []
unfolding transmit
transmit-open event s w there opened = rw (there, opened) refl

module _ (lang : Language) (action_id : String) (action : MatchAction) (over : Option String)
    (t : Table) where
  -- the table after the action
  abbrev acted : Table
  acted = send_action lang action_id action over t

  after-store :
      {id : String}
      → MaySend id action (card_of over t.page) t
      → acted.store ≡ set_interaction_locked true t.store
  after-store {id} m =
      ap (λ u. u.store) (send_action-now lang action_id action over t m)
      ∙ ap (λ sent. sent.1) (intent_sent action_id id action (card_of over t.page) t m.named)

  after-wire :
      {id : String}
      → MaySend id action (card_of over t.page) t
      → acted.wire ≡ transmit (move_at action_id id action (card_of over t.page) t) t.wire
  after-wire {id} m =
      ap (λ u. u.wire) (send_action-now lang action_id action over t m)
      ∙ ap (λ sent. sent.0) (intent_sent action_id id action (card_of over t.page) t m.named)

  locked_now :
      {id : String}
      → MaySend id action (card_of over t.page) t
      → acted.store.state.interaction_locked ≡ true
  unfolding set_interaction_locked update
  locked_now m = ap (λ st. st.state.interaction_locked) (after-store m)

  -- On an open socket, an action that passes the guards of sendAction becomes one message: the
  -- wire's name of the action, the card where the action plays one, and the version that the store
  -- shows. The table is locked, and the choice of a card is taken back where a card was played.
  pub send_action-transmits :
      {id : String} (s : ℕ)
      → MaySend id action (card_of over t.page) t
      → t.wire.client.socket ≡ some s
      → is_open s t.wire ≡ true
      → ((send_action lang action_id action over t).wire.frames
          ≡ t.wire.frames ++ (s, move_at action_id id action (card_of over t.page) t) ∷ [])
        × ((send_action lang action_id action over t).store.state.interaction_locked ≡ true)
        × ((send_action lang action_id action over t).page.selected_card_id
            ≡ (if plays_card action then none else t.page.selected_card_id))
  send_action-transmits s m there opened = (
    ap (λ w. w.frames) (after-wire m) ∙ transmit-open _ s t.wire there opened,
    locked_now m,
    ap (λ u. u.page.selected_card_id) (send_action-now lang action_id action over t m)
        ∙ chosen_after action t.page,
  )

  -- After an action has passed the guards, every further action is ignored until the store is
  -- unlocked: a second tap sends nothing and changes nothing.
  pub send_action-once :
      (second_id : String) (second : MatchAction) (card : Option String) {id : String}
      → MaySend id action (card_of over t.page) t
      → send_action lang second_id second card (send_action lang action_id action over t)
        ≡ send_action lang action_id action over t
  send_action-once second_id second card m =
      send_action-locked lang second_id second card acted (locked_now m)
