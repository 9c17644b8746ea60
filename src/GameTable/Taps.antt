-- ===== src/GameTable/Taps.antt =====
-- What a player can bring about at the table with the mock API off. There the cards are drawn by
-- PlayerHandFan, so that `setSelectedCardId` is only ever called with `null`.
use durak_card_game.Prelude.{
  ℕ, String, ◌≡◌, refl, Bool, true, false, not, ◌&&◌, ◌||◌, Option, none, some, List, [], ◌∷◌,
  truthy, Bool-cases, inl, inr, if◌then◌else◌,
}
use durak_card_game.Store.{Store, Language}
use durak_card_game.Selectors.{select_can_take}
use durak_card_game.Play.{PlayAction}
use durak_card_game.GameTable.{
  MatchAction, take, Page, has_detailed_hand, can_report_shuler, is_card_allowed_for_action,
  tick_shuler_window, medium,
}
use durak_card_game.GameTable.Send.{
  Table, plays_card, is_report, card_of, is_allowed, action_of_play, after_send, feel, send_action,
  swipe_take, on_play_card, on_intent_error,
}

-- A button, a card that is dropped, the swipe; and what comes from elsewhere: a new state of the
-- store, an error to show, the clock of the shuler's window. A text is the random id of a message.
pub data Tap : Type 0 where
  click : String → MatchAction → Tap
  play : String → String → PlayAction → Tap
  swipe : String → Tap
  arrive : Store → Tap
  told : Option String → Option String → Tap
  tick : ℕ → Tap

module _ (lang : Language) where
  unfoldable pub tap : Tap → Table → Table
  tap (click id action) t = send_action lang id action none t
  tap (play id card_id action) t = on_play_card lang id card_id action t
  tap (swipe id) t = swipe_take lang id t
  tap (arrive store) t = record t { store = store }
  tap (told text code) t = record t { page = on_intent_error lang text code t.page }
  tap (tick clock) t = record t { page = tick_shuler_window t.store.state clock t.page }

  unfoldable pub run_taps : List Tap → Table → Table
  run_taps [] t = t
  run_taps (x ∷ taps) t = run_taps taps (tap x t)

record NoChoice (t : Table) : Type 0 where
  chosen : t.page.selected_card_id ≡ none

if-NoChoice : (b : Bool) (t u : Table) → NoChoice t → NoChoice u → NoChoice (if b then t else u)
if-NoChoice true t u h k = h
if-NoChoice false t u h k = k

after_send-chosen :
    (action : MatchAction) (p : Page)
    → p.selected_card_id ≡ none
    → (after_send action p).selected_card_id ≡ none
after_send-chosen action p h = elim (Bool-cases (plays_card action)) [
  | inl e ↦ rw e refl
  | inr e ↦ rw e h
]

module _ (lang : Language) where
  send_action-NoChoice :
      (id : String) (action : MatchAction) (over : Option String) (t : Table)
      → NoChoice t
      → NoChoice (send_action lang id action over t)
  unfolding send_action
  send_action-NoChoice id action over t h =
      if-NoChoice (not (truthy t.page.id) || t.store.state.interaction_locked) _ _ h (
        if-NoChoice (is_report action && not (can_report_shuler t.page t.store.state)) _ _
          (record { chosen = h.chosen })
          (if-NoChoice (not (is_allowed action (card_of over t.page) t)) _ _
            (record { chosen = h.chosen })
            (record { chosen = after_send-chosen action t.page h.chosen })))

  tap-NoChoice : (x : Tap) (t : Table) → NoChoice t → NoChoice (tap lang x t)
  unfolding tap on_play_card swipe_take on_intent_error tick_shuler_window
  tap-NoChoice (click id action) t h = send_action-NoChoice id action none t h
  tap-NoChoice (play id card_id action) t h =
      send_action-NoChoice id (action_of_play action) (some card_id) t h
  tap-NoChoice (swipe id) t h =
      if-NoChoice
        (select_can_take t.store.state t.page.current_user_id
          && not t.store.state.interaction_locked)
        _ _
        (send_action-NoChoice id take none (record t { page = feel medium t.page })
          (record { chosen = h.chosen }))
        h
  tap-NoChoice (arrive store) t h = record { chosen = h.chosen }
  tap-NoChoice (told text code) t h = record { chosen = h.chosen }
  tap-NoChoice (tick clock) t h = record { chosen = h.chosen }

  run_taps-NoChoice : (taps : List Tap) (t : Table) → NoChoice t → NoChoice (run_taps lang taps t)
  unfolding run_taps
  run_taps-NoChoice [] t h = h
  run_taps-NoChoice (x ∷ taps) t h = run_taps-NoChoice taps (tap lang x t) (tap-NoChoice x t h)

-- The message and the store are the same.
pub record IsUnsent (t u : Table) : Type 0 where
  pub wire : u.wire ≡ t.wire
  pub store : u.store ≡ t.store

if-IsUnsent :
    (b : Bool) (t u v : Table) → IsUnsent t u → IsUnsent t v → IsUnsent t (if b then u else v)
if-IsUnsent true t u v h k = h
if-IsUnsent false t u v h k = k

refused :
    (lang : Language) (id : String) (action : MatchAction) (t : Table)
    → is_allowed action (card_of none t.page) t ≡ false
    → IsUnsent t (send_action lang id action none t)
unfolding send_action
refused lang id action t h =
    if-IsUnsent (not (truthy t.page.id) || t.store.state.interaction_locked) t _ _
      (record { wire = refl; store = refl })
      (if-IsUnsent (is_report action && not (can_report_shuler t.page t.store.state)) t _ _
        (record { wire = refl; store = refl }) (rw h (record { wire = refl; store = refl })))

needs_card :
    (action : MatchAction) (t : Table)
    → NoChoice t
    → has_detailed_hand t.store.state t.page.current_user_id ≡ true
    → is_allowed action (card_of none t.page) t ≡ false
unfolding is_card_allowed_for_action
needs_card action t n h = rw (h, n.chosen) refl

swipe-IsUnsent :
    (lang : Language) (id : String) (t : Table)
    → NoChoice t
    → has_detailed_hand t.store.state t.page.current_user_id ≡ true
    → IsUnsent t (swipe_take lang id t)
unfolding swipe_take
swipe-IsUnsent lang id t n shown =
    let felt = record t { page = feel medium t.page } in
    let r = refused lang id take felt (needs_card take felt (record { chosen = n.chosen }) shown) in
    if-IsUnsent
      (select_can_take t.store.state t.page.current_user_id && not t.store.state.interaction_locked)
      t _ _ (record { wire = r.wire; store = r.store }) (record { wire = refl; store = refl })

-- On a page that was opened with no card chosen, whatever the player taps and drops and whatever
-- arrives: while the state shows the player's cards, no button sends anything, and the swipe does
-- not either. This holds of the buttons to take, to pass and to report too, which need no card.
pub run_taps-IsUnsent :
    (lang : Language) (taps : List Tap) (t : Table) (id : String) (action : MatchAction)
    → t.page.selected_card_id ≡ none
    → has_detailed_hand
        (run_taps lang taps t).store.state
        (run_taps lang taps t).page.current_user_id
      ≡ true
    → IsUnsent (run_taps lang taps t) (tap lang (click id action) (run_taps lang taps t))
      × IsUnsent (run_taps lang taps t) (tap lang (swipe id) (run_taps lang taps t))
unfolding tap
run_taps-IsUnsent lang taps t id action h shown =
    let kept = run_taps-NoChoice lang taps t (record { chosen = h }) in
    (
      refused lang id action (run_taps lang taps t) (needs_card action _ kept shown),
      swipe-IsUnsent lang id (run_taps lang taps t) kept shown,
    )
