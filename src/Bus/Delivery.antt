-- ===== src/Bus/Delivery.antt =====
-- The session at the table on the bus, and behind the socket.
use mathlib.Core.List.{append-nil, append_assoc}
use durak_card_game.Prelude.{
  ℕ, ◌+◌, ◌<◌, String, ◌≡◌, refl, ap, sym, ◌∙◌, true, false, not, List, [], ◌∷◌, ◌++◌, All, arith,
  eqb, length, filter-append, filter, Bool-cases, inl, inr, if◌then◌else◌,
}
use durak_card_game.Join.State.{
  Env, World, ServerEvent, room_update, game_state, state_sync, state_diff, move_applied,
  timer_update, match_finished, error_event, version_mismatch, player_disconnected,
  player_afk_bot_takeover, player_reconnected,
}
use durak_card_game.Join.Room.{on_event}
use durak_card_game.Bus.{
  Listener, Bus, type_of, all_types, on_ws_event, off, call_all, emit_ws_event, listen_to, off_from,
  join_listeners, leave_listeners,
}

call_all-append :
    {S : Type 0} (env : Env) (event : ServerEvent) (xs ys : List (Listener S)) (s : S)
    → call_all env event (xs ++ ys) s ≡ call_all env event ys (call_all env event xs s)
unfolding call_all
call_all-append env event [] ys s = refl
call_all-append env event (x ∷ xs) ys s = call_all-append env event xs ys _

-- a handler that is added hears its own type, after all others
on_ws_event-emit :
    {S : Type 0} (env : Env) (event : ServerEvent) (type : ℕ) (h : Env → ServerEvent → S → S)
    (bus : Bus S) (s : S)
    → emit_ws_event env event (on_ws_event type h bus) s ≡ (
        let t = emit_ws_event env event bus s in
        if eqb (type_of event) type then h env event t else t)
unfolding emit_ws_event on_ws_event call_all
on_ws_event-emit env event type h bus s =
    call_all-append env event bus.listeners _ s
    ∙ (elim (Bool-cases (eqb (type_of event) type)) [ inl e ↦ rw e refl | inr e ↦ rw e refl ])

-- what handlers that are added for the types `types` do with an event
heard : {S : Type 0} → Env → ServerEvent → List ℕ → (Env → ServerEvent → S → S) → S → S
heard env event [] h t = t
heard env event (type ∷ types) h t =
    heard env event types h (if eqb (type_of event) type then h env event t else t)

listen_to-emit :
    {S : Type 0} (env : Env) (event : ServerEvent) (types : List ℕ) (h : Env → ServerEvent → S → S)
    (bus : Bus S) (s : S)
    → emit_ws_event env event (listen_to types h bus) s
      ≡ heard env event types h (emit_ws_event env event bus s)
unfolding listen_to heard
listen_to-emit env event [] h bus s = refl
listen_to-emit env event (type ∷ types) h bus s =
    listen_to-emit env event types h (on_ws_event type h bus) s
    ∙ ap (heard env event types h) (on_ws_event-emit env event type h bus s)

heard_once :
    (env : Env) (room : String) (event : ServerEvent) (w : World)
    → heard env event all_types (λ surroundings e. on_event surroundings room e) w
      ≡ on_event env room event w
unfolding heard
heard_once env room room_update w = refl
heard_once env room (game_state p) w = refl
heard_once env room (state_sync r m) w = refl
heard_once env room (state_diff r v p) w = refl
heard_once env room (move_applied p) w = refl
heard_once env room (timer_update p) w = refl
heard_once env room (match_finished p) w = refl
heard_once env room (error_event c m) w = refl
heard_once env room (version_mismatch p) w = refl
heard_once env room (player_disconnected r p) w = refl
heard_once env room (player_afk_bot_takeover r p) w = refl
heard_once env room (player_reconnected r p) w = refl

-- After a session has joined, an event on the bus runs the handlers that were there before, in their
-- order, and then the session's handler for the event, exactly once.
pub join_listeners-emit :
    (env : Env) (room : String) (event : ServerEvent) (bus : Bus World) (w : World)
    → emit_ws_event env event (join_listeners room bus) w
      ≡ on_event env room event (emit_ws_event env event bus w)
unfolding join_listeners
join_listeners-emit env room event bus w =
    listen_to-emit env event all_types (λ surroundings e. on_event surroundings room e) bus w
    ∙ heard_once env room event (emit_ws_event env event bus w)

eqb_self : (k : ℕ) → eqb k k ≡ true
eqb_self k = ground arith

differs : (k j : ℕ) → k < j → eqb j k ≡ false
differs k j lt = ground arith

differs' : (k j : ℕ) → j < k → eqb j k ≡ false
differs' k j lt = ground arith

module _ {S : Type 0} (h : Env → ServerEvent → S → S) where
  -- the handlers that `listen_to` adds, with numbers from `k` on
  added : ℕ → List ℕ → List (Listener S)
  added k [] = []
  added k (type ∷ types) =
      record {
        id = k;
        type = type;
        handler = λ env event s. if eqb (type_of event) type then h env event s else s;
      }
      ∷ added (k + 1) types

  listen_to-added :
      (types : List ℕ) (bus : Bus S)
      → (listen_to types h bus).listeners ≡ bus.listeners ++ added bus.next_id types
  unfolding listen_to on_ws_event added
  listen_to-added [] bus = sym (append-nil bus.listeners)
  listen_to-added (type ∷ types) bus =
      listen_to-added types (on_ws_event type h bus)
      ∙ append_assoc bus.listeners _ (added (bus.next_id + 1) types)

  keeps_later :
      (k j : ℕ) (types : List ℕ)
      → k < j
      → filter (λ l. not (eqb l.id k)) (added j types) ≡ added j types
  unfolding added
  keeps_later k j [] lt = refl
  keeps_later k j (type ∷ types) lt =
      rw (differs k j lt, keeps_later k (j + 1) types (omega arith)) refl

  keeps_old :
      (k : ℕ) (old : List (Listener S))
      → All (λ l. l.id < k) old
      → filter (λ l. not (eqb l.id k)) old ≡ old
  keeps_old k [] lt = refl
  keeps_old k (l ∷ old) (lt, lts) = rw (differs' k l.id lt, keeps_old k old lts) refl

  older : (k : ℕ) (old : List (Listener S)) → All (λ l. l.id < k) old → All (λ l. l.id < k + 1) old
  older k [] lt = tt
  older k (l ∷ old) (lt, lts) = (omega arith, older k old lts)

  off_from-added :
      (types : List ℕ) (k : ℕ) (old : List (Listener S)) (bus : Bus S)
      → All (λ l. l.id < k) old
      → bus.listeners ≡ old ++ added k types
      → (off_from (length types) k bus).listeners ≡ old
  unfolding off_from off added
  off_from-added [] k old bus lt e = e ∙ append-nil old
  off_from-added (type ∷ types) k old bus lt e =
      off_from-added types (k + 1) old (off k bus) (older k old lt) (
        ap (filter (λ l. not (eqb l.id k))) e
        ∙ filter-append (λ l. not (eqb l.id k)) old (added k (type ∷ types))
        ∙ rw (keeps_old k old lt, eqb_self k, keeps_later k (k + 1) types (omega arith)) refl)

-- Leaving takes off exactly the handlers that joining added: the bus has those that it had before,
-- in the same order.
pub leave-join_listeners :
    (room : String) (bus : Bus World)
    → All (λ l. l.id < bus.next_id) bus.listeners
    → (leave_listeners bus.next_id (join_listeners room bus)).listeners ≡ bus.listeners
unfolding leave_listeners join_listeners
leave-join_listeners room bus fresh =
    off_from-added h all_types bus.next_id bus.listeners (listen_to all_types h bus) fresh
      (listen_to-added h all_types bus)
  where
    h : Env → ServerEvent → World → World
    h surroundings e = on_event surroundings room e
