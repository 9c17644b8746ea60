-- ===== src/Bus/Linked.antt =====
-- The whole way from the browser's socket to the session: the callbacks of
-- src/shared/api/ws/socket.ts, the bus of src/shared/api/ws/events.ts, and the handlers of
-- src/processes/joinGame.process.ts, which `joinGameRoom` has put on the bus and set as the
-- connection handler.
use mathlib.Core.List.{append-nil}
use durak_card_game.Prelude.{
  Bool-cases, inl, inr, arith, ℕ, String, length, drop, ◌≡◌, refl, ap, sym, ◌∙◌, Bool, true, false,
  none, some, List, [], ◌∷◌, ◌++◌, if◌then◌else◌,
}
use durak_card_game.Join.State.{Env, World, ServerEvent, ClientEvent}
use durak_card_game.Join.Room.{
  on_event, on_connection, Happening, event, connection, happen, run_session,
}
use durak_card_game.Socket.{
  Wire, close, same_socket, give_up, schedule_reconnect, transmit, connect, disconnect, on_timer,
  on_ticket, on_ticket_failed, on_open, on_message, on_close, is_attempt_current, is_current_socket,
}
use durak_card_game.Socket.Attempts.{
  Callback, timer, ticket, ticket_failed, opened, message, closed, fire,
}
use durak_card_game.Bus.{Bus, emit_ws_event, join_listeners}
use durak_card_game.Bus.Delivery.{join_listeners-emit}

pub record Linked : Type 0 where
  pub wire : Wire
  pub bus : Bus World
  pub world : World

-- The calls that a callback has added to a list of calls.
abbrev pub added {ℓ} : {A : Type ℓ} → List A → List A → List A
added before after = drop (length before) after

-- the calls of the connection handler, one after the other
abbrev pub tell_all : Env → List Bool → World → World
tell_all env [] world = world
tell_all env (lost ∷ told) world = tell_all env told (on_connection env lost world)

-- the calls of `emitWsEvent`, one after the other
abbrev pub emit_all : Env → List ServerEvent → Bus World → World → World
emit_all env [] bus world = world
emit_all env (e ∷ events) bus world = emit_all env events bus (emit_ws_event env e bus world)

-- What the callback of the client does with the world: what it tells goes to the connection
-- handler, what it dispatches over the bus. No callback does both.
unfoldable pub deliver : Env → Callback → Wire → Bus World → World → World
deliver env c w bus world =
    let u = fire c w in
    emit_all env (added w.dispatched u.dispatched) bus (tell_all env (added w.told u.told) world)

unfoldable pub run_linked : List (Env × Callback) → Linked → Linked
unfolding deliver
run_linked [] l = l
run_linked (c ∷ rest) l =
    run_linked rest
      (record { wire = fire c.1 l.wire; bus = l.bus; world = deliver c.0 c.1 l.wire l.bus l.world })

-- what a session sees of a callback
abbrev pub seen : Callback → Wire → List Happening
seen (message (some e) s room a) w = if is_current_socket s room a w then event e ∷ [] else []
seen (opened known s room a) w =
    if is_current_socket s room a (record w { open_sockets = s ∷ w.open_sockets })
    then connection false ∷ []
    else []
seen (closed s room a) w =
    if is_attempt_current room a (close s w) then connection true ∷ [] else []
seen (ticket_failed room a) w = if is_attempt_current room a w then connection true ∷ [] else []
seen _ w = []

abbrev pub at_time : Env → List Happening → List (Env × Happening)
at_time env [] = []
at_time env (h ∷ hs) = (env, h) ∷ at_time env hs

-- what a session sees of callbacks that come one after the other
abbrev pub trace : List (Env × Callback) → Wire → List (Env × Happening)
trace [] w = []
trace (c ∷ rest) w = at_time c.0 (seen c.1 w) ++ trace rest (fire c.1 w)

run_session-append :
    (room : String) (xs ys : List (Env × Happening)) (w : World)
    → run_session room (xs ++ ys) w ≡ run_session room ys (run_session room xs w)
unfolding run_session
run_session-append room [] ys w = refl
run_session-append room (x ∷ xs) ys w = run_session-append room xs ys (happen room x w)

abbrev pub quiet_bus : Bus World
quiet_bus = record { listeners = []; next_id = 0 }

emit-quiet :
    (env : Env) (room : String) (e : ServerEvent) (w : World)
    → emit_ws_event env e (join_listeners room quiet_bus) w ≡ on_event env room e w
unfolding emit_ws_event
emit-quiet env room e w = join_listeners-emit env room e quiet_bus w

nothing_seen : (room : String) (w : World) → w ≡ run_session room [] w
unfolding run_session
nothing_seen room w = refl

added-append {ℓ} : {A : Type ℓ} (xs ys : List A) → added xs (xs ++ ys) ≡ ys
added-append [] ys = refl
added-append (x ∷ xs) ys = added-append xs ys

added_refl {ℓ} : {A : Type ℓ} (xs : List A) → added xs xs ≡ []
added_refl [] = refl
added_refl (x ∷ xs) = added_refl xs

-- The callback adds these calls, and no others.
record Adds (c : Callback) (w : Wire) (told : List Bool) (events : List ServerEvent) : Type 0 where
  tells : (fire c w).told ≡ w.told ++ told
  sends : (fire c w).dispatched ≡ w.dispatched ++ events

deliver-Adds :
    (env : Env) (c : Callback) (w : Wire) (bus : Bus World) (world : World) (told : List Bool)
    (events : List ServerEvent)
    → Adds c w told events
    → deliver env c w bus world ≡ emit_all env events bus (tell_all env told world)
unfolding deliver
deliver-Adds env c w bus world told events h =
    rw (h.tells, h.sends, added-append w.told told, added-append w.dispatched events) refl

Adds-none :
    {c : Callback} {w : Wire}
    → (fire c w).told ≡ w.told
    → (fire c w).dispatched ≡ w.dispatched
    → Adds c w [] []
Adds-none {c} {w} t d = record {
  tells = t ∙ sym (append-nil w.told);
  sends = d ∙ sym (append-nil w.dispatched);
}

Adds-told :
    {c : Callback} {w : Wire} (lost : Bool)
    → (fire c w).told ≡ w.told ++ lost ∷ []
    → (fire c w).dispatched ≡ w.dispatched
    → Adds c w (lost ∷ []) []
Adds-told {c} {w} lost t d = record { tells = t; sends = d ∙ sym (append-nil w.dispatched) }

give_up-logs :
    (room : String) (a : ℕ) (w : Wire)
    → ((give_up room a w).told ≡ w.told ++ true ∷ [])
      × ((give_up room a w).dispatched ≡ w.dispatched)
unfolding schedule_reconnect
give_up-logs room a w = ground (
  arith,
  Bool-cases (
      is_attempt_current room a (record w {
        client = record (w.client) { is_connecting = false };
        told = w.told ++ true ∷ [];
      })),
)

transmit-logs :
    (e : ClientEvent) (w : Wire)
    → ((transmit e w).told ≡ w.told) × ((transmit e w).dispatched ≡ w.dispatched)
unfolding transmit
transmit-logs e w = ground arith

connect-logs :
    (room : String) (w : Wire)
    → ((connect room w).told ≡ w.told) × ((connect room w).dispatched ≡ w.dispatched)
unfolding connect disconnect
connect-logs room w = ground arith

abbrev losses : List Happening → List Bool
losses [] = []
losses (connection lost ∷ hs) = lost ∷ losses hs
losses (_ ∷ hs) = losses hs

abbrev events : List Happening → List ServerEvent
events [] = []
events (event e ∷ hs) = e ∷ events hs
events (_ ∷ hs) = events hs

abbrev without_socket : ℕ → Wire → Wire
without_socket s w = record (close s w) {
  client = record (w.client) {
    socket = if same_socket w.client.socket s then none else w.client.socket;
  };
}

-- The callbacks of the client tell and dispatch what a session sees of them, and nothing else.
fire-Adds : (c : Callback) (w : Wire) → Adds c w (losses (seen c w)) (events (seen c w))
unfolding fire on_timer on_ticket on_ticket_failed on_open on_message on_close
fire-Adds (timer r a) w = elim (Bool-cases (is_attempt_current r a w)) [
  | inl now ↦
      Adds-none (rw (now, fire, on_timer) (connect-logs r w).0)
        (rw (now, fire, on_timer) (connect-logs r w).1)
  | inr late ↦ Adds-none (rw (late, fire, on_timer) refl) (rw (late, fire, on_timer) refl)
]
fire-Adds (ticket r a) w = elim (Bool-cases (is_attempt_current r a w)) [
  | inl now ↦ Adds-none (rw (now, fire, on_ticket) refl) (rw (now, fire, on_ticket) refl)
  | inr late ↦ Adds-none (rw (late, fire, on_ticket) refl) (rw (late, fire, on_ticket) refl)
]
fire-Adds (ticket_failed r a) w = elim (Bool-cases (is_attempt_current r a w)) [
  | inl now ↦ rw now (
      Adds-told true (rw (now, fire, on_ticket_failed) (give_up-logs r a w).0)
        (rw (now, fire, on_ticket_failed) (give_up-logs r a w).1))
  | inr late ↦
      rw late (
        Adds-none (rw (late, fire, on_ticket_failed) refl) (rw (late, fire, on_ticket_failed) refl))
]
fire-Adds (opened known s r a) w =
    elim (Bool-cases (is_current_socket s r a (record w { open_sockets = s ∷ w.open_sockets }))) [
      | inl now ↦ rw now (
          Adds-told false (rw (now, fire, on_open) (transmit-logs _ _).0)
            (rw (now, fire, on_open) (transmit-logs _ _).1))
      | inr late ↦
          rw late (Adds-none (rw (late, fire, on_open) refl) (rw (late, fire, on_open) refl))
    ]
fire-Adds (message none s r a) w = Adds-none refl refl
fire-Adds (message (some e) s r a) w = elim (Bool-cases (is_current_socket s r a w)) [
  | inl now ↦ rw now (record {
    tells = rw (now, fire, on_message) (sym (append-nil w.told));
    sends = rw (now, fire, on_message) refl;
  })
  | inr late ↦
      rw late (Adds-none (rw (late, fire, on_message) refl) (rw (late, fire, on_message) refl))
]
fire-Adds (closed s r a) w = elim (Bool-cases (is_attempt_current r a (close s w))) [
  | inl now ↦ rw now (
      Adds-told true (rw (now, fire, on_close) (give_up-logs r a (without_socket s w)).0)
        (rw (now, fire, on_close) (give_up-logs r a (without_socket s w)).1))
  | inr late ↦ rw late (Adds-none (rw (late, fire, on_close) refl) (rw (late, fire, on_close) refl))
]

-- What a session sees of a callback is a single happening, or nothing.
if_seen :
    (b : Bool) (env : Env) (room : String) (h : Happening) (world : World)
    → (emit_all env
          (events (h ∷ []))
          (join_listeners room quiet_bus)
          (tell_all env (losses (h ∷ [])) world)
        ≡ happen room (env, h) world)
    → emit_all env
        (events (if b then h ∷ [] else []))
        (join_listeners room quiet_bus)
        (tell_all env (losses (if b then h ∷ [] else [])) world)
      ≡ run_session room (at_time env (if b then h ∷ [] else [])) world
unfolding run_session
if_seen true env room h world e = e
if_seen false env room h world e = refl

seen_lem :
    (env : Env) (room : String) (c : Callback) (w : Wire) (world : World)
    → emit_all env
        (events (seen c w))
        (join_listeners room quiet_bus)
        (tell_all env (losses (seen c w)) world)
      ≡ run_session room (at_time env (seen c w)) world
unfolding happen
seen_lem env room (timer r a) w world = nothing_seen room world
seen_lem env room (ticket r a) w world = nothing_seen room world
seen_lem env room (ticket_failed r a) w world = if_seen _ env room (connection true) world refl
seen_lem env room (opened known s r a) w world = if_seen _ env room (connection false) world refl
seen_lem env room (message none s r a) w world = nothing_seen room world
seen_lem env room (message (some e) s r a) w world =
    if_seen _ env room (event e) world (emit-quiet env room e world)
seen_lem env room (closed s r a) w world = if_seen _ env room (connection true) world refl

deliver-seen :
    (env : Env) (room : String) (c : Callback) (w : Wire) (world : World)
    → deliver env c w (join_listeners room quiet_bus) world
      ≡ run_session room (at_time env (seen c w)) world
deliver-seen env room c w world =
    deliver-Adds env c w (join_listeners room quiet_bus) world _ _ (fire-Adds c w)
    ∙ seen_lem env room c w world

-- The socket, the bus and the handlers together are the session run on what the browser's callbacks
-- mean: an event for each message on the present socket, the connection lost or found for each
-- change of the present attempt, and nothing for what comes late, in the order of the callbacks.
-- So what holds of every run of the session holds behind the socket.
pub run_linked-run_session :
    (room : String) (callbacks : List (Env × Callback)) (w : Wire) (world : World)
    → (run_linked callbacks
        (record { wire = w; bus = join_listeners room quiet_bus; world = world })).world
      ≡ run_session room (trace callbacks w) world
unfolding run_linked run_session
run_linked-run_session room [] w world = refl
run_linked-run_session room (c ∷ rest) w world =
    run_linked-run_session room rest (fire c.1 w) _
    ∙ ap (run_session room (trace rest (fire c.1 w))) (deliver-seen c.0 room c.1 w world)
    ∙ sym (run_session-append room (at_time c.0 (seen c.1 w)) (trace rest (fire c.1 w)) world)
