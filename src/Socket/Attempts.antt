-- ===== src/Socket/Attempts.antt =====
-- Callbacks of earlier attempts to connect.
use durak_card_game.Prelude.{
  ℕ, ◌+◌, ◌≤◌, ◌<◌, String, ◌≡◌, refl, Bool, true, false, not, Option, none, some, List, [], ◌∷◌,
  arith, Option-cases, if◌then◌else◌,
}
use durak_card_game.Match.{MatchState}
use durak_card_game.Join.State.{ClientEvent, ServerEvent}
use durak_card_game.Socket.{
  Wire, close, is_attempt_current, is_current_socket, transmit, disconnect, connect,
  schedule_reconnect, on_timer, on_ticket, give_up, on_ticket_failed, on_open, on_message, on_close,
}

-- What the browser calls back.
pub data Callback : Type 0 where
  timer ticket ticket_failed : String → ℕ → Callback
  opened : Option MatchState → ℕ → String → ℕ → Callback
  message : Option ServerEvent → ℕ → String → ℕ → Callback
  closed : ℕ → String → ℕ → Callback

abbrev pub attempt_of : Callback → ℕ
attempt_of (timer room a) = a
attempt_of (ticket room a) = a
attempt_of (ticket_failed room a) = a
attempt_of (opened known s room a) = a
attempt_of (message event s room a) = a
attempt_of (closed s room a) = a

unfoldable pub fire : Callback → Wire → Wire
fire (timer room a) = on_timer room a
fire (ticket room a) = on_ticket room a
fire (ticket_failed room a) = on_ticket_failed room a
fire (opened known s room a) = on_open known s room a
fire (message event s room a) = on_message event s room a
fire (closed s room a) = on_close s room a

-- What the client shows and does is the same: its fields, the frames, the timers, the calls of the
-- connection handler and the events of the server.
pub record IsUnmoved (w u : Wire) : Type 0 where
  pub client : u.client ≡ w.client
  pub frames : u.frames ≡ w.frames
  pub timers : u.timers ≡ w.timers
  pub told : u.told ≡ w.told
  pub dispatched : u.dispatched ≡ w.dispatched

unmoved : (w : Wire) → IsUnmoved w w
unmoved w = record { client = refl; frames = refl; timers = refl; told = refl; dispatched = refl }

stale_attempt :
    (room : String) (a : ℕ) (w : Wire)
    → a < w.client.connect_attempt_id
    → is_attempt_current room a w ≡ false
unfolding is_attempt_current
stale_attempt room a w old = ground arith

stale_socket :
    (s : ℕ) (room : String) (a : ℕ) (w : Wire)
    → a < w.client.connect_attempt_id
    → is_current_socket s room a w ≡ false
unfolding is_current_socket
stale_socket s room a w old = ground (arith, stale_attempt room a w old)

stale-IsUnmoved :
    (cb : Callback) (w : Wire)
    → attempt_of cb < w.client.connect_attempt_id
    → IsUnmoved w (fire cb w)
unfolding fire on_timer on_ticket on_ticket_failed on_open on_message on_close
stale-IsUnmoved (timer room a) w old = rw (stale_attempt room a w old, fire, on_timer) (unmoved w)
stale-IsUnmoved (ticket room a) w old = rw (stale_attempt room a w old, fire, on_ticket) (unmoved w)
stale-IsUnmoved (ticket_failed room a) w old =
    rw (stale_attempt room a w old, fire, on_ticket_failed) (unmoved w)
stale-IsUnmoved (opened known s room a) w old =
    rw (stale_socket s room a (record w { open_sockets = s ∷ w.open_sockets }) old, fire, on_open)
      (record { client = refl; frames = refl; timers = refl; told = refl; dispatched = refl })
stale-IsUnmoved (message none s room a) w old = unmoved w
stale-IsUnmoved (message (some event) s room a) w old =
    rw (stale_socket s room a w old, fire, on_message) (unmoved w)
stale-IsUnmoved (closed s room a) w old =
    rw (stale_attempt room a (close s w) old, fire, on_close)
      (record { client = refl; frames = refl; timers = refl; told = refl; dispatched = refl })

-- What the program does with the client, and what the browser calls back.
pub data Step : Type 0 where
  connect_to : String → Step
  hang_up : Step
  say : ClientEvent → Step
  back : Callback → Step

unfoldable pub step : Step → Wire → Wire
step (connect_to room) = connect room
step hang_up = disconnect
step (say event) = transmit event
step (back cb) = fire cb

unfoldable pub run_steps : List Step → Wire → Wire
run_steps [] w = w
run_steps (s ∷ rest) w = run_steps rest (step s w)

abbrev pub attempt : Wire → ℕ
attempt w = w.client.connect_attempt_id

disconnect-attempt : (w : Wire) → attempt (disconnect w) ≡ attempt w + 1
unfolding disconnect
disconnect-attempt w = refl

connect-attempt : (room : String) (w : Wire) → attempt w ≤ attempt (connect room w)
unfolding connect
connect-attempt room w = ground (arith, disconnect-attempt w)

transmit-attempt : (event : ClientEvent) (w : Wire) → attempt (transmit event w) ≡ attempt w
unfolding transmit
transmit-attempt event w = ground (arith, Option-cases w.client.socket)

schedule-attempt :
    (room : String) (a : ℕ) (w : Wire) → attempt (schedule_reconnect room a w) ≡ attempt w
unfolding schedule_reconnect
schedule-attempt room a w = ground arith

-- At least `n` attempts were begun.
record Reaches (n : ℕ) (w : Wire) : Type 0 where
  le : n ≤ attempt w

if-Reaches :
    (n : ℕ) (b : Bool) (w u : Wire) → Reaches n w → Reaches n u → Reaches n (if b then w else u)
if-Reaches n true w u h k = h
if-Reaches n false w u h k = k

give_up-Reaches : (room : String) (a : ℕ) (w : Wire) → Reaches (attempt w) (give_up room a w)
give_up-Reaches room a w = record { le = rw schedule-attempt (omega arith) }

on_open-Reaches :
    (known : Option MatchState) (s : ℕ) (room : String) (a : ℕ) (w : Wire)
    → Reaches (attempt w) (on_open known s room a w)
unfolding on_open
on_open-Reaches known s room a w =
    if-Reaches (attempt w)
      (not (is_current_socket s room a (record w { open_sockets = s ∷ w.open_sockets }))) _ _
      (record { le = omega arith }) (record { le = rw transmit-attempt (omega arith) })

on_close-Reaches :
    (s : ℕ) (room : String) (a : ℕ) (w : Wire) → Reaches (attempt w) (on_close s room a w)
unfolding on_close
on_close-Reaches s room a w =
    if-Reaches (attempt w) (not (is_attempt_current room a (close s w))) _ _
      (record { le = omega arith }) (record { le = rw schedule-attempt (omega arith) })

on_ticket_failed-Reaches :
    (room : String) (a : ℕ) (w : Wire) → Reaches (attempt w) (on_ticket_failed room a w)
unfolding on_ticket_failed
on_ticket_failed-Reaches room a w =
    if-Reaches (attempt w) (not (is_attempt_current room a w)) w _ (record { le = omega arith })
      (give_up-Reaches room a w)

fire-attempt : (cb : Callback) (w : Wire) → attempt w ≤ attempt (fire cb w)
unfolding fire on_timer on_ticket on_ticket_failed on_open on_message on_close
fire-attempt (timer room a) w = ground (arith, connect-attempt room w)
fire-attempt (ticket room a) w = ground arith
fire-attempt (ticket_failed room a) w = (on_ticket_failed-Reaches room a w).le
fire-attempt (opened known s room a) w = (on_open-Reaches known s room a w).le
fire-attempt (message none s room a) w = omega arith
fire-attempt (message (some event) s room a) w = ground arith
fire-attempt (closed s room a) w = (on_close-Reaches s room a w).le

step-attempt : (s : Step) (w : Wire) → attempt w ≤ attempt (step s w)
unfolding step
step-attempt (connect_to room) w = connect-attempt room w
step-attempt hang_up w = omega (arith, disconnect-attempt w)
step-attempt (say event) w = omega (arith, transmit-attempt event w)
step-attempt (back cb) w = fire-attempt cb w

run_steps-attempt : (steps : List Step) (w : Wire) → attempt w ≤ attempt (run_steps steps w)
unfolding run_steps
run_steps-attempt [] w = omega arith
run_steps-attempt (s ∷ rest) w = omega (arith, step-attempt s w, run_steps-attempt rest (step s w))

-- After the client hung up, no callback of an attempt from before does anything to it: whatever was
-- done and called back since, the client's fields, the frames sent, the timers, what the connection
-- handler was told and the events that were passed on stay as they are.
pub hung_up-ignores :
    (w : Wire) (steps : List Step) (cb : Callback)
    → attempt_of cb ≤ attempt w
    → IsUnmoved (run_steps steps (disconnect w)) (fire cb (run_steps steps (disconnect w)))
hung_up-ignores w steps cb old =
    stale-IsUnmoved cb (run_steps steps (disconnect w))
      (omega (arith, disconnect-attempt w, run_steps-attempt steps (disconnect w)))
