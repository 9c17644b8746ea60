-- ===== src/Socket/Backoff.antt =====
-- How long the client waits before it tries again, and how it greets a room.
use durak_card_game.Join.State.{SyncRequest, ClientEvent, join_room, reconnect}
use durak_card_game.Prelude.{
  ◌<◌, ◌+◌, ◌*◌, min, map, List, ap, true, none, some, ◌≢◌, ◌⊎◌, inl, inr, truthy, ◌==◌, Bool-cases,
  if◌then◌else◌, ℕ, zero, suc, String, ◌≡◌, refl, Option, [], ◌∷◌, ◌++◌, arith, ltb, eq_iff,
}
use durak_card_game.Match.{MatchState}
use durak_card_game.Socket.{
  Wire, is_attempt_current, is_current_socket, transmit, disconnect, connect, reconnect_delay,
  on_ticket, on_open, hello, hello_request, on_timer, on_ticket_failed,
}

-- The client has asked for a ticket to the room.
pub record IsWaiting (room : String) (w : Wire) : Type 0 where
  pub joined : w.client.connected_room_id ≡ some room
  pub unconnected : w.client.socket ≡ none

-- The ticket fails, and then the timer that this has set runs out.
abbrev pub lose_try : String → Wire → Wire
lose_try room w =
    on_timer room w.client.connect_attempt_id (on_ticket_failed room w.client.connect_attempt_id w)

abbrev pub lose_tries : ℕ → String → Wire → Wire
lose_tries zero room w = w
lose_tries (suc k) room w = lose_tries k room (lose_try room w)

-- Waits that double up to ten seconds.
abbrev pub doubling : ℕ → ℕ → List ℕ
doubling zero wait = []
doubling (suc k) wait = wait ∷ doubling k (min (2 * wait) 10000)

abbrev pub delays : Wire → List ℕ
delays w = map (λ t. t.delay) w.timers

-- One lost try: a wait is added, and the client asks again.
record Lost (room : String) (w u : Wire) : Type 0 where
  waiting : IsWaiting room u
  counted : u.client.reconnect_attempts ≡ w.client.reconnect_attempts + 1
  waits : delays u ≡ delays w ++ reconnect_delay w.client.reconnect_attempts ∷ []

abbrev normal : String → Wire → Wire
normal room w = record w {
  client = record (w.client) { connected_room_id = some room; socket = none };
}

-- The id of the match, if it is there and not empty.
abbrev pub NamesMatch : Option String → Option String → Type 0
NamesMatch known said =
    ((id : String) × (known ≡ some id) × (id ≢ "") × (said ≡ some id))
    ⊎ (((known ≡ none) ⊎ (known ≡ some "")) × (said ≡ none))

-- The request names the room, and the version and the match of the state that is known.
abbrev pub AsksFor : Option MatchState → String → SyncRequest → Type 0
AsksFor none room r =
    (r.room_id ≡ room)
    × (r.last_known_version ≡ none)
    × (r.last_known_match_id ≡ none)
    × (r.supports_state_diff ≡ true)
AsksFor (some m) room r =
    (r.room_id ≡ room)
    × (r.last_known_version ≡ m.version)
    × NamesMatch m.match_id r.last_known_match_id
    × (r.supports_state_diff ≡ true)

-- A `join_room`, or after lost attempts a `reconnect`.
abbrev pub Greets : ℕ → SyncRequest → ClientEvent → Type 0
Greets lost r e = ((lost ≡ 0) × (e ≡ join_room r)) ⊎ ((0 < lost) × (e ≡ reconnect r))

names : (o : Option String) → NamesMatch o (if truthy o then o else none)
names none = inr (inl refl, refl)
names (some id) = elim (Bool-cases (id == "")) [
  | inl e ↦ inr (inr (ap some ((eq_iff id "").0 e)), ground (arith, e))
  | inr e ↦ inl (id, refl, ground (arith, e, eq_iff id ""), ground (arith, e))
]

hello_request-AsksFor :
    (known : Option MatchState) (room : String) → AsksFor known room (hello_request room known)
hello_request-AsksFor none room = (refl, refl, refl, refl)
hello_request-AsksFor (some m) room = (refl, refl, names m.match_id, refl)

hello-Greets :
    (lost : ℕ) (known : Option MatchState) (room : String)
    → Greets lost (hello_request room known) (hello (ltb 0 lost) room known)
hello-Greets lost known room = elim (Bool-cases (ltb 0 lost)) [
  | inl e ↦ inr (ground (arith, e), rw e refl)
  | inr e ↦ inl (ground (arith, e), rw e refl)
]

first_frame :
    (known : Option MatchState) (room : String) (w : Wire)
    → (let u = connect room (disconnect w) in
        let v = on_ticket room u.client.connect_attempt_id u in
        (on_open known w.sockets_made room u.client.connect_attempt_id v).frames)
      ≡ w.frames ++ (w.sockets_made, hello (ltb 0 w.client.reconnect_attempts) room known) ∷ []
unfolding disconnect connect on_ticket on_open is_current_socket is_attempt_current transmit
first_frame known room w = ground (arith, eq_iff room room)

-- In a room that is joined after hanging up, where the ticket and the socket come, the client sends
-- one message: a `join_room` if its count of lost attempts is zero, and else a `reconnect`, with the
-- room, and the version and the match id, if there are any, of the state that it knows. Hanging up
-- keeps the count, which may be of another room.
pub greeting :
    (known : Option MatchState) (room : String) (w : Wire)
    → (e : ClientEvent) × (r : SyncRequest) × ((let u = connect room (disconnect w) in
          let v = on_ticket room u.client.connect_attempt_id u in
          (on_open known w.sockets_made room u.client.connect_attempt_id v).frames)
        ≡ w.frames ++ (w.sockets_made, e) ∷ [])
      × Greets w.client.reconnect_attempts r e
      × AsksFor known room r
greeting known room w = (
  hello (ltb 0 w.client.reconnect_attempts) room known,
  hello_request room known,
  first_frame known room w,
  hello-Greets w.client.reconnect_attempts known room,
  hello_request-AsksFor known room,
)
