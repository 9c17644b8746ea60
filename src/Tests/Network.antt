-- ===== src/Tests/Network.antt =====
-- The theorems on the sockets at concrete inputs.
use durak_card_game.Prelude.{◌≡◌, true, none, some, List, [], ◌∷◌, ◌++◌, arith}
use durak_card_game.Socket.{Wire, IntentPayload, connect, disconnect, on_ticket, on_open}
use durak_card_game.Socket.Attempts.{
  Step, timer, ticket, connect_to, back, fire, run_steps, IsUnmoved, hung_up-ignores,
}
use durak_card_game.Socket.Backoff.{Greets, AsksFor, greeting}
use durak_card_game.Join.State.{ClientEvent, SyncRequest}

abbrev wire : Wire
wire = record {
  client = record {
    socket = none;
    connected_room_id = some "room";
    reconnect_attempts = 2;
    connect_attempt_id = 5;
    is_connecting = true;
  };
  sockets_made = 1;
  open_sockets = [];
  frames = [];
  timers = [];
  told = [];
  dispatched = [];
}

abbrev steps : List Step
steps = connect_to "room" ∷ back (ticket "room" 7) ∷ []

hung_up-ignores_example :
    IsUnmoved
      (run_steps steps (disconnect wire))
      (fire (timer "room" 5) (run_steps steps (disconnect wire)))
hung_up-ignores_example = hung_up-ignores wire steps (timer "room" 5) (omega arith)

-- The client has hung up and asked for a ticket, with no lost try counted.
abbrev asking : Wire
asking = record wire {
  client = record {
    socket = none;
    connected_room_id = some "room";
    reconnect_attempts = 0;
    connect_attempt_id = 5;
    is_connecting = true;
  };
}

greeting_example :
    (e : ClientEvent) × (r : SyncRequest) × ((let u = connect "other" (disconnect wire) in
        let v = on_ticket "other" u.client.connect_attempt_id u in
        (on_open none wire.sockets_made "other" u.client.connect_attempt_id v).frames)
      ≡ wire.frames ++ (wire.sockets_made, e) ∷ [])
    × Greets wire.client.reconnect_attempts r e
    × AsksFor none "other" r
greeting_example = greeting none "other" wire

abbrev payload : IntentPayload
payload = record { room_id = some "room"; card_id = some "6H" }
