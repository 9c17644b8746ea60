-- ===== src/Tests/Requests.antt =====
-- The theorems on requests, on the bus and on the way from the socket at concrete inputs.
use durak_card_game.Prelude.{
  ◌++◌, ℕ, zero, suc, ◌≡◌, refl, true, false, none, some, List, [], ◌∷◌, arith,
}
use durak_card_game.Http.{
  call_of, Call, Reply, answer, object, nothing, Options, Outcome, Web, Host, empty, fetch,
  refresh_token, http_request,
}
use durak_card_game.Http.Plain.{Skips, paths, outcome_of}
use durak_card_game.Http.Requests.{refreshed, http_request-ends, http_request-refreshed}
use durak_card_game.Http.Session.{Settled, refresh_token-Settled}
use durak_card_game.Join.State.{Env, World, game_state}
use durak_card_game.Join.Room.{run_session}
use durak_card_game.Socket.{Wire}
use durak_card_game.Socket.Attempts.{Callback, message, closed}
use durak_card_game.Bus.{Bus, join_listeners, leave_listeners}
use durak_card_game.Bus.Delivery.{leave-join_listeners}
use durak_card_game.Bus.Linked.{quiet_bus, run_linked, trace, run_linked-run_session}
use durak_card_game.Tests.{at_version, env_at}
use durak_card_game.Tests.Session.{world}

-- The server refuses the first request, and gives a new token for the second.
net : ℕ → Call → Reply
net n call = elim n [
  | zero ↦ answer 401 nothing
  | suc m ↦ answer 200 (
      object (record {
        code = none;
        message = none;
        request_id = none;
        channel_link = none;
        access_token = some "new";
        refresh_token = none;
        ticket = none;
      }))
]

abbrev host : Host
host = record {
  force_dev_auth = false;
  is_local_dev_host = false;
  init_data = some "user";
  dev_init_data = "dev";
}

abbrev options : Options
options = record { body = empty; authorization = none; skip_auth = false; retry_auth = true }

abbrev web : Web
web = record {
  access_token = some "old";
  refresh_token = some "refresh";
  dev_auth = false;
  calls = [];
}

http_request-ends_example :
    (outcome : Outcome) × (u : Web) × (more : List Call) × (http_request net 2 host "/api/rooms"
        options web
      ≡ some (outcome, u))
    × (u.calls ≡ web.calls ++ call_of net "/api/rooms" options web ∷ more)
    × Skips (paths more) ("/auth/refresh" ∷ "/auth/telegram" ∷ "/api/rooms" ∷ [])
http_request-ends_example = http_request-ends net host 0 "/api/rooms" options web

http_request-refreshed_example :
    (let call : Call = record {
      path = "/api/rooms";
      authorization = some "new";
      body = options.body;
    } in
      let after = refreshed net host "/api/rooms" options web in
      http_request net 2 host "/api/rooms" options web
      ≡ some (outcome_of (fetch net call after).0, (fetch net call after).1))
unfolding net fetch refresh_token
http_request-refreshed_example =
    http_request-refreshed net host "/api/rooms" options web 0 "new" nothing refl refl refl refl

refresh_token-Settled_example : Settled net web (refresh_token net web)
refresh_token-Settled_example = refresh_token-Settled net web

abbrev busy_bus : Bus World
busy_bus = record {
  listeners = (record { id = 4; type = 0; handler = λ env event w. w }) ∷ [];
  next_id = 5;
}

leave-join_listeners_example :
    (leave_listeners busy_bus.next_id (join_listeners "room" busy_bus)).listeners
    ≡ busy_bus.listeners
leave-join_listeners_example = leave-join_listeners "room" busy_bus (omega arith, tt)

abbrev wire : Wire
wire = record {
  client = record {
    socket = some 1;
    connected_room_id = some "room";
    reconnect_attempts = 0;
    connect_attempt_id = 5;
    is_connecting = false;
  };
  sockets_made = 2;
  open_sockets = 1 ∷ [];
  frames = [];
  timers = [];
  told = [];
  dispatched = [];
}

abbrev callbacks : List (Env × Callback)
callbacks =
    (env_at 10, message (some (game_state (at_version 8))) 1 "room" 5)
    ∷ (env_at 20, closed 1 "room" 5)
    ∷ []

run_linked-run_session_example :
    (run_linked callbacks
      (record { wire = wire; bus = join_listeners "room" quiet_bus; world = world })).world
    ≡ run_session "room" (trace callbacks wire) world
run_linked-run_session_example = run_linked-run_session "room" callbacks wire world
