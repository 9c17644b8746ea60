-- ===== src/Lib.antt =====
-- A verification library for the browser client of the card game (src/**).
--
-- The client of a table has these parts. The server's messages arrive at the socket client
-- (src/shared/api/ws/socket.ts), which keeps one connection to a room and tries again when it is
-- lost. The process of the room (src/processes/joinGame.process.ts) has a handler for each message;
-- the handlers write to the store of the match (src/store/game.store.ts), to the store that says
-- whether the socket is lost (src/store/socket.store.ts), to the buffer of moves that arrive before
-- the state they lead to (src/processes/joinGameMoveReplayBuffer.ts), and to counters
-- (src/processes/replayDebug.ts). The page reads the store through the selectors
-- (src/entities/game/model/selectors.ts); a card that is dropped goes through the interaction engine
-- (src/features/game/interaction) and the rules of the game
-- (src/entities/game/lib/canPlayCard.ts), and a move that passes is sent by the socket client, which
-- locks the table until the server answers. Between the socket client and the process there is the
-- bus of events (src/shared/api/ws/events.ts). Before the table there are the lobby, the creation of
-- a game and the page of a room (src/pages), which speak to the server over HTTP (src/shared/api).
--
-- Files:
-- - Prelude: shared names, lists, texts, integers and tests over the native numbers.
-- - Card, Play: src/entities/card/types.ts and canPlayCard.ts. `rankValue`, `cardBeats` and
--   `canPlayCard` are `rank_value`, `card_beats` and `can_play_card`, which is cut into a function
--   for each part of its body. Play.Rules says what may be played without the order of the tests.
-- - Match: the payloads of src/shared/api/ws/types.ts. A field that the code tests for presence is an
--   `Option`; unions of literals are texts, and the phases a data type.
-- - Drop: `detectZone`, `isValidMove`, `validateCardDrop`. Coordinates are any numbers with an order
--   and shifts that keep it.
-- - EventId: the two readers of the version in the id of a move.
-- - Store: the functions of game.store.ts, each from store to store under the source's name. Calls
--   of listeners are kept as a list.
-- - Selectors: selectors.ts, and the order of the seats.
-- - Tracker: the class `ReplayDebugTracker`. Replay: the buffer, over an interface `Host` of what its
--   factory is given.
-- - ErrorText: src/shared/utils/mapServerErrorToMessage.ts. Reconnect: socket.store.ts.
-- - Join: joinGame.process.ts. Join.State has the state of a session and its messages, Join.Handlers
--   a function `on_<event>` for each handler, Join.Room joining, the timer and leaving.
-- - Socket: the class `WsClient`; the callbacks that it leaves with the browser are functions.
-- - Bus: events.ts, the handlers that the process puts on it and takes off, and Bus.Linked, which
--   ties the callbacks of the socket to the bus and the session.
-- - Http: http.ts, auth.ts and ticket.ts of src/shared/api. `httpRequest` is `http_request`; what its
--   parts share with each other is a function over the request that they call.
-- - Rooms: rooms.ts. Lobby: the filters of src/pages/Play/PlayPage.tsx, and in Lobby.Search the rooms
--   that they leave. GameRoom: the page of a room,
--   src/pages/GameRoom/GameRoomPage.tsx. CreateGame: src/pages/create-game/CreateGamePage.tsx.
-- - GameTable: src/pages/game-table/GameTablePage.tsx: what it works out, its buttons, `sendAction`
--   with the mock API off and on, the result and the labels.
-- - MockApi: the matches of the mock server, src/mocks/mockApi.ts, with the map of them as a list.
-- - FormatActivity: src/entities/game/lib/formatActivity.ts.
-- - Tests: data of a small game, and the theorems at concrete inputs.
--
-- Numbers: versions, times and counts are natural numbers without a bound, as the doubles of the
-- source are exact up to 2^53; seat indices and amounts are signed; the numbers of a room are whole.
-- Loops of the source run over finite lists and are structural recursion. Only `http_request`, which
-- calls itself, takes fuel: 2 is enough, since the second try asks for no other, and the login that
-- may come before it asks for none. The limits are the source's: 50
-- items of activity, a window of 80 versions, 256 remembered ids, 24 waiting moves without a version,
-- 5 seconds to the fallback, 10 seconds of back-off at most.
--
-- Not modelled: the server (backend), the markup of the pages and the widgets, the tables of
-- translations, the mock's answers over HTTP, Telegram's interface, console output, the mode of development that
-- delays packets, and logins that several requests share. The clock, random ids, the language, the
-- network, the query of the address and the build's settings are arguments. A handler that awaits
-- the server is cut in two at the request, or is a function of the reply. Events that the client has
-- no handler for are left out of `ServerEvent`.
pub mod Prelude
pub mod Card
pub mod Match
pub mod Play
pub mod Drop
pub mod EventId
pub mod Store
pub mod FormatActivity
pub mod Selectors
pub mod Tracker
pub mod Replay
pub mod Rooms
pub mod Lobby
pub mod CreateGame
pub mod GameRoom
pub mod ErrorText
pub mod Reconnect
pub mod Join
pub mod Http
pub mod Bus
pub mod Socket
pub mod GameTable
pub mod MockApi
pub mod Tests
