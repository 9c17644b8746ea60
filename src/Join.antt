-- ===== src/Join.antt =====
-- The session at a table: src/processes/joinGame.process.ts, with src/store/socket.store.ts. The
-- variables that `joinGameRoom` closes over and the stores that it writes are one `World`; a handler
-- of a server event is a function from the world to the world. What is sent through `wsClient.send`
-- and dispatched on `window` is kept in order. The clock, the language, the random ids and the
-- build's settings are an `Env`; the clock stands still within one handler.
pub mod State
pub mod Handlers
pub mod Room
pub mod Frame
pub mod Versions
pub mod Moves
pub mod Held
pub mod Shown
pub mod Replayed
pub mod InStep
pub mod Locks
