-- ===== src/Join/Locks.antt =====
-- The lock on the table through the events of a session.
use durak_card_game.Prelude.{String, ◌≡◌, Option, arith}
use durak_card_game.Store.{Store, set_game_error, update}
use durak_card_game.Join.State.{Env, World}
use durak_card_game.Join.Handlers.{on_error}

-- An error of the server never changes the lock of the table, also where it refuses a move of the
-- player, for which the table was locked.
pub on_error-locked :
    (env : Env) (code message : Option String) (w : World)
    → (on_error env code message w).session.store.state.interaction_locked
      ≡ w.session.store.state.interaction_locked
unfolding on_error set_game_error update
on_error-locked env code message w = ground arith
