-- ===== src/Reconnect/Laws.antt =====
-- A listener hears of each change once.
use durak_card_game.Prelude.{◌≡◌, Bool, arith}
use durak_card_game.Reconnect.{SocketStore, set_socket_reconnecting}

-- Setting the value makes it the present one.
pub set_socket_reconnecting_lem :
    (v : Bool) (s : SocketStore) → (set_socket_reconnecting v s).is_reconnecting ≡ v
unfolding set_socket_reconnecting
set_socket_reconnecting_lem v s = ground arith

-- A value that is set twice in a row is told once.
pub set_socket_reconnecting_idem :
    (v : Bool) (s : SocketStore)
    → set_socket_reconnecting v (set_socket_reconnecting v s) ≡ set_socket_reconnecting v s
unfolding set_socket_reconnecting
set_socket_reconnecting_idem v s = ground arith
