-- ===== src/Reconnect.antt =====
-- Whether the socket is reconnecting: src/store/socket.store.ts. Listeners are numbered; the calls
-- that they get are kept in order.
pub mod Laws
use durak_card_game.Prelude.{
  ℕ, Bool, true, false, not, List, [], ◌∷◌, ◌++◌, map, any, filter, eqb, if◌then◌else◌,
}

pub record SocketStore : Type 0 where
  pub is_reconnecting : Bool
  pub listeners : List ℕ
  pub calls : List (ℕ × Bool)

-- `a === b` on Booleans
abbrev pub same_bool : Bool → Bool → Bool
same_bool true b = b
same_bool false b = not b

unfoldable pub set_socket_reconnecting : Bool → SocketStore → SocketStore
set_socket_reconnecting value s =
    if same_bool s.is_reconnecting value
    then s
    else record s { is_reconnecting = value; calls = s.calls ++ map (λ l. (l, value)) s.listeners }

unfoldable pub subscribe_socket_store : ℕ → SocketStore → SocketStore
subscribe_socket_store listener s = record s {
  listeners = if any (eqb listener) s.listeners then s.listeners else s.listeners ++ listener ∷ [];
  calls = s.calls ++ (listener, s.is_reconnecting) ∷ [];
}

unfoldable pub unsubscribe_socket_store : ℕ → SocketStore → SocketStore
unsubscribe_socket_store listener s = record s {
  listeners = filter (λ l. not (eqb l listener)) s.listeners;
}
