-- ===== src/Connection/Connecting.antt =====
-- `startConnect` and `doConnect` of connection.cpp.
use multicore_programming_la.Common.{ℕ, ◌≡◌, refl, false, none}
use multicore_programming_la.Buffer.{Chunk}
use multicore_programming_la.Connection.{
  Connection, new_active, acquire, connected, do_connect, start_connect,
}

module _ (raw : Chunk) (conn_done : Connection → Connection) where
  -- A connection that is made at once has no descriptor when doConnect sets its upcalls.
  connected_at_once : (fd : ℕ) → start_connect conn_done fd connected false (new_active raw) ≡ none
  unfolding start_connect do_connect acquire
  connected_at_once fd = refl
