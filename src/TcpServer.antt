-- ===== src/TcpServer.antt =====
-- muduo/net/TcpServer.h and TcpServer.cc: the connections that a server has, by name. `decimal` is what
-- snprintf prints for `%d`. What is handed to the loops of the connections is collected in the order of
-- the calls; when those loops run it, and in which thread, is left to the event loop.
pub mod Names
pub mod Serving
mod Tests
use my_cisdi_code.Prelude.{
  Bool, Bytes, List, Result, [], check, equal, false, if◌then◌else◌, not, ok, take, true, ℕ, ◌++◌,
  ◌+◌, ◌>>=◌, ◌>>◌, ◌||◌, ◌∷◌,
}
use my_cisdi_code.EventLoopThreadPool.{EventLoopThreadPool, get_next_loop, new_pool, start}

-- A TcpConnection, as far as the server looks at it.
pub record Connection : Type 0 where
  pub name : Bytes
  pub sockfd : ℕ
  pub io_loop : ℕ

pub record TcpServer : Type 0 where
  pub name : Bytes
  pub ip_port : Bytes
  pub pool : EventLoopThreadPool
  pub next_conn_id : ℕ
  -- `connections_`, each under its own name.
  pub connections : List Connection
  pub started : Bool
  pub listening : Bool
  -- The calls of `connectEstablished` and `connectDestroyed` that were handed over.
  pub established : List Connection
  pub destroyed : List Connection

abbrev pub new_server : ℕ → ℕ → Bytes → Bytes → TcpServer
new_server base_loop num_threads ip_port name = record {
  name = name;
  ip_port = ip_port;
  pool = new_pool base_loop num_threads;
  next_conn_id = 1;
  connections = [];
  started = false;
  listening = false;
  established = [];
  destroyed = [];
}

unfoldable pub start_server : (ℕ → ℕ) → TcpServer → Result TcpServer
unfolding start
start_server start_loop s = do
  (if s.started then ok s else do
    pool ← start start_loop s.pool
    check (not s.listening)
    ok (record s { started = true; listening = true; pool = pool }))

-- `char buf[64]`, with the zero byte at its end: 63 bytes are kept.
abbrev pub conn_name : (ℕ → Bytes) → TcpServer → ℕ → Bytes
conn_name decimal s id = s.name ++ take 63 (b'-' ∷ (s.ip_port ++ (b'#' ∷ decimal id)))

-- `connections_[conn->name()] = conn`
unfoldable pub assign : Connection → List Connection → List Connection
assign c [] = c ∷ []
assign c (d ∷ ds) = if equal c.name d.name then c ∷ ds else d ∷ assign c ds

unfoldable pub new_connection : (ℕ → Bytes) → ℕ → TcpServer → Result TcpServer
unfolding assign get_next_loop
new_connection decimal sockfd s = do
  (io_loop, pool) ← get_next_loop s.pool
  let c : Connection = record {
    name = conn_name decimal s s.next_conn_id;
    sockfd = sockfd;
    io_loop = io_loop;
  }
  ok (record s {
    pool = pool;
    next_conn_id = s.next_conn_id + 1;
    connections = assign c s.connections;
    established = s.established ++ (c ∷ []);
  })

unfoldable pub has : Bytes → List Connection → Bool
has name [] = false
has name (d ∷ ds) = equal name d.name || has name ds

unfoldable pub erase : Bytes → List Connection → List Connection
erase name [] = []
erase name (d ∷ ds) = if equal name d.name then ds else d ∷ erase name ds

unfoldable pub remove_connection_in_loop : Connection → TcpServer → Result TcpServer
unfolding has erase
remove_connection_in_loop c s = do
  check (has c.name s.connections)
  ok (record s { connections = erase c.name s.connections; destroyed = s.destroyed ++ (c ∷ []) })

-- The destructor.
abbrev pub destroy : TcpServer → TcpServer
destroy s = record s { connections = []; destroyed = s.destroyed ++ s.connections }
