-- ===== src/Connector.antt =====
-- muduo/net/Connector.h and Connector.cc: a client socket that is connected without blocking, and
-- retried with a growing delay. The fd that `socket` gives, `errno` and SO_ERROR are arguments.
pub mod Sockets
mod Tests
use my_cisdi_code.Prelude.{
  Bool, List, Option, Result, [], assertion_failed, check, false, fault, if◌then◌else◌, min, none,
  not, ok, some, true, ℕ, ◌*◌, ◌++◌, ◌>>=◌, ◌>>◌, ◌||◌, ◌∷◌,
}

pub data State : Type 0 where
  disconnected connecting connected : State

abbrev pub max_retry_delay_ms : ℕ
max_retry_delay_ms = 30 * 1000

abbrev pub init_retry_delay_ms : ℕ
init_retry_delay_ms = 500

pub record Connector : Type 0 where
  pub connect : Bool
  pub state : State
  -- The fd of `channel_`, which stays until `resetChannel` runs.
  pub channel : Option ℕ
  -- `addedToLoop_` of that channel.
  pub added_to_loop : Bool
  pub retry_delay_ms : ℕ

pub data Effect : Type 0 where
  opened closed new_connection : ℕ → Effect
  -- `startInLoop` after so many milliseconds, or queued.
  retry_after : ℕ → Effect
  queued_start queued_stop queued_reset : Effect

pub record Done : Type 0 where
  pub conn : Connector
  pub effects : List Effect

abbrev pub done : Connector → List Effect → Result Done
done c es = ok (record { conn = c; effects = es })

-- What `connect` leaves in `errno`; 0 for success.
pub data ConnectErrno : Type 0 where
  success einprogress eintr eisconn : ConnectErrno
  eagain eaddrinuse eaddrnotavail econnrefused enetunreach : ConnectErrno
  eacces eperm eafnosupport ealready ebadf efault enotsock : ConnectErrno
  unexpected : ConnectErrno

abbrev pub new_connector : Connector
new_connector = record {
  connect = false;
  state = disconnected;
  channel = none;
  added_to_loop = false;
  retry_delay_ms = init_retry_delay_ms;
}

abbrev pub is_connecting : State → Bool
is_connecting connecting = true
is_connecting _ = false

abbrev pub is_disconnected : State → Bool
is_disconnected disconnected = true
is_disconnected _ = false

abbrev pub is_none : Option ℕ → Bool
is_none none = true
is_none (some fd) = false

unfoldable pub retry : ℕ → Connector → Done
retry sockfd c =
    if c.connect
    then record {
      conn = record c {
        state = disconnected;
        retry_delay_ms = min (c.retry_delay_ms * 2) max_retry_delay_ms;
      };
      effects = closed sockfd ∷ retry_after c.retry_delay_ms ∷ [];
    }
    else record { conn = record c { state = disconnected }; effects = closed sockfd ∷ [] }

-- `connecting(sockfd)`: `enableWriting` adds the new channel to the loop.
unfoldable pub start_connecting : ℕ → Connector → Result Done
start_connecting sockfd c = do
  check (is_none c.channel)
  done (record c { state = connecting; channel = some sockfd; added_to_loop = true }) []

-- The `switch` of `connect`.
unfoldable pub after_connect : ConnectErrno → ℕ → Connector → Result Done
unfolding start_connecting retry
after_connect success sockfd c = start_connecting sockfd c
after_connect einprogress sockfd c = start_connecting sockfd c
after_connect eintr sockfd c = start_connecting sockfd c
after_connect eisconn sockfd c = start_connecting sockfd c
after_connect eagain sockfd c = ok (retry sockfd c)
after_connect eaddrinuse sockfd c = ok (retry sockfd c)
after_connect eaddrnotavail sockfd c = ok (retry sockfd c)
after_connect econnrefused sockfd c = ok (retry sockfd c)
after_connect enetunreach sockfd c = ok (retry sockfd c)
after_connect _ sockfd c = done c (closed sockfd ∷ [])

abbrev pub before : List Effect → Result Done → Result Done
before es (ok d) = done d.conn (es ++ d.effects)
before es (fault e) = fault e

-- `connect()`, with the new socket and what the call left in `errno`.
unfoldable pub connect : ℕ → ConnectErrno → Connector → Result Done
connect sockfd errno c = before (opened sockfd ∷ []) (after_connect errno sockfd c)

unfoldable pub start_in_loop : ℕ → ConnectErrno → Connector → Result Done
start_in_loop sockfd errno c = do
  check (is_disconnected c.state)
  if c.connect then connect sockfd errno c else done c []

unfoldable pub start : Bool → ℕ → ConnectErrno → Connector → Result Done
start in_loop sockfd errno c =
    if in_loop
    then start_in_loop sockfd errno (record c { connect = true })
    else done (record c { connect = true }) (queued_start ∷ [])

unfoldable pub stop : Connector → Result Done
stop c = done (record c { connect = false }) (queued_stop ∷ [])

-- `removeAndResetChannel`, which takes the channel out of the loop: a null `channel_` would be read
-- through.
unfoldable pub remove_and_reset_channel : Connector → Result (ℕ × Connector)
remove_and_reset_channel c = elim c.channel [
  | none ↦ fault assertion_failed
  | some fd ↦ ok (fd, record c { added_to_loop = false })
]

-- `resetChannel`: the destructor of a channel asserts that it is in no loop.
unfoldable pub reset_channel : Connector → Result Done
reset_channel c = elim c.channel [
  | none ↦ done c []
  | some fd ↦ do check (not c.added_to_loop); done (record c { channel = none }) []
]

unfoldable pub stop_in_loop : Connector → Result Done
stop_in_loop c =
    if is_connecting c.state
    then (do
      (sockfd, c') ← remove_and_reset_channel (record c { state = disconnected })
      before (queued_reset ∷ []) (ok (retry sockfd c')))
    else done c []

unfoldable pub restart : ℕ → ConnectErrno → Connector → Result Done
restart sockfd errno c =
    start_in_loop sockfd errno
      (record c { state = disconnected; retry_delay_ms = init_retry_delay_ms; connect = true })

-- `handleWrite`: `failed` stands for a non-zero SO_ERROR, `self_connect` for `isSelfConnect`.
unfoldable pub handle_write : Bool → Bool → Connector → Result Done
handle_write failed self_connect c =
    if is_connecting c.state
    then (do
      (sockfd, c') ← remove_and_reset_channel c
      before (queued_reset ∷ []) (
          if failed || self_connect
          then ok (retry sockfd c')
          else done (record c' { state = connected })
              ((if c.connect then new_connection sockfd else closed sockfd) ∷ [])))
    else (do check (is_disconnected c.state); done c [])

unfoldable pub handle_error : Connector → Result Done
handle_error c =
    if is_connecting c.state
    then (do
      (sockfd, c') ← remove_and_reset_channel c
      before (queued_reset ∷ []) (ok (retry sockfd c')))
    else done c []
