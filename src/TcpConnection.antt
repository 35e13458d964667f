-- ===== src/TcpConnection.antt =====
-- muduo/net/TcpConnection.h and TcpConnection.cc. An operation yields the new connection and, in
-- order, what it does outside: bytes handed to the socket, callbacks made or queued, tasks queued to
-- the loop. The kernel's answers to `write` and `readv` are arguments.
pub mod Effects
pub mod States
pub mod Stream
mod Tests
use my_cisdi_code.Prelude.{
  Bool, Bytes, List, Result, [], check, codes, drop, false, if◌then◌else◌, leb, length, ltb, not,
  ok, suc, take, true, zero, ℕ, ◌%◌, ◌&&◌, ◌*◌, ◌++◌, ◌+◌, ◌-◌, ◌==◌, ◌>>=◌, ◌>>◌, ◌^◌, ◌||◌, ◌∷◌,
}
use my_cisdi_code.Buffer.{
  Buffer, append, init, initial_size, readable_bytes, retrieve, to_string_piece,
}
use my_cisdi_code.Buffer.ReadFd.{Count, Received, count, error, read_fd}
use my_cisdi_code.Channel.{
  Channel, disable_all, disable_reading, disable_writing, enable_reading, enable_writing,
  is_reading, is_writing, new_channel, remove,
}

pub data State : Type 0 where
  disconnected connecting connected disconnecting : State

pub record TcpConnection : Type 0 where
  pub state : State
  pub reading : Bool
  pub channel : Channel
  pub write_complete_callback : Bool
  pub high_water_mark_callback : Bool
  pub high_water_mark : ℕ
  pub input_buffer : Buffer
  pub output_buffer : Buffer

-- What is queued to run in the loop's thread.
pub data Task : Type 0 where
  send_task : Bytes → Task
  shutdown_task force_close_task start_read_task stop_read_task : Task

pub data Effect : Type 0 where
  sent : Bytes → Effect
  write_complete : Effect
  high_water : ℕ → Effect
  connection_called message_called close_called shutdown_write : Effect
  queued : Task → Effect
  delayed_force_close : ℕ → Effect

-- What `write` answers: a count, or -1 with `errno`.
pub data Errno : Type 0 where
  would_block broken_pipe connection_reset other : Errno

pub data Written : Type 0 where
  wrote : ℕ → Written
  refused : Errno → Written

pub record Done : Type 0 where
  pub conn : TcpConnection
  pub effects : List Effect

abbrev pub done : TcpConnection → List Effect → Result Done
done c es = ok (record { conn = c; effects = es })

-- The constructor. The callbacks of the channel are all set.
pub new_connection : ℕ → Bool → Bool → Result TcpConnection
new_connection sockfd complete high = do
  input ← init initial_size
  output ← init initial_size
  ok (record {
    state = connecting;
    reading = true;
    channel = record (new_channel sockfd) {
      callbacks = record {
        read_callback = true;
        write_callback = true;
        close_callback = true;
        error_callback = true;
      };
    };
    write_complete_callback = complete;
    high_water_mark_callback = high;
    high_water_mark = 64 * 1024 * 1024;
    input_buffer = input;
    output_buffer = output;
  })

abbrev pub is_state : State → State → Bool
is_state disconnected disconnected = true
is_state connecting connecting = true
is_state connected connected = true
is_state disconnecting disconnecting = true
is_state _ _ = false

abbrev pub effect_if : Bool → Effect → List Effect
effect_if true e = e ∷ []
effect_if false e = []

abbrev pub is_fault : Errno → Bool
is_fault broken_pipe = true
is_fault connection_reset = true
is_fault _ = false

-- What the direct write of `sendInLoop` leaves: `nwrote`, `faultError`, and what it did.
pub record Attempt : Type 0 where
  pub nwrote : ℕ
  pub fault_error : Bool
  pub made : List Effect

-- `len - nwrote` of a `size_t`, which wraps.
abbrev pub remaining_of : ℕ → ℕ → ℕ
remaining_of len nwrote = (len + 2 ^ 64 - nwrote) % 2 ^ 64

unfoldable pub attempt : TcpConnection → Bytes → Written → Attempt
attempt c message (wrote n) = record {
  nwrote = n;
  fault_error = false;
  made =
      sent (take n message)
      ∷ effect_if ((remaining_of (length message) n == 0) && c.write_complete_callback)
          write_complete;
}
attempt c message (refused e) = record { nwrote = 0; fault_error = is_fault e; made = [] }

abbrev pub no_attempt : Attempt
no_attempt = record { nwrote = 0; fault_error = false; made = [] }

-- What was not written goes to the output buffer.
unfoldable pub keep_rest : ℕ → TcpConnection → Bytes → Attempt → Result Done
keep_rest remaining c message a =
    let old = readable_bytes c.output_buffer in
    if not a.fault_error && ltb 0 remaining
    then (do
      output ← append (drop a.nwrote message) c.output_buffer
      done
          (record c {
            output_buffer = output;
            channel = if is_writing c.channel then c.channel else enable_writing c.channel;
          })
          (a.made
            ++ effect_if
                (leb c.high_water_mark (old + remaining)
                  && ltb old c.high_water_mark
                  && c.high_water_mark_callback)
                (high_water (old + remaining))))
    else done c a.made

-- The second half of `sendInLoop`.
unfoldable pub buffer_rest : TcpConnection → Bytes → Attempt → Result Done
unfolding keep_rest
buffer_rest c message a = do
  let remaining = remaining_of (length message) a.nwrote
  check (leb remaining (length message))
  keep_rest remaining c message a

-- `write` is asked only if nothing waits in the output buffer.
abbrev pub writes_directly : TcpConnection → Bool
writes_directly c = not (is_writing c.channel) && (readable_bytes c.output_buffer == 0)

unfoldable pub send_in_loop : (ℕ → Written) → Bytes → TcpConnection → Result Done
send_in_loop write message c =
    if is_state c.state disconnected
    then done c []
    else buffer_rest c message
        (if writes_directly c then attempt c message (write (length message)) else no_attempt)

-- `send(StringPiece)`, in the loop's thread or another.
unfoldable pub send : Bool → (ℕ → Written) → Bytes → TcpConnection → Result Done
send in_loop write message c =
    if is_state c.state connected
    then (if in_loop
        then send_in_loop write message c
        else done c (queued (send_task message) ∷ []))
    else done c []

unfoldable pub shutdown_in_loop : TcpConnection → Result Done
shutdown_in_loop c = done c (effect_if (not (is_writing c.channel)) shutdown_write)

unfoldable pub shutdown : Bool → TcpConnection → Result Done
shutdown in_loop c =
    if is_state c.state connected
    then (if in_loop
        then shutdown_in_loop (record c { state = disconnecting })
        else done (record c { state = disconnecting }) (queued shutdown_task ∷ []))
    else done c []

unfoldable pub force_close : TcpConnection → Result Done
force_close c =
    if is_state c.state connected || is_state c.state disconnecting
    then done (record c { state = disconnecting }) (queued force_close_task ∷ [])
    else done c []

unfoldable pub force_close_with_delay : ℕ → TcpConnection → Result Done
force_close_with_delay seconds c =
    if is_state c.state connected || is_state c.state disconnecting
    then done (record c { state = disconnecting }) (delayed_force_close seconds ∷ [])
    else done c []

unfoldable pub handle_close : TcpConnection → Result Done
handle_close c = do
  check (is_state c.state connected || is_state c.state disconnecting)
  done (record c { state = disconnected; channel = disable_all c.channel })
      (connection_called ∷ close_called ∷ [])

unfoldable pub force_close_in_loop : TcpConnection → Result Done
force_close_in_loop c =
    if is_state c.state connected || is_state c.state disconnecting
    then handle_close c
    else done c []

unfoldable pub start_read_in_loop : TcpConnection → Result Done
start_read_in_loop c =
    if not c.reading || not (is_reading c.channel)
    then done (record c { reading = true; channel = enable_reading c.channel }) []
    else done c []

unfoldable pub stop_read_in_loop : TcpConnection → Result Done
stop_read_in_loop c =
    if c.reading || is_reading c.channel
    then done (record c { reading = false; channel = disable_reading c.channel }) []
    else done c []

unfoldable pub connect_established : TcpConnection → Result Done
connect_established c = do
  check (is_state c.state connecting)
  done
      (record c {
        state = connected;
        channel = enable_reading (record (c.channel) { tied = true });
      })
      (connection_called ∷ [])

unfoldable pub connect_destroyed : TcpConnection → Result Done
connect_destroyed c =
    if is_state c.state connected
    then (do
      removed ← remove (disable_all c.channel)
      done (record c { state = disconnected; channel = removed }) (connection_called ∷ []))
    else do removed ← remove c.channel; done (record c { channel = removed }) []

-- `handleError` only logs. `n > 0`, `n == 0` and `n < 0` of `readFd`.
abbrev pub after_read : TcpConnection → Count → Result Done
after_read c (count zero) = handle_close c
after_read c (count (suc n)) = done c (message_called ∷ [])
after_read c (error e) = done c []

unfoldable pub handle_read : (ℕ → Received) → TcpConnection → Result Done
handle_read readv c = do
  (n, input) ← read_fd readv c.input_buffer
  after_read (record c { input_buffer = input }) n

-- The output buffer after `n > 0` bytes of it went to the socket.
unfoldable pub after_write : TcpConnection → ℕ → Buffer → Result Done
after_write c n output =
    let bytes = sent (take n (to_string_piece c.output_buffer)) in
    let kept = record c { output_buffer = output } in
    if readable_bytes output == 0
    then (let idle = record kept { channel = disable_writing c.channel } in
        done idle (
          bytes
          ∷ (effect_if c.write_complete_callback write_complete
              ++ effect_if (is_state c.state disconnecting) shutdown_write)))
    else done kept (bytes ∷ [])

abbrev pub written_some : TcpConnection → Written → Result Done
written_some c (wrote zero) = done c []
written_some c (wrote (suc n)) = do
  output ← retrieve (suc n) c.output_buffer
  after_write c (suc n) output
written_some c (refused e) = done c []

unfoldable pub handle_write : (ℕ → Written) → TcpConnection → Result Done
handle_write write c =
    if is_writing c.channel
    then written_some c (write (readable_bytes c.output_buffer))
    else done c []

-- `stateToString`
abbrev pub state_to_string : State → Bytes
state_to_string disconnected = codes "kDisconnected"
state_to_string connecting = codes "kConnecting"
state_to_string connected = codes "kConnected"
state_to_string disconnecting = codes "kDisconnecting"
