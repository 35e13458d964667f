-- ===== src/TcpConnection/States.antt =====
-- The life of a connection, whatever is called on it and in whatever order.
use my_cisdi_code.Prelude.{
  Bool, Bool-cases, Bytes, List, Result, [], ap, arith, drop, false, fault, if◌then◌else◌, inl, inr,
  leb, length, ltb, not, ok, refl, subst, suc, true, zero, ℕ, ◌&&◌, ◌++◌, ◌+◌, ◌==◌, ◌>>=◌, ◌||◌,
  ◌∷◌, ◌≡◌, ◌≤◌,
}
use my_cisdi_code.Buffer.ReadFd.{Count, Received, count, error, read_fd}
use my_cisdi_code.TcpConnection.{
  Attempt, Done, Effect, State, TcpConnection, Written, after_read, after_write, attempt,
  buffer_rest, connect_destroyed, connect_established, connected, connecting, connection_called,
  disconnected, disconnecting, done, effect_if, force_close, force_close_in_loop,
  force_close_with_delay, handle_close, handle_read, handle_write, high_water, is_state, keep_rest,
  no_attempt, queued, refused, remaining_of, send, send_in_loop, send_task, shutdown,
  shutdown_in_loop, shutdown_write, start_read_in_loop, stop_read_in_loop, write_complete,
  writes_directly, written_some, wrote,
}
use my_cisdi_code.TcpConnection.Effects.{connection_calls}
use my_cisdi_code.Buffer.{Buffer, append, readable_bytes, retrieve}
use my_cisdi_code.Channel.{
  disable_all, disable_reading, enable_reading, is_reading, is_writing, remove,
}

-- What a user, the loop or the server may call.
pub data Call : Type 0 where
  call_send : Bool → (ℕ → Written) → Bytes → Call
  call_send_in_loop : (ℕ → Written) → Bytes → Call
  call_shutdown : Bool → Call
  call_shutdown_in_loop call_force_close call_force_close_in_loop : Call
  call_force_close_with_delay : ℕ → Call
  call_start_read call_stop_read call_connect_established call_connect_destroyed : Call
  call_handle_read : (ℕ → Received) → Call
  call_handle_write : (ℕ → Written) → Call
  call_handle_close : Call

unfoldable pub step : Call → TcpConnection → Result Done
step (call_send in_loop write message) c = send in_loop write message c
step (call_send_in_loop write message) c = send_in_loop write message c
step (call_shutdown in_loop) c = shutdown in_loop c
step call_shutdown_in_loop c = shutdown_in_loop c
step call_force_close c = force_close c
step call_force_close_in_loop c = force_close_in_loop c
step (call_force_close_with_delay seconds) c = force_close_with_delay seconds c
step call_start_read c = start_read_in_loop c
step call_stop_read c = stop_read_in_loop c
step call_connect_established c = connect_established c
step call_connect_destroyed c = connect_destroyed c
step (call_handle_read readv) c = handle_read readv c
step (call_handle_write write) c = handle_write write c
step call_handle_close c = handle_close c

-- The ways of the state.
pub data Moves : State → State → Type 0 where
  stays : (s : State) → Moves s s
  opens : Moves connecting connected
  begins_close : Moves connected disconnecting
  closes : Moves connected disconnected
  ends_close : Moves disconnecting disconnected

-- How many of the two calls, UP and DOWN, are behind a connection.
abbrev pub age : State → ℕ
age connecting = 0
age connected = 1
age disconnecting = 1
age disconnected = 2

-- What a call may do to the state, and how often it calls back.
abbrev pub Lives : TcpConnection → Result Done → Type 0
Lives c (fault e) = Unit {0}
Lives c (ok d) =
    Moves c.state d.conn.state × (age d.conn.state ≡ age c.state + connection_calls d.effects)

then_Lives {ℓ} :
    {A : Type ℓ} (c : TcpConnection) (r : Result A) (f : A → Result Done)
    → ((a : A) → Lives c (f a))
    → Lives c (r >>= f)
then_Lives c (ok a) f h = h a
then_Lives c (fault e) f h = tt

-- No connection callback is among these.
abbrev IsQuiet : List Effect → Type 0
IsQuiet es = connection_calls es ≡ 0

connection_calls-append :
    (xs ys : List Effect) → connection_calls (xs ++ ys) ≡ connection_calls xs + connection_calls ys
connection_calls-append [] ys = omega arith
connection_calls-append (connection_called ∷ xs) ys = omega (arith, connection_calls-append xs ys)
connection_calls-append (write_complete ∷ xs) ys = omega (arith, connection_calls-append xs ys)
connection_calls-append (_ ∷ xs) ys = omega (arith, connection_calls-append xs ys)

high_water-IsQuiet : (b : Bool) (n : ℕ) → IsQuiet (effect_if b (high_water n))
high_water-IsQuiet true n = refl
high_water-IsQuiet false n = refl

write_complete-IsQuiet : (b : Bool) → IsQuiet (effect_if b write_complete)
write_complete-IsQuiet true = refl
write_complete-IsQuiet false = refl

shutdown_write-IsQuiet : (b : Bool) → IsQuiet (effect_if b shutdown_write)
shutdown_write-IsQuiet true = refl
shutdown_write-IsQuiet false = refl

attempt-IsQuiet :
    (c : TcpConnection) (message : Bytes) (w : Written) → IsQuiet (attempt c message w).made
unfolding attempt
attempt-IsQuiet c message (wrote n) = write_complete-IsQuiet _
attempt-IsQuiet c message (refused e) = refl

keep_rest-Lives :
    (remaining : ℕ) (c : TcpConnection) (message : Bytes) (a : Attempt)
    → IsQuiet a.made
    → Lives c (keep_rest remaining c message a)
unfolding keep_rest
keep_rest-Lives remaining c message a q = elim (Bool-cases (not a.fault_error && ltb 0 remaining)) [
  | inl more ↦ rw more (
      then_Lives c (append (drop a.nwrote message) c.output_buffer) _ λ output.
        (stays c.state, omega (arith, q, connection_calls-append a.made _, high_water-IsQuiet _ _)))
  | inr all ↦ rw all (stays c.state, omega (arith, q))
]

buffer_rest-Lives :
    (c : TcpConnection) (message : Bytes) (a : Attempt)
    → IsQuiet a.made
    → Lives c (buffer_rest c message a)
unfolding buffer_rest
buffer_rest-Lives c message a q =
    let remaining = remaining_of (length message) a.nwrote in
    elim (Bool-cases (leb remaining (length message))) [
      | inl right ↦ rw right (keep_rest-Lives remaining c message a q)
      | inr wrong ↦ rw wrong tt
    ]

send_in_loop-Lives :
    (write : ℕ → Written) (message : Bytes) (c : TcpConnection)
    → Lives c (send_in_loop write message c)
unfolding send_in_loop
send_in_loop-Lives write message c = elim (Bool-cases (is_state c.state disconnected)) [
  | inl dead ↦ rw dead (stays c.state, omega arith)
  | inr alive ↦ elim (Bool-cases (writes_directly c)) [
    | inl direct ↦
        rw (alive, direct)
          (buffer_rest-Lives c message (attempt c message (write (length message)))
            (attempt-IsQuiet c message (write (length message))))
    | inr later ↦ rw (alive, later) (buffer_rest-Lives c message no_attempt refl)
  ]
]

send-Lives :
    (in_loop : Bool) (write : ℕ → Written) (message : Bytes) (c : TcpConnection)
    → Lives c (send in_loop write message c)
unfolding send
send-Lives in_loop write message c = elim (Bool-cases (is_state c.state connected)) [
  | inl up ↦ rw up (here in_loop)
  | inr down ↦ rw down (stays c.state, omega arith)
]
  where
    here :
        (b : Bool)
        → Lives c
            (if b then send_in_loop write message c else done c (queued (send_task message) ∷ []))
    here true = send_in_loop-Lives write message c
    here false = (stays c.state, omega arith)

shutdown_in_loop-Lives : (c : TcpConnection) → Lives c (shutdown_in_loop c)
unfolding shutdown_in_loop
shutdown_in_loop-Lives c =
    (stays c.state, omega (arith, shutdown_write-IsQuiet (not (is_writing c.channel))))

-- The next ones split on the state, which is set apart from the rest of the connection.
module _ (c : TcpConnection) where
  abbrev at : State → TcpConnection
  at s = record c { state = s }

  shutdown-Lives : (in_loop : Bool) (s : State) → Lives (at s) (shutdown in_loop (at s))
  unfolding shutdown shutdown_in_loop
  shutdown-Lives true connected =
      (begins_close, omega (arith, shutdown_write-IsQuiet (not (is_writing c.channel))))
  shutdown-Lives false connected = (begins_close, omega arith)
  shutdown-Lives in_loop disconnected = (stays disconnected, omega arith)
  shutdown-Lives in_loop connecting = (stays connecting, omega arith)
  shutdown-Lives in_loop disconnecting = (stays disconnecting, omega arith)

  force_close-Lives : (s : State) → Lives (at s) (force_close (at s))
  unfolding force_close
  force_close-Lives connected = (begins_close, omega arith)
  force_close-Lives disconnecting = (stays disconnecting, omega arith)
  force_close-Lives disconnected = (stays disconnected, omega arith)
  force_close-Lives connecting = (stays connecting, omega arith)

  force_close_with_delay-Lives :
      (seconds : ℕ) (s : State) → Lives (at s) (force_close_with_delay seconds (at s))
  unfolding force_close_with_delay
  force_close_with_delay-Lives seconds connected = (begins_close, omega arith)
  force_close_with_delay-Lives seconds disconnecting = (stays disconnecting, omega arith)
  force_close_with_delay-Lives seconds disconnected = (stays disconnected, omega arith)
  force_close_with_delay-Lives seconds connecting = (stays connecting, omega arith)

  handle_close-Lives : (s : State) → Lives (at s) (handle_close (at s))
  unfolding handle_close
  handle_close-Lives connected = (closes, omega arith)
  handle_close-Lives disconnecting = (ends_close, omega arith)
  handle_close-Lives disconnected = tt
  handle_close-Lives connecting = tt

  force_close_in_loop-Lives : (s : State) → Lives (at s) (force_close_in_loop (at s))
  unfolding force_close_in_loop
  force_close_in_loop-Lives connected = handle_close-Lives connected
  force_close_in_loop-Lives disconnecting = handle_close-Lives disconnecting
  force_close_in_loop-Lives disconnected = (stays disconnected, omega arith)
  force_close_in_loop-Lives connecting = (stays connecting, omega arith)

  connect_established-Lives : (s : State) → Lives (at s) (connect_established (at s))
  unfolding connect_established
  connect_established-Lives connecting = (opens, omega arith)
  connect_established-Lives connected = tt
  connect_established-Lives disconnecting = tt
  connect_established-Lives disconnected = tt

  connect_destroyed-Lives : (s : State) → Lives (at s) (connect_destroyed (at s))
  unfolding connect_destroyed
  connect_destroyed-Lives connected =
      then_Lives (at connected) (remove (disable_all c.channel)) _ λ removed. (closes, omega arith)
  connect_destroyed-Lives connecting =
      then_Lives (at connecting) (remove c.channel) _ λ removed. (stays connecting, omega arith)
  connect_destroyed-Lives disconnecting =
      then_Lives (at disconnecting) (remove c.channel) _
        λ removed. (stays disconnecting, omega arith)
  connect_destroyed-Lives disconnected =
      then_Lives (at disconnected) (remove c.channel) _ λ removed. (stays disconnected, omega arith)

if_Lives :
    (c : TcpConnection) (b : Bool) (x y : Result Done)
    → Lives c x
    → Lives c y
    → Lives c (if b then x else y)
if_Lives c true x y h k = h
if_Lives c false x y h k = k

start_read-Lives : (c : TcpConnection) → Lives c (start_read_in_loop c)
unfolding start_read_in_loop
start_read-Lives c =
    if_Lives c (not c.reading || not (is_reading c.channel))
      (done (record c { reading = true; channel = enable_reading c.channel }) []) (done c [])
      (stays c.state, omega arith) (stays c.state, omega arith)

stop_read-Lives : (c : TcpConnection) → Lives c (stop_read_in_loop c)
unfolding stop_read_in_loop
stop_read-Lives c =
    if_Lives c (c.reading || is_reading c.channel)
      (done (record c { reading = false; channel = disable_reading c.channel }) []) (done c [])
      (stays c.state, omega arith) (stays c.state, omega arith)

handle_read-Lives : (readv : ℕ → Received) (c : TcpConnection) → Lives c (handle_read readv c)
unfolding handle_read
handle_read-Lives readv c =
    then_Lives c (read_fd readv c.input_buffer) _
      λ r. answered (record c { input_buffer = r.1 }) r.0
  where
    answered : (c : TcpConnection) (n : Count) → Lives c (after_read c n)
    answered c (count zero) = handle_close-Lives c c.state
    answered c (count (suc n)) = (stays c.state, omega arith)
    answered c (error e) = (stays c.state, omega arith)

after_write-Lives : (c : TcpConnection) (n : ℕ) (output : Buffer) → Lives c (after_write c n output)
unfolding after_write
after_write-Lives c n output =
    if_Lives c (readable_bytes output == 0) _ _
      (
        stays c.state,
        omega (
          arith,
          connection_calls-append (effect_if c.write_complete_callback write_complete)
              (effect_if (is_state c.state disconnecting) shutdown_write),
          write_complete-IsQuiet c.write_complete_callback,
          shutdown_write-IsQuiet (is_state c.state disconnecting),
        ),
      )
      (stays c.state, omega arith)

handle_write-Lives : (write : ℕ → Written) (c : TcpConnection) → Lives c (handle_write write c)
unfolding handle_write
handle_write-Lives write c =
    if_Lives c (is_writing c.channel) _ _ (answered (write (readable_bytes c.output_buffer)))
      (stays c.state, omega arith)
  where
    answered : (w : Written) → Lives c (written_some c w)
    answered (wrote zero) = (stays c.state, omega arith)
    answered (refused e) = (stays c.state, omega arith)
    answered (wrote (suc n)) =
        then_Lives c (retrieve (suc n) c.output_buffer) _ (after_write-Lives c (suc n))

any_call-Lives : (call : Call) (c : TcpConnection) → Lives c (step call c)
unfolding step
any_call-Lives (call_send in_loop write message) c = send-Lives in_loop write message c
any_call-Lives (call_send_in_loop write message) c = send_in_loop-Lives write message c
any_call-Lives (call_shutdown in_loop) c = shutdown-Lives c in_loop c.state
any_call-Lives call_shutdown_in_loop c = shutdown_in_loop-Lives c
any_call-Lives call_force_close c = force_close-Lives c c.state
any_call-Lives call_force_close_in_loop c = force_close_in_loop-Lives c c.state
any_call-Lives (call_force_close_with_delay seconds) c =
    force_close_with_delay-Lives c seconds c.state
any_call-Lives call_start_read c = start_read-Lives c
any_call-Lives call_stop_read c = stop_read-Lives c
any_call-Lives call_connect_established c = connect_established-Lives c c.state
any_call-Lives call_connect_destroyed c = connect_destroyed-Lives c c.state
any_call-Lives (call_handle_read readv) c = handle_read-Lives readv c
any_call-Lives (call_handle_write write) c = handle_write-Lives write c
any_call-Lives call_handle_close c = handle_close-Lives c c.state

-- Whatever is called, a call that fails no assertion moves the state along connecting, connected,
-- disconnecting, disconnected or keeps it, never back, and makes the connection callback once when
-- the connection comes up, once when it goes down, and never else.
pub step-Moves :
    (call : Call) (c : TcpConnection) (d : Done)
    → step call c ≡ ok d
    → Moves c.state d.conn.state × (age d.conn.state ≡ age c.state + connection_calls d.effects)
step-Moves call c d e = subst (Lives c) e (any_call-Lives call c)

-- A history: calls one after the other, with all that they do outside.
unfoldable pub run : List Call → TcpConnection → Result Done
run [] c = done c []
run (call ∷ calls) c = do
  d ← step call c
  d' ← run calls d.conn
  done d'.conn (d.effects ++ d'.effects)

abbrev Aged : TcpConnection → Result Done → Type 0
Aged c (fault e) = Unit {0}
Aged c (ok d) = age d.conn.state ≡ age c.state + connection_calls d.effects

run-Aged : (calls : List Call) (c : TcpConnection) → Aged c (run calls c)
unfolding run
run-Aged [] c = omega arith
run-Aged (call ∷ calls) c = first (step call c) (any_call-Lives call c) (run-Aged calls)
  where
    second :
        (d : Done) (r : Result Done)
        → age d.conn.state ≡ age c.state + connection_calls d.effects
        → Aged d.conn r
        → Aged c (r >>= λ d'. done d'.conn (d.effects ++ d'.effects))
    second d (fault e) h k = tt
    second d (ok d') h k = omega (arith, connection_calls-append d.effects d'.effects)

    first :
        (r : Result Done)
        → Lives c r
        → ((c : TcpConnection) → Aged c (run calls c))
        → Aged c (r >>= λ d. run calls d.conn >>= λ d'. done d'.conn (d.effects ++ d'.effects))
    first (fault e) h later = tt
    first (ok d) h later = second d (run calls d.conn) h.1 (later d.conn)

-- Over any history of a new connection the connection callback is made at most twice: not at all while
-- it connects, once when it has come up, and twice when it has gone down.
pub run_callbacks :
    (calls : List Call) (c : TcpConnection) (d : Done)
    → c.state ≡ connecting
    → run calls c ≡ ok d
    → (connection_calls d.effects ≡ age d.conn.state) × (connection_calls d.effects ≤ 2)
run_callbacks calls c d s e = (now, omega (arith, now, age-le d.conn.state))
  where
    now : connection_calls d.effects ≡ age d.conn.state
    now = omega (arith, subst (Aged c) e (run-Aged calls c), ap age s)

    age-le : (s : State) → age s ≤ 2
    age-le connecting = omega arith
    age-le connected = omega arith
    age-le disconnecting = omega arith
    age-le disconnected = omega arith
