-- ===== src/Connector/Sockets.antt =====
-- No socket of the connector leaks or is closed twice, and the retry delay stays in its range.
use my_cisdi_code.Prelude.{
  Bool, List, Option, Result, [], ap, arith, false, fault, if◌then◌else◌, none, ok, refl, some,
  subst, sym, true, ℕ, ◌++◌, ◌||◌, ◌∙◌, ◌∷◌, ◌≡◌, ◌≢◌, ◌≤◌,
}
use my_cisdi_code.Connector.{
  ConnectErrno, Connector, Done, Effect, State, after_connect, before, closed, connect, connected,
  connecting, disconnected, done, eaddrinuse, eaddrnotavail, eagain, econnrefused, einprogress,
  eintr, eisconn, enetunreach, handle_error, handle_write, init_retry_delay_ms, is_none,
  max_retry_delay_ms, new_connection, opened, queued_reset, remove_and_reset_channel, reset_channel,
  restart, retry, retry_after, start, start_connecting, start_in_loop, stop, stop_in_loop, success,
}

pub data Call : Type 0 where
  call_start : Bool → ℕ → ConnectErrno → Call
  call_start_in_loop : ℕ → ConnectErrno → Call
  call_stop call_stop_in_loop call_reset_channel call_handle_error : Call
  call_restart : ℕ → ConnectErrno → Call
  call_handle_write : Bool → Bool → Call

unfoldable pub step : Call → Connector → Result Done
step (call_start in_loop fd errno) c = start in_loop fd errno c
step (call_start_in_loop fd errno) c = start_in_loop fd errno c
step call_stop c = stop c
step call_stop_in_loop c = stop_in_loop c
step call_reset_channel c = reset_channel c
step call_handle_error c = handle_error c
step (call_restart fd errno) c = restart fd errno c
step (call_handle_write failed self_connect) c = handle_write failed self_connect c

-- The socket that a connector owns: while it is connecting, that of its channel.
abbrev pub owned_by : State → Option ℕ → List ℕ
owned_by connecting (some fd) = fd ∷ []
owned_by _ _ = []

abbrev pub owned : Connector → List ℕ
owned c = owned_by c.state c.channel

-- Sockets made, and sockets closed or handed over.
abbrev pub opens : List Effect → List ℕ
opens [] = []
opens (opened fd ∷ es) = fd ∷ opens es
opens (_ ∷ es) = opens es

abbrev pub releases : List Effect → List ℕ
releases [] = []
releases (closed fd ∷ es) = fd ∷ releases es
releases (new_connection fd ∷ es) = fd ∷ releases es
releases (_ ∷ es) = releases es

-- While it is connecting, the channel is there and in the loop.
abbrev pub Watches : State → Option ℕ → Bool → Type 0
Watches connecting o added = (is_none o ≡ false) × (added ≡ true)
Watches _ o added = Unit {0}

abbrev pub InRange : ℕ → Type 0
InRange ms = (init_retry_delay_ms ≤ ms) × (ms ≤ max_retry_delay_ms)

-- Every retry is planned after a delay within the range.
abbrev pub Waits : List Effect → Type 0
Waits [] = Unit {0}
Waits (retry_after ms ∷ es) = InRange ms × Waits es
Waits (_ ∷ es) = Waits es

abbrev pub Kept : Connector → Result Done → Type 0
Kept c (fault e) = Unit {0}
Kept c (ok d) =
    (owned c ++ opens d.effects ≡ owned d.conn ++ releases d.effects)
    × Watches d.conn.state d.conn.channel d.conn.added_to_loop
    × InRange d.conn.retry_delay_ms
    × Waits d.effects

-- A restart while a socket is connecting would forget it.
abbrev pub IsAllowed : Call → State → Type 0
IsAllowed (call_restart fd errno) s = s ≢ connecting
IsAllowed _ s = Unit {0}

-- What gives up one socket, and makes none.
abbrev Closes : ℕ → Done → Type 0
Closes fd d =
    (owned d.conn ++ releases d.effects ≡ fd ∷ [])
    × (opens d.effects ≡ [])
    × Watches d.conn.state d.conn.channel d.conn.added_to_loop
    × InRange d.conn.retry_delay_ms
    × Waits d.effects

module _ (c : Connector) (range : InRange c.retry_delay_ms) where
  abbrev at : State → Bool → Option ℕ → Bool → Connector
  at s b o added = record c { state = s; connect = b; channel = o; added_to_loop = added }

  retry-Closes :
      (fd : ℕ) (s : State) (b : Bool) (o : Option ℕ) (added : Bool)
      → Closes fd (retry fd (at s b o added))
  unfolding retry
  retry-Closes fd s true o added = (refl, refl, tt, omega arith, (range, tt))
  retry-Closes fd s false o added = (refl, refl, tt, range, tt)

  start_connecting-Kept :
      (fd : ℕ) (b : Bool) (o : Option ℕ) (added : Bool)
      → Kept
          (at disconnected b o added)
          (before (opened fd ∷ []) (start_connecting fd (at disconnected b o added)))
  unfolding start_connecting
  start_connecting-Kept fd b none added = (refl, (refl, refl), range, tt)
  start_connecting-Kept fd b (some x) added = tt

  retried-Kept :
      (fd : ℕ) (b : Bool) (o : Option ℕ) (added : Bool)
      → Kept
          (at disconnected b o added)
          (before (opened fd ∷ []) (ok (retry fd (at disconnected b o added))))
  retried-Kept fd b o added =
      let (r, n, w, i, t) = retry-Closes fd disconnected b o added in
      (ap (λ xs. fd ∷ xs) n ∙ sym r, w, i, t)

  -- The socket that was owned is given up.
  given_up-Kept :
      (fd : ℕ) (s : State) (b : Bool) (added : Bool)
      → Kept
          (at connecting b (some fd) true)
          (before (queued_reset ∷ []) (ok (retry fd (at s b (some fd) added))))
  given_up-Kept fd s b added =
      let (r, n, w, i, t) = retry-Closes fd s b (some fd) added in
      (ap (λ xs. fd ∷ xs) n ∙ sym r, w, i, t)

  after_connect-Kept :
      (fd : ℕ) (e : ConnectErrno) (b : Bool) (o : Option ℕ) (added : Bool)
      → Kept
          (at disconnected b o added)
          (before (opened fd ∷ []) (after_connect e fd (at disconnected b o added)))
  unfolding after_connect
  after_connect-Kept fd success b o added = start_connecting-Kept fd b o added
  after_connect-Kept fd einprogress b o added = start_connecting-Kept fd b o added
  after_connect-Kept fd eintr b o added = start_connecting-Kept fd b o added
  after_connect-Kept fd eisconn b o added = start_connecting-Kept fd b o added
  after_connect-Kept fd eagain b o added = retried-Kept fd b o added
  after_connect-Kept fd eaddrinuse b o added = retried-Kept fd b o added
  after_connect-Kept fd eaddrnotavail b o added = retried-Kept fd b o added
  after_connect-Kept fd econnrefused b o added = retried-Kept fd b o added
  after_connect-Kept fd enetunreach b o added = retried-Kept fd b o added
  after_connect-Kept fd _ b o added = (refl, tt, range, tt)

  start_in_loop-Kept :
      (fd : ℕ) (e : ConnectErrno) (s : State) (b : Bool) (o : Option ℕ) (added : Bool)
      → Kept (at s b o added) (start_in_loop fd e (at s b o added))
  unfolding start_in_loop connect
  start_in_loop-Kept fd e disconnected true o added = after_connect-Kept fd e true o added
  start_in_loop-Kept fd e disconnected false o added = (refl, tt, range, tt)
  start_in_loop-Kept fd e connecting b o added = tt
  start_in_loop-Kept fd e connected b o added = tt

  stop_in_loop-Kept :
      (s : State) (b : Bool) (o : Option ℕ) (added : Bool)
      → Watches s o added
      → Kept (at s b o added) (stop_in_loop (at s b o added))
  unfolding stop_in_loop remove_and_reset_channel
  stop_in_loop-Kept connecting b none added w = tt
  stop_in_loop-Kept connecting b (some fd) added w = given_up-Kept fd disconnected b false
  stop_in_loop-Kept disconnected b o added w = (refl, tt, range, tt)
  stop_in_loop-Kept connected b o added w = (refl, tt, range, tt)

  handle_error-Kept :
      (s : State) (b : Bool) (o : Option ℕ) (added : Bool)
      → Kept (at s b o added) (handle_error (at s b o added))
  unfolding handle_error remove_and_reset_channel
  handle_error-Kept connecting b none added = tt
  handle_error-Kept connecting b (some fd) added = given_up-Kept fd connecting b false
  handle_error-Kept disconnected b o added = (refl, tt, range, tt)
  handle_error-Kept connected b o added = (refl, tt, range, tt)

  reset_channel-Kept :
      (s : State) (b : Bool) (o : Option ℕ) (added : Bool)
      → Watches s o added
      → Kept (at s b o added) (reset_channel (at s b o added))
  unfolding reset_channel
  reset_channel-Kept s b none added w = (refl, w, range, tt)
  reset_channel-Kept s b (some fd) true w = tt
  reset_channel-Kept connecting b (some fd) false w = absurd (cc (w.1))
  reset_channel-Kept disconnected b (some fd) false w = (refl, tt, range, tt)
  reset_channel-Kept connected b (some fd) false w = (refl, tt, range, tt)

  written-Kept :
      (fd : ℕ) (bad b : Bool)
      → Kept (at connecting b (some fd) true) (
          before (queued_reset ∷ []) (
            if bad
            then ok (retry fd (at connecting b (some fd) false))
            else done
                (at connected b (some fd) false)
                ((if b then new_connection fd else closed fd) ∷ [])))
  written-Kept fd true b = given_up-Kept fd connecting b false
  written-Kept fd false true = (refl, tt, range, tt)
  written-Kept fd false false = (refl, tt, range, tt)

  handle_write-Kept :
      (failed self_connect : Bool) (s : State) (b : Bool) (o : Option ℕ) (added : Bool)
      → Kept (at s b o added) (handle_write failed self_connect (at s b o added))
  unfolding handle_write remove_and_reset_channel
  handle_write-Kept failed self_connect connecting b none added = tt
  handle_write-Kept failed self_connect connecting b (some fd) added =
      written-Kept fd (failed || self_connect) b
  handle_write-Kept failed self_connect disconnected b o added = (refl, tt, range, tt)
  handle_write-Kept failed self_connect connected b o added = tt

restart-Kept :
    (c : Connector) (fd : ℕ) (e : ConnectErrno) (s : State)
    → s ≢ connecting
    → Kept (record c { state = s }) (restart fd e (record c { state = s }))
unfolding restart
restart-Kept c fd e connecting h = absurd (h refl)
restart-Kept c fd e disconnected h =
    start_in_loop-Kept (record c { retry_delay_ms = init_retry_delay_ms }) (omega arith) fd e
      disconnected true c.channel c.added_to_loop
restart-Kept c fd e connected h =
    start_in_loop-Kept (record c { retry_delay_ms = init_retry_delay_ms }) (omega arith) fd e
      disconnected true c.channel c.added_to_loop

any_call-Kept :
    (call : Call) (c : Connector)
    → InRange c.retry_delay_ms
    → Watches c.state c.channel c.added_to_loop
    → IsAllowed call c.state
    → Kept c (step call c)
unfolding step start stop
any_call-Kept (call_start true fd e) c range w allowed =
    start_in_loop-Kept c range fd e c.state true c.channel c.added_to_loop
any_call-Kept (call_start false fd e) c range w allowed = (refl, w, range, tt)
any_call-Kept (call_start_in_loop fd e) c range w allowed =
    start_in_loop-Kept c range fd e c.state c.connect c.channel c.added_to_loop
any_call-Kept call_stop c range w allowed = (refl, w, range, tt)
any_call-Kept call_stop_in_loop c range w allowed =
    stop_in_loop-Kept c range c.state c.connect c.channel c.added_to_loop w
any_call-Kept call_reset_channel c range w allowed =
    reset_channel-Kept c range c.state c.connect c.channel c.added_to_loop w
any_call-Kept call_handle_error c range w allowed =
    handle_error-Kept c range c.state c.connect c.channel c.added_to_loop
any_call-Kept (call_restart fd e) c range w allowed = restart-Kept c fd e c.state allowed
any_call-Kept (call_handle_write failed self_connect) c range w allowed =
    handle_write-Kept c range failed self_connect c.state c.connect c.channel c.added_to_loop

-- A call on a connector whose channel is in the loop while it is connecting, that fails no assertion and
-- is no restart while it is connecting, loses no socket and gives none up twice: the descriptor owned
-- before and those made are the one in its channel after, if it is connecting, and those closed or
-- handed over. The channel is then in the loop while it is connecting, and the delay of the next
-- retry, and of each retry planned, is between 500 ms and 30 s.
pub step-Kept :
    (call : Call) (c : Connector) (d : Done)
    → InRange c.retry_delay_ms
    → Watches c.state c.channel c.added_to_loop
    → IsAllowed call c.state
    → step call c ≡ ok d
    → (owned c ++ opens d.effects ≡ owned d.conn ++ releases d.effects)
      × Watches d.conn.state d.conn.channel d.conn.added_to_loop
      × InRange d.conn.retry_delay_ms
      × Waits d.effects
step-Kept call c d range w allowed e = subst (Kept c) e (any_call-Kept call c range w allowed)
