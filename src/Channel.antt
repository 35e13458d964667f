-- ===== src/Channel.antt =====
-- muduo/net/Channel.h and Channel.cc: the events that an fd waits for, and the dispatch of those that
-- came. The bits that `events_` can hold are POLLIN | POLLPRI, always together, and POLLOUT: one flag
-- for each. `index_` is -1 (`none`) or what a poller stored.
pub mod Dispatch
mod Tests
use my_cisdi_code.Prelude.{
  Bool, List, Option, Result, [], check, false, if◌then◌else◌, none, not, ok, true, ℕ, ◌&&◌, ◌++◌,
  ◌>>=◌, ◌>>◌, ◌||◌, ◌∷◌,
}

-- The bits of `revents_` that the code looks at.
pub record Revents : Type 0 where
  pub pollin : Bool
  pub pollpri : Bool
  pub pollout : Bool
  pub pollhup : Bool
  pub pollrdhup : Bool
  pub pollerr : Bool
  pub pollnval : Bool

-- Which callbacks are set.
pub record Callbacks : Type 0 where
  pub read_callback : Bool
  pub write_callback : Bool
  pub close_callback : Bool
  pub error_callback : Bool

pub record Channel : Type 0 where
  pub fd : ℕ
  pub read_event : Bool
  pub write_event : Bool
  pub revents : Revents
  pub index : Option ℕ
  pub tied : Bool
  pub added_to_loop : Bool
  pub callbacks : Callbacks

abbrev pub no_revents : Revents
no_revents = record {
  pollin = false;
  pollpri = false;
  pollout = false;
  pollhup = false;
  pollrdhup = false;
  pollerr = false;
  pollnval = false;
}

abbrev pub no_callbacks : Callbacks
no_callbacks = record {
  read_callback = false;
  write_callback = false;
  close_callback = false;
  error_callback = false;
}

-- The constructor.
abbrev pub new_channel : ℕ → Channel
new_channel fd = record {
  fd = fd;
  read_event = false;
  write_event = false;
  revents = no_revents;
  index = none;
  tied = false;
  added_to_loop = false;
  callbacks = no_callbacks;
}

abbrev pub is_none_event : Channel → Bool
is_none_event ch = not (ch.read_event || ch.write_event)

abbrev pub is_writing : Channel → Bool
is_writing ch = ch.write_event

abbrev pub is_reading : Channel → Bool
is_reading ch = ch.read_event

-- `update` marks the channel as added; what the poller does then is in `Poller`.
abbrev pub enable_reading : Channel → Channel
enable_reading ch = record ch { read_event = true; added_to_loop = true }

abbrev pub disable_reading : Channel → Channel
disable_reading ch = record ch { read_event = false; added_to_loop = true }

abbrev pub enable_writing : Channel → Channel
enable_writing ch = record ch { write_event = true; added_to_loop = true }

abbrev pub disable_writing : Channel → Channel
disable_writing ch = record ch { write_event = false; added_to_loop = true }

abbrev pub disable_all : Channel → Channel
disable_all ch = record ch { read_event = false; write_event = false; added_to_loop = true }

unfoldable pub remove : Channel → Result Channel
remove ch = do check (is_none_event ch); ok (record ch { added_to_loop = false })

pub data Callback : Type 0 where
  on_read on_write on_close on_error : Callback

abbrev pub call_if : Bool → Callback → List Callback
call_if true cb = cb ∷ []
call_if false cb = []

-- The callbacks that `handleEventWithGuard` makes, in order.
unfoldable pub handle_event_with_guard : Channel → List Callback
handle_event_with_guard ch =
    call_if (ch.revents.pollhup && not ch.revents.pollin && ch.callbacks.close_callback) on_close
    ++ call_if ((ch.revents.pollerr || ch.revents.pollnval) && ch.callbacks.error_callback) on_error
    ++ call_if
        ((ch.revents.pollin || ch.revents.pollpri || ch.revents.pollrdhup)
          && ch.callbacks.read_callback)
        on_read
    ++ call_if (ch.revents.pollout && ch.callbacks.write_callback) on_write

-- `handleEvent`: a tied channel whose owner is gone (`tie_.lock()` is null) calls nothing.
unfoldable pub handle_event : Bool → Channel → List Callback
unfolding handle_event_with_guard
handle_event owner_lives ch =
    if ch.tied
    then (if owner_lives then handle_event_with_guard ch else [])
    else handle_event_with_guard ch
