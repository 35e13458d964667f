-- ===== src/PollPoller.antt =====
-- muduo/net/poller/PollPoller.h and PollPoller.cc, over muduo/net/Poller.h: the array that poll(2) takes,
-- and the index into it that each channel keeps. A channel is known by its address; `store` holds the
-- channel of each address. What `::poll` reports, `revents` of
-- each entry and their number, is an argument.
pub mod Array
pub mod Indexed
pub mod Removal
pub mod Update
mod Tests
use my_cisdi_code.Prelude.{
  Bool, List, Option, Result, [], assertion_failed, check, false, fault, get_elem?, if◌then◌else◌,
  length, negsuc, none, not, ok, out_of_bounds, pos, some, suc, true, zero, ℕ, ℤ, ◌&&◌, ◌++◌, ◌-◌,
  ◌==◌, ◌>>=◌, ◌>>◌, ◌||◌, ◌∷◌,
}
use my_cisdi_code.Channel.{Channel, Revents, is_none_event}
use my_cisdi_code.EPollPoller.{Active, is_index, is_new, put, set_revents}

pub record PollFd : Type 0 where
  -- An ignored descriptor is -fd-1.
  pub fd : ℤ
  pub reads : Bool
  pub writes : Bool

pub record PollPoller : Type 0 where
  pub pollfds : List PollFd
  -- `channels_`, from a file descriptor to an address.
  pub channels : ℕ → Option ℕ

abbrev pub new_poll_poller : PollPoller
new_poll_poller = record { pollfds = []; channels = λ fd. none }

-- The descriptor of an entry, ignored or not.
abbrev pub descriptor : ℤ → ℕ
descriptor (pos fd) = fd
descriptor (negsuc fd) = fd

abbrev pub is_ignored : ℤ → Bool
is_ignored (pos fd) = false
is_ignored (negsuc fd) = true

-- `pollfds_[i] = x`
abbrev pub set_at : ℕ → PollFd → List PollFd → List PollFd
set_at i x [] = []
set_at zero x (y ∷ ys) = x ∷ ys
set_at (suc i) x (y ∷ ys) = y ∷ set_at i x ys

abbrev pub pop_back : List PollFd → List PollFd
pop_back [] = []
pop_back (x ∷ []) = []
pop_back (x ∷ y ∷ ys) = x ∷ pop_back (y ∷ ys)

abbrev pub set_index : ℕ → ℕ → (ℕ → Channel) → ℕ → Channel
set_index address i store n = if n == address then record (store n) { index = some i } else store n

-- The entry of a channel; one that wants no event is ignored.
abbrev pub entry : Channel → PollFd
entry ch = record { fd = pos ch.fd; reads = ch.read_event; writes = ch.write_event }

abbrev pub ignorable : Channel → PollFd
ignorable ch = if is_none_event ch then record (entry ch) { fd = negsuc ch.fd } else entry ch

abbrev pub Stored : Type 0
Stored = PollPoller × (ℕ → Channel)

abbrev pub is_held : ℕ → Channel → PollPoller → Bool
is_held address ch p = is_index address (p.channels ch.fd)

-- The two branches of `updateChannel`, by the entry that the index leads to.
abbrev pub update_existing : ℕ → ℕ → PollPoller → (ℕ → Channel) → Option PollFd → Result Stored
update_existing address i p store none = fault assertion_failed
update_existing address i p store (some x) = do
  check (descriptor x.fd == (store address).fd)
  ok (record p { pollfds = set_at i (ignorable (store address)) p.pollfds }, store)

abbrev pub update_at : ℕ → Option ℕ → PollPoller → (ℕ → Channel) → Result Stored
update_at address none p store = do
  check (is_new (p.channels (store address).fd))
  ok (
    record {
      pollfds = p.pollfds ++ (entry (store address) ∷ []);
      channels = put (store address).fd (some address) p.channels;
    },
    set_index address (length p.pollfds) store,
  )
update_at address (some i) p store = do
  check (is_held address (store address) p)
  update_existing address i p store (get_elem? p.pollfds i)

unfoldable pub update_channel : ℕ → PollPoller → (ℕ → Channel) → Result Stored
update_channel address p store = update_at address (store address).index p store

-- The last entry takes the place of the removed one, and its channel is told.
abbrev pub move_last : ℕ → PollFd → PollPoller → (ℕ → Channel) → Option ℕ → Result Stored
move_last i x p store none = fault out_of_bounds
move_last i x p store (some address) =
    ok (record p { pollfds = pop_back (set_at i x p.pollfds) }, set_index address i store)

-- The part of `removeChannel` after `erase`.
abbrev pub remove_entry : ℕ → PollPoller → (ℕ → Channel) → Option PollFd → Result Stored
remove_entry i p store none = fault out_of_bounds
remove_entry i p store (some x) =
    if i == length p.pollfds - 1
    then ok (record p { pollfds = pop_back p.pollfds }, store)
    else move_last i x p store (p.channels (descriptor x.fd))

-- `pfd.fd == -channel->fd()-1 && pfd.events == channel->events()`, of a channel without events.
abbrev pub is_quiet : Channel → Option PollFd → Bool
is_quiet ch none = false
is_quiet ch (some x) = is_ignored x.fd && (descriptor x.fd == ch.fd) && not x.reads && not x.writes

abbrev pub remove_at : ℕ → Option ℕ → PollPoller → (ℕ → Channel) → Result Stored
remove_at address none p store = fault assertion_failed
remove_at address (some i) p store = do
  check (is_quiet (store address) (get_elem? p.pollfds i))
  remove_entry i (record p { channels = put (store address).fd none p.channels }) store
      (get_elem? p.pollfds (length p.pollfds - 1))

unfoldable pub remove_channel : ℕ → PollPoller → (ℕ → Channel) → Result Stored
remove_channel address p store = do
  check (is_held address (store address) p)
  check (is_none_event (store address))
  remove_at address (store address).index p store

-- `revents > 0`
abbrev pub reports : Revents → Bool
reports r =
    r.pollin || r.pollpri || r.pollout || r.pollhup || r.pollrdhup || r.pollerr || r.pollnval

-- `channels_.find(pfd->fd)`: no channel has a negative descriptor.
abbrev pub find_channel : ℤ → PollPoller → Option ℕ
find_channel (pos fd) p = p.channels fd
find_channel (negsuc fd) p = none

-- One entry that reports: its channel, with `revents` stored in it.
abbrev pub activate : PollFd → Revents → Option ℕ → (ℕ → Channel) → Result ((ℕ → Channel) × ℕ)
activate x r none store = fault assertion_failed
activate x r (some address) store = do
  check ((store address).fd == descriptor x.fd)
  ok (set_revents (record { address = address; events = r }) store, address)

-- The loop of `fillActiveChannels`, over the entries with their reports; `num_events` counts down.
unfoldable pub fill_active :
    ℕ → List (PollFd × Revents) → PollPoller → (ℕ → Channel) → List ℕ → Result Active
fill_active zero entries p store active = ok (record { store = store; addresses = active })
fill_active (suc n) [] p store active = ok (record { store = store; addresses = active })
fill_active (suc n) ((x, r) ∷ entries) p store active = elim (reports r) [
  | false ↦ fill_active (suc n) entries p store active
  | true ↦ (do
    (store', address) ← activate x r (find_channel x.fd p) store
    fill_active n entries p store' (active ++ (address ∷ [])))
]
