-- ===== src/EPollPoller.antt =====
-- muduo/net/poller/EPollPoller.h and EPollPoller.cc, over muduo/net/Poller.h: which channels the loop
-- knows, and the `epoll_ctl` calls that tell the kernel. A channel is known by its address; `store`
-- holds the channel of each address. What `epoll_wait` fills in is an argument.
pub mod Interest
pub mod Poll
mod Tests
use my_cisdi_code.Prelude.{
  Bool, List, Option, Result, [], check, false, if◌then◌else◌, leb, length, none, ok, some, true, ℕ,
  ◌*◌, ◌++◌, ◌==◌, ◌>>=◌, ◌>>◌, ◌||◌, ◌∷◌,
}
use my_cisdi_code.Channel.{Channel, Revents, is_none_event}

-- `index_` is `kNew` (-1, here `none`), `kAdded` or `kDeleted`.
abbrev pub k_added : ℕ
k_added = 1

abbrev pub k_deleted : ℕ
k_deleted = 2

abbrev pub init_event_list_size : ℕ
init_event_list_size = 16

pub record EPollPoller : Type 0 where
  -- `channels_`, from a file descriptor to an address.
  pub channels : ℕ → Option ℕ
  -- `events_.size()`
  pub events_size : ℕ

pub data Operation : Type 0 where
  ctl_add ctl_mod ctl_del : Operation

-- One call of `epoll_ctl`, with the address and the events it hands over.
pub record Control : Type 0 where
  pub operation : Operation
  pub fd : ℕ
  pub address : ℕ
  pub reads : Bool
  pub writes : Bool

pub record Updated : Type 0 where
  pub poller : EPollPoller
  pub channel : Channel
  pub controls : List Control

abbrev pub new_poller : EPollPoller
new_poller = record { channels = λ fd. none; events_size = init_event_list_size }

abbrev pub put : ℕ → Option ℕ → (ℕ → Option ℕ) → ℕ → Option ℕ
put fd o f n = if n == fd then o else f n

abbrev pub is_index : ℕ → Option ℕ → Bool
is_index n none = false
is_index n (some m) = m == n

abbrev pub is_new : Option ℕ → Bool
is_new none = true
is_new (some m) = false

abbrev pub update : Operation → ℕ → Channel → Control
update op address ch = record {
  operation = op;
  fd = ch.fd;
  address = address;
  reads = ch.read_event;
  writes = ch.write_event;
}

-- `channels_.find(fd) != end()` and `channels_[fd] == channel`.
abbrev pub holds : ℕ → Channel → EPollPoller → Bool
holds address ch p = is_index address (p.channels ch.fd)

unfoldable pub add_channel : ℕ → Channel → EPollPoller → Updated
add_channel address ch p = record {
  poller = p;
  channel = record ch { index = some k_added };
  controls = update ctl_add address ch ∷ [];
}

unfoldable pub modify_channel : ℕ → Channel → EPollPoller → Updated
modify_channel address ch p =
    if is_none_event ch
    then record {
      poller = p;
      channel = record ch { index = some k_deleted };
      controls = update ctl_del address ch ∷ [];
    }
    else record { poller = p; channel = ch; controls = update ctl_mod address ch ∷ [] }

unfoldable pub update_channel : ℕ → Channel → EPollPoller → Result Updated
unfolding add_channel modify_channel
update_channel address ch p =
    if is_new ch.index
    then (do
      check (is_new (p.channels ch.fd))
      ok (add_channel address ch (record p { channels = put ch.fd (some address) p.channels })))
    else if is_index k_deleted ch.index
    then (do check (holds address ch p); ok (add_channel address ch p))
    else do
      check (holds address ch p)
      check (is_index k_added ch.index)
      ok (modify_channel address ch p)

unfoldable pub remove_channel : ℕ → Channel → EPollPoller → Result Updated
remove_channel address ch p = do
  check (holds address ch p)
  check (is_none_event ch)
  check (is_index k_added ch.index || is_index k_deleted ch.index)
  ok (record {
    poller = record p { channels = put ch.fd none p.channels };
    channel = record ch { index = none };
    controls = if is_index k_added ch.index then update ctl_del address ch ∷ [] else [];
  })

-- A slot of `events_`: the address in `data.ptr` and the events.
pub record Event : Type 0 where
  pub address : ℕ
  pub events : Revents

abbrev pub set_revents : Event → (ℕ → Channel) → ℕ → Channel
set_revents e store n = if n == e.address then record (store n) { revents = e.events } else store n

pub record Active : Type 0 where
  pub store : ℕ → Channel
  pub addresses : List ℕ

-- The loop of `fillActiveChannels`, with the channels appended so far.
unfoldable pub fill : List Event → EPollPoller → (ℕ → Channel) → List ℕ → Result Active
fill [] p store active = ok (record { store = store; addresses = active })
fill (e ∷ es) p store active = do
  check (holds e.address (store e.address) p)
  fill es p (set_revents e store) (active ++ (e.address ∷ []))

unfoldable pub fill_active_channels :
    List Event → EPollPoller → (ℕ → Channel) → List ℕ → Result Active
unfolding fill
fill_active_channels es p store active = do
  check (leb (length es) p.events_size)
  fill es p store active

-- `poll`: the list of events doubles when all its slots were used.
unfoldable pub poll :
    List Event → EPollPoller → (ℕ → Channel) → List ℕ → Result (EPollPoller × Active)
unfolding fill_active_channels
poll [] p store active = ok (p, record { store = store; addresses = active })
poll es p store active = do
  filled ← fill_active_channels es p store active
  ok (
      if length es == p.events_size
      then (record p { events_size = p.events_size * 2 }, filled)
      else (p, filled))
