-- ===== src/EPollPoller/Interest.antt =====
-- The kernel is asked for what it can do: no fd is added twice, or changed when it is not there.
use my_cisdi_code.Prelude.{
  ==_iff, ==_of_eq, Bool, Bool-cases, List, Option, Result, [], false, if◌then◌else◌, inl, inr,
  none, not, ok, refl, some, subst, sym, true, ℕ, ◌&&◌, ◌==◌, ◌∙◌, ◌∷◌, ◌≡◌, ◌≢◌, ◌⊎◌,
}
use my_cisdi_code.Channel.{Channel, is_none_event}
use my_cisdi_code.EPollPoller.{
  Control, EPollPoller, Operation, Updated, add_channel, ctl_add, ctl_del, ctl_mod, is_index,
  k_added, k_deleted, modify_channel, put, remove_channel, update, update_channel,
}

-- What `index_` says of the entry that `channels_` has for the fd.
abbrev pub Listed : ℕ → Option ℕ → Option ℕ → Type 0
Listed address none entry = entry ≡ none
Listed address (some m) entry = ((m ≡ k_added) ⊎ (m ≡ k_deleted)) × (entry ≡ some address)

abbrev pub IsListed : ℕ → Channel → EPollPoller → Type 0
IsListed address ch p = Listed address ch.index (p.channels ch.fd)

-- Whether the kernel watches the fd.
abbrev pub watched : Channel → Bool
watched ch = is_index k_added ch.index

-- What the kernel keeps for an fd: the address that it hands back, and the events.
pub record Watch : Type 0 where
  pub address : ℕ
  pub reads : Bool
  pub writes : Bool

abbrev pub Interests : Type 0
Interests = ℕ → Option Watch

-- The interest set of epoll(7) for one fd: an add of a known fd and a change or delete of an unknown
-- one fail, with EEXIST and ENOENT.
abbrev pub answer : Operation → Watch → Option Watch → Option (Option Watch)
answer ctl_add w none = some (some w)
answer ctl_add w (some v) = none
answer ctl_mod w (some v) = some (some w)
answer ctl_mod w none = none
answer ctl_del w (some v) = some none
answer ctl_del w none = none

abbrev pub keep : ℕ → Interests → Option (Option Watch) → Option Interests
keep fd k none = none
keep fd k (some o) = some (λ n. if n == fd then o else k n)

-- The kernel runs the calls in turn; a call that fails fails the whole.
abbrev pub answers : List Control → Interests → Option Interests
answers [] k = some k
answers (c ∷ []) k = keep c.fd k (
    answer c.operation (record { address = c.address; reads = c.reads; writes = c.writes })
      (k c.fd))
answers (c ∷ d ∷ cs) k = none

abbrev pub is_some : Option Watch → Bool
is_some none = false
is_some (some w) = true

-- The kernel watches the fd just where the channel's `index_` says so.
abbrev pub Agrees : Interests → Channel → Type 0
Agrees k ch = is_some (k ch.fd) ≡ watched ch

-- The entry of a channel's fd, with the channel's own address and events.
abbrev pub entry_of : ℕ → Channel → Option Watch
entry_of address ch =
    if watched ch
    then some (record { address = address; reads = ch.read_event; writes = ch.write_event })
    else none

-- The kernel accepts the calls, then has this for the fd, and what it had for the others.
abbrev pub Accepts : ℕ → List Control → Interests → Option Watch → Type 0
Accepts fd cs k o =
    (k' : Interests) × (answers cs k ≡ some k') × (k' fd ≡ o) × ((n : ℕ) → n ≢ fd → k' n ≡ k n)

abbrev pub Others : ℕ → EPollPoller → EPollPoller → Type 0
Others fd p p' = (n : ℕ) → n ≢ fd → p'.channels n ≡ p.channels n

==_of_ne : (a b : ℕ) → a ≢ b → (a == b) ≡ false
==_of_ne a b h = elim (Bool-cases (a == b)) [
  | inl same ↦ absurd (h ((==_iff a b).0 same))
  | inr other ↦ other
]

accepts :
    (fd : ℕ) (k : Interests) (op : Operation) (address : ℕ) (reads writes : Bool) (o : Option Watch)
    → answer op (record { address = address; reads = reads; writes = writes }) (k fd) ≡ some o
    → Accepts fd
        (record { operation = op; fd = fd; address = address; reads = reads; writes = writes } ∷ [])
        k
        o
accepts fd k op address reads writes o e = rw e (
  (λ n. if n == fd then o else k n),
  refl,
  rw (==_of_eq fd fd refl) refl,
  (λ n h. rw (==_of_ne n fd h) refl),
)

answer_add : (w : Watch) (o : Option Watch) → is_some o ≡ false → answer ctl_add w o ≡ some (some w)
answer_add w none e = refl
answer_add w (some v) e = cc

answer_mod : (w : Watch) (o : Option Watch) → is_some o ≡ true → answer ctl_mod w o ≡ some (some w)
answer_mod w none e = cc
answer_mod w (some v) e = refl

answer_del : (w : Watch) (o : Option Watch) → is_some o ≡ true → answer ctl_del w o ≡ some none
answer_del w none e = cc
answer_del w (some v) e = refl

Accepts-none : (fd : ℕ) (k : Interests) → is_some (k fd) ≡ false → Accepts fd [] k none
Accepts-none fd k e = (k, refl, go (k fd) e, λ n h. refl)
  where
    go : (o : Option Watch) → is_some o ≡ false → o ≡ none
    go none e = refl
    go (some w) e = cc

watched_added : (m : ℕ) → m ≡ k_added → is_index k_added (some m) ≡ true
watched_added m e = rw e refl

watched_deleted : (m : ℕ) → m ≡ k_deleted → is_index k_added (some m) ≡ false
watched_deleted m e = rw e refl

-- The fd and the events that a channel asks for are left alone.
abbrev pub Same : Channel → Channel → Type 0
Same ch ch' =
    (ch'.fd ≡ ch.fd) × (ch'.read_event ≡ ch.read_event) × (ch'.write_event ≡ ch.write_event)

abbrev Done : ℕ → Channel → EPollPoller → Interests → Bool → Result Updated → Type 0
Done address ch p k after r =
    (u : Updated) × (r ≡ ok u)
    × IsListed address u.channel u.poller
    × Accepts ch.fd u.controls k (entry_of address u.channel)
    × (watched u.channel ≡ after)
    × Same ch u.channel
    × Others ch.fd p u.poller

pub held :
    (address : ℕ) (c : Channel) (p : EPollPoller)
    → p.channels c.fd ≡ some address
    → is_index address (p.channels c.fd) ≡ true
held address c p e = rw e (==_of_eq address address refl)

module _ (address : ℕ) (c : Channel) (p : EPollPoller) (k : Interests) where
  abbrev at : Option ℕ → Channel
  at i = record c { index = i }

  put_same : (o : Option ℕ) → put c.fd o p.channels c.fd ≡ o
  put_same o = rw (==_of_eq c.fd c.fd refl) refl

  put_other : (o : Option ℕ) (n : ℕ) → n ≢ c.fd → put c.fd o p.channels n ≡ p.channels n
  put_other o n h = rw (==_of_ne n c.fd h) refl

  abbrev with : Option ℕ → EPollPoller
  with o = record p { channels = put c.fd o p.channels }

  update_new :
      p.channels c.fd ≡ none
      → is_some (k c.fd) ≡ false
      → Done address (at none) p k true (update_channel address (at none) p)
  unfolding update_channel add_channel
  update_new free off = rw free (
    add_channel address (at none) (with (some address)),
    refl,
    (inl refl, put_same (some address)),
    accepts c.fd k ctl_add address c.read_event c.write_event _ (answer_add _ (k c.fd) off),
    refl,
    (refl, refl, refl),
    put_other (some address),
  )

  update_added :
      p.channels c.fd ≡ some address
      → is_some (k c.fd) ≡ true
      → Done address
          (at (some k_added))
          p
          k
          (not (is_none_event c))
          (update_channel address (at (some k_added)) p)
  unfolding update_channel modify_channel
  update_added e on = elim (Bool-cases (is_none_event c)) [
    | inl none_event ↦
        rw (held address c p e, none_event)
          (
            record {
              poller = p;
              channel = at (some k_deleted);
              controls = update ctl_del address (at (some k_added)) ∷ [];
            },
            refl,
            (inr refl, e),
            accepts c.fd k ctl_del address c.read_event c.write_event none (
                answer_del
                  (record { address = address; reads = c.read_event; writes = c.write_event })
                  (k c.fd) on),
            refl,
            (refl, refl, refl),
            λ n h. refl,
          )
    | inr some_event ↦
        rw (held address c p e, some_event)
          (
            record {
              poller = p;
              channel = at (some k_added);
              controls = update ctl_mod address (at (some k_added)) ∷ [];
            },
            refl,
            (inl refl, e),
            accepts c.fd k ctl_mod address c.read_event c.write_event _ (answer_mod _ (k c.fd) on),
            refl,
            (refl, refl, refl),
            λ n h. refl,
          )
  ]

  update_deleted :
      p.channels c.fd ≡ some address
      → is_some (k c.fd) ≡ false
      → Done address (at (some k_deleted)) p k true (update_channel address (at (some k_deleted)) p)
  unfolding update_channel add_channel
  update_deleted e off = rw (held address c p e) (
    add_channel address (at (some k_deleted)) p,
    refl,
    (inl refl, e),
    accepts c.fd k ctl_add address c.read_event c.write_event _ (answer_add _ (k c.fd) off),
    refl,
    (refl, refl, refl),
    λ n h. refl,
  )

  update_done :
      (i : Option ℕ)
      → IsListed address (at i) p
      → Agrees k (at i)
      → Done address
          (at i)
          p
          k
          (not (watched (at i) && is_none_event c))
          (update_channel address (at i) p)
  update_done none free a = update_new free a
  update_done (some m) (inl added, e) a =
      subst
        (λ m.
          Done address (at (some m)) p k (not (watched (at (some m)) && is_none_event c))
            (update_channel address (at (some m)) p))
        (sym added) (update_added e (a ∙ watched_added m added))
  update_done (some m) (inr deleted, e) a =
      subst
        (λ m.
          Done address (at (some m)) p k (not (watched (at (some m)) && is_none_event c))
            (update_channel address (at (some m)) p))
        (sym deleted) (update_deleted e (a ∙ watched_deleted m deleted))

  abbrev Removed : Option ℕ → Result Updated → Type 0
  Removed i r =
      (u : Updated) × (r ≡ ok u)
      × (u.channel.index ≡ none)
      × (u.poller.channels c.fd ≡ none)
      × Accepts c.fd u.controls k none
      × Others c.fd p u.poller

  abbrev removed : (controls : List Control) → Updated
  removed controls = record { poller = with none; channel = at none; controls = controls }

  remove_done :
      (m : ℕ)
      → (m ≡ k_added) ⊎ (m ≡ k_deleted)
      → p.channels c.fd ≡ some address
      → is_none_event c ≡ true
      → Agrees k (at (some m))
      → Removed (some m) (remove_channel address (at (some m)) p)
  unfolding remove_channel
  remove_done m (inl added) e quiet a =
      subst (λ m. Removed (some m) (remove_channel address (at (some m)) p)) (sym added)
        (rw (held address c p e, quiet)
          (
            removed (update ctl_del address (at (some k_added)) ∷ []),
            refl,
            refl,
            put_same none,
            accepts c.fd k ctl_del address c.read_event c.write_event none (
                answer_del
                  (record { address = address; reads = c.read_event; writes = c.write_event })
                  (k c.fd) (a ∙ watched_added m added)),
            put_other none,
          ))
  remove_done m (inr deleted) e quiet a =
      subst (λ m. Removed (some m) (remove_channel address (at (some m)) p)) (sym deleted)
        (rw (held address c p e, quiet)
          (
            removed ([]),
            refl,
            refl,
            put_same none,
            Accepts-none c.fd k (a ∙ watched_deleted m deleted),
            put_other none,
          ))

-- `updateChannel` of a channel whose `index_` tells how it is listed fails no assertion and leaves it
-- listed as its new `index_` tells, with its fd and events, and no other fd changes in `channels_`. A
-- kernel that watches the fd just where `index_` tells accepts the one `epoll_ctl` that it makes, and
-- then watches the fd with the channel's address and events unless the fd was watched and no event is
-- wanted any more; it then does not watch it. It keeps what it has for every other fd.
pub update_channel_lem :
    (address : ℕ) (ch : Channel) (p : EPollPoller) (k : Interests)
    → IsListed address ch p
    → Agrees k ch
    → (u : Updated) × (update_channel address ch p ≡ ok u)
      × IsListed address u.channel u.poller
      × Accepts ch.fd u.controls k (entry_of address u.channel)
      × (watched u.channel ≡ not (watched ch && is_none_event ch))
      × Same ch u.channel
      × Others ch.fd p u.poller
update_channel_lem address ch p k listed a = update_done address ch p k ch.index listed a

-- `removeChannel` of a listed channel that wants no event fails no assertion, forgets the channel and
-- no other. A kernel that watches the fd just where `index_` tells accepts the calls that it makes,
-- does not watch the fd afterwards, and keeps what it has for every other fd.
pub remove_channel_lem :
    (address : ℕ) (ch : Channel) (p : EPollPoller) (k : Interests)
    → IsListed address ch p
    → Agrees k ch
    → ch.index ≢ none
    → is_none_event ch ≡ true
    → (u : Updated) × (remove_channel address ch p ≡ ok u)
      × (u.channel.index ≡ none)
      × (u.poller.channels ch.fd ≡ none)
      × Accepts ch.fd u.controls k none
      × Others ch.fd p u.poller
remove_channel_lem address ch p k listed a old quiet = go ch.index listed a old
  where
    go :
        (i : Option ℕ)
        → IsListed address (record ch { index = i }) p
        → Agrees k (record ch { index = i })
        → i ≢ none
        → Removed address ch p k i (remove_channel address (record ch { index = i }) p)
    go none listed a old = absurd (old refl)
    go (some m) (which, e) a old = remove_done address ch p k m which e quiet a
