-- ===== src/EPollPoller/Poll.antt =====
-- What a round of `poll` hands to the loop.
use my_cisdi_code.Prelude.{
  Bool-cases, List, Result, [], ap, arith, false, if◌then◌else◌, inl, inr, length, le→leb, map, ok,
  refl, some, sym, ℕ, ◌*◌, ◌++◌, ◌<◌, ◌==◌, ◌∙◌, ◌∷◌, ◌≡◌, ◌≤◌,
}
use my_cisdi_code.Channel.{Channel, Revents}
use my_cisdi_code.EPollPoller.{
  Active, EPollPoller, Event, fill, fill_active_channels, poll, set_revents,
}
use my_cisdi_code.EPollPoller.Interest.{held}
use mathlib.Core.List.{append_assoc, append-nil}

-- Each event carries the address of a channel that is in `channels_`.
abbrev pub Known : List Event → EPollPoller → (ℕ → Channel) → Type 0
Known [] p store = Unit {0}
Known (e ∷ es) p store = (p.channels (store e.address).fd ≡ some e.address) × Known es p store

abbrev pub addresses_of : List Event → List ℕ
addresses_of = map (λ e. e.address)

-- The last events that came for the channel of an address.
abbrev pub latest : ℕ → List Event → Revents → Revents
latest n [] r = r
latest n (e ∷ es) r = latest n es (if n == e.address then e.events else r)

set_revents-fd :
    (e : Event) (store : ℕ → Channel) (n : ℕ) → (set_revents e store n).fd ≡ (store n).fd
set_revents-fd e store n = elim (Bool-cases (n == e.address)) [
  | inl same ↦ rw same refl
  | inr other ↦ rw other refl
]

set_revents-revents :
    (e : Event) (store : ℕ → Channel) (n : ℕ)
    → (set_revents e store n).revents ≡ (if n == e.address then e.events else (store n).revents)
set_revents-revents e store n = elim (Bool-cases (n == e.address)) [
  | inl same ↦ rw same refl
  | inr other ↦ rw other refl
]

set_revents-Known :
    (e : Event) (es : List Event) (p : EPollPoller) (store : ℕ → Channel)
    → Known es p store
    → Known es p (set_revents e store)
set_revents-Known e [] p store known = tt
set_revents-Known e (x ∷ xs) p store (here, known) =
    (rw (set_revents-fd e store x.address) here, set_revents-Known e xs p store known)

abbrev Filled : List Event → (ℕ → Channel) → List ℕ → Result Active → Type 0
Filled es store active r =
    (a : Active) × (r ≡ ok a)
    × (a.addresses ≡ active ++ addresses_of es)
    × ((n : ℕ) → (a.store n).revents ≡ latest n es (store n).revents)

fill-Filled :
    (es : List Event) (p : EPollPoller) (store : ℕ → Channel) (active : List ℕ)
    → Known es p store
    → Filled es store active (fill es p store active)
unfolding fill
fill-Filled [] p store active known =
    (record { store = store; addresses = active }, refl, sym (append-nil active), λ n. refl)
fill-Filled (e ∷ es) p store active (here, known) = rw (held e.address (store e.address) p here) (
    let (a, done, order, newest) =
      fill-Filled es p (set_revents e store) (active ++ (e.address ∷ []))
        (set_revents-Known e es p store known) in
    (
      a,
      done,
      order ∙ append_assoc active (e.address ∷ []) (addresses_of es),
      λ n. newest n ∙ ap (latest n es) (set_revents-revents e store n),
    ))

lt_of_ne : (a b : ℕ) → a ≤ b → (a == b) ≡ false → a < b
lt_of_ne a b le ne = ground arith

-- `poll` with events that all belong to channels of the poller, as many as fit: it fails no assertion,
-- appends the channel of each event in the order of the events, stores in each channel the last
-- events that came for it, and leaves more slots than were used now.
pub poll_lem :
    (es : List Event) (p : EPollPoller) (store : ℕ → Channel) (active : List ℕ)
    → Known es p store
    → length es ≤ p.events_size
    → 0 < p.events_size
    → (p' : EPollPoller) × (a : Active) × (poll es p store active ≡ ok (p', a))
      × (a.addresses ≡ active ++ addresses_of es)
      × ((n : ℕ) → (a.store n).revents ≡ latest n es (store n).revents)
      × (length es < p'.events_size)
unfolding poll fill_active_channels
poll_lem [] p store active known fits some_room = (
  p,
  record { store = store; addresses = active },
  refl,
  sym (append-nil active),
  (λ n. refl),
  some_room,
)
poll_lem (e ∷ es) p store active known fits some_room =
    let (a, done, order, newest) = fill-Filled (e ∷ es) p store active known in
    elim (Bool-cases (length (e ∷ es) == p.events_size)) [
      | inl full ↦ (
        record p { events_size = p.events_size * 2 },
        a,
        rw (le→leb (length (e ∷ es)) p.events_size fits, done, full) refl,
        order,
        newest,
        omega (arith, fits, some_room),
      )
      | inr free ↦ (
        p,
        a,
        rw (le→leb (length (e ∷ es)) p.events_size fits, done, free) refl,
        order,
        newest,
        lt_of_ne (length (e ∷ es)) p.events_size fits free,
      )
    ]
