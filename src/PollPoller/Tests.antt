-- ===== src/PollPoller/Tests.antt =====
-- A poll poller at concrete inputs.
use my_cisdi_code.Prelude.{
  Result, [], ap, assertion_failed, false, fault, get_elem?, if◌then◌else◌, inr, none, ok, pos,
  refl, some, suc, sym, true, zero, ℕ, ℕ_discrete, ◌==◌, ◌∙◌, ◌∷◌, ◌≡◌, ◌≢◌,
}
use my_cisdi_code.Channel.{Channel, Revents, new_channel, no_revents}
use my_cisdi_code.PollPoller.{
  PollFd, PollPoller, Stored, descriptor, fill_active, remove_channel, set_index, update_channel,
}
use my_cisdi_code.PollPoller.Indexed.{IsIndexed, Placed, none-some, put_away, some_inj}
use my_cisdi_code.PollPoller.Removal.{ignored_entry, remove_channel-IsIndexed}
use my_cisdi_code.PollPoller.Update.{some_entry, update_channel-IsIndexed}
use my_cisdi_code.EPollPoller.{put, set_revents}

-- Address 0 has a channel that waits for input, address 1 an idle one; both are known.
abbrev two_entries : PollPoller
two_entries = record {
  pollfds = ignored_entry 4 ∷ record { fd = pos 7; reads = true; writes = false } ∷ [];
  channels = put 4 (some 1) (put 7 (some 0) (λ fd. none));
}

abbrev idle : Channel
idle = record (new_channel 4) { index = some 0 }

abbrev busy : Channel
busy = record (new_channel 7) { index = some 1; read_event = true }

abbrev two_channels : ℕ → Channel
two_channels n = if n == 1 then idle else busy

two_entries-IsIndexed : IsIndexed two_entries two_channels
two_entries-IsIndexed = record { placed = placed'; owned = owned' }
  where
    placed' : (fd a : ℕ) → two_entries.channels fd ≡ some a → Placed fd a two_entries two_channels
    placed' fd a e = elim (ℕ_discrete fd 4) [
      | yes same ↦
          (let one : a ≡ 1 = some_inj (sym e ∙ ap two_entries.channels same) in
            rw (one, same) (refl, (0, refl, (ignored_entry 4, refl, refl))))
      | no other ↦
          (let e' = sym (put_away 4 fd (some 1) (put 7 (some 0) (λ fd. none)) other) ∙ e in
            elim (ℕ_discrete fd 7) [
              | yes same ↦
                  (let zero_th : a ≡ 0 =
                      some_inj (sym e' ∙ ap (put 7 (some 0) (λ fd. none)) same) in
                    rw (zero_th, same)
                      (
                        refl,
                        (
                          1,
                          refl,
                          (record { fd = pos 7; reads = true; writes = false }, refl, refl),
                        ),
                      ))
              | no another ↦
                  absurd (none-some (sym (put_away 7 fd (some 0) (λ fd. none) another) ∙ e'))
            ])
    ]

    owned' :
        (i : ℕ) (x : PollFd)
        → get_elem? two_entries.pollfds i ≡ some x
        → (a : ℕ) × (two_entries.channels (descriptor x.fd) ≡ some a)
          × ((two_channels a).index ≡ some i)
    owned' zero x e =
        (1, ap (λ z. two_entries.channels (descriptor z.fd)) (some_entry (sym e)), refl)
    owned' (suc zero) x e =
        (0, ap (λ z. two_entries.channels (descriptor z.fd)) (some_entry (sym e)), refl)
    owned' (suc (suc i)) x e = absurd (cc)

remove_channel-IsIndexed_example :
    (p' : PollPoller) × (store' : ℕ → Channel) × (remove_channel 1 two_entries two_channels
      ≡ ok (p', store'))
    × IsIndexed p' store'
    × (p'.channels 4 ≡ none)
    × ((n : ℕ) → n ≢ 4 → p'.channels n ≡ two_entries.channels n)
remove_channel-IsIndexed_example =
    remove_channel-IsIndexed two_entries two_channels 1 0 two_entries-IsIndexed refl refl refl refl

update_channel-IsIndexed_example :
    (p' : PollPoller) × (store' : ℕ → Channel) × (i : ℕ) × (update_channel 0 two_entries
        two_channels
      ≡ ok (p', store'))
    × IsIndexed p' store'
    × (p'.channels 7 ≡ some 0)
    × ((store' 0).index ≡ some i)
    × (get_elem? p'.pollfds i ≡ some (record { fd = pos 7; reads = true; writes = false }))
    × ((n : ℕ) → n ≢ 7 → p'.channels n ≡ two_entries.channels n)
update_channel-IsIndexed_example =
    update_channel-IsIndexed two_entries two_channels 0 two_entries-IsIndexed (inr refl)

-- The entry that moved: the channel at address 0 is told.
moved :
    remove_channel 1 two_entries two_channels
    ≡ ok (
      record {
        pollfds = record { fd = pos 7; reads = true; writes = false } ∷ [];
        channels = put 4 none two_entries.channels;
      },
      set_index 0 0 two_channels,
    )
unfolding remove_channel
moved = refl

-- A channel that was removed keeps its index, so that it cannot be added again.
abbrev after_remove : Result Stored → Result Stored
after_remove (ok (p, store)) = update_channel 1 p store
after_remove (fault e) = fault e

not_again : after_remove (remove_channel 1 two_entries two_channels) ≡ fault assertion_failed
unfolding remove_channel update_channel
not_again = refl

-- The walk over the reports passes an entry without any, and stops when all were found.
abbrev came : Revents
came = record no_revents { pollin = true }

walked :
    fill_active 1
      ((ignored_entry 4, no_revents)
        ∷ (record { fd = pos 7; reads = true; writes = false }, came)
        ∷ [])
      two_entries
      two_channels
      []
    ≡ ok (record {
      store = set_revents (record { address = 0; events = came }) two_channels;
      addresses = 0 ∷ [];
    })
unfolding fill_active
walked = refl
