-- ===== src/EPollPoller/Tests.antt =====
-- A poller at concrete inputs.
use my_cisdi_code.Prelude.{
  [], arith, false, if◌then◌else◌, inl, none, ok, refl, some, true, ℕ, ◌<◌, ◌==◌, ◌∷◌, ◌≡◌,
}
use my_cisdi_code.Channel.{Channel, new_channel, no_revents}
use my_cisdi_code.EPollPoller.{
  Active, EPollPoller, Event, Updated, k_added, new_poller, poll, remove_channel, update_channel,
}
use my_cisdi_code.EPollPoller.Poll.{latest, poll_lem}
use my_cisdi_code.EPollPoller.Interest.{
  Accepts, Interests, IsListed, Others, Same, entry_of, remove_channel_lem, update_channel_lem,
  watched,
}

abbrev quiet : Channel
quiet = record (new_channel 5) { index = some k_added }

abbrev watching : EPollPoller
watching = record new_poller { channels = λ fd. some 100 }

-- The kernel watches the one descriptor, with an event that is wanted no more.
abbrev one_watched : Interests
one_watched n =
    if n == 5 then some (record { address = 100; reads = true; writes = false }) else none

quiet-IsListed : IsListed 100 quiet watching
quiet-IsListed = (inl refl, refl)

update_channel_lem_example :
    (u : Updated) × (update_channel 100 quiet watching ≡ ok u)
    × IsListed 100 u.channel u.poller
    × Accepts 5 u.controls one_watched (entry_of 100 u.channel)
    × (watched u.channel ≡ false)
    × Same quiet u.channel
    × Others 5 watching u.poller
update_channel_lem_example = update_channel_lem 100 quiet watching one_watched quiet-IsListed refl

remove_channel_lem_example :
    (u : Updated) × (remove_channel 100 quiet watching ≡ ok u)
    × (u.channel.index ≡ none)
    × (u.poller.channels 5 ≡ none)
    × Accepts 5 u.controls one_watched none
    × Others 5 watching u.poller
remove_channel_lem_example =
    remove_channel_lem 100 quiet watching one_watched quiet-IsListed refl (λ e. cc) refl

abbrev came : Event
came = record { address = 100; events = record no_revents { pollin = true } }

poll_lem_example :
    (p' : EPollPoller) × (a : Active) × (poll (came ∷ []) watching (λ n. quiet) [] ≡ ok (p', a))
    × (a.addresses ≡ 100 ∷ [])
    × ((n : ℕ) → (a.store n).revents ≡ latest n (came ∷ []) no_revents)
    × (1 < p'.events_size)
poll_lem_example =
    poll_lem (came ∷ []) watching (λ n. quiet) [] (refl, tt) (omega arith) (omega arith)
