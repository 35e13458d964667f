-- ===== src/PollPoller/Removal.antt =====
-- `removeChannel`: the last entry fills the gap, and its channel learns its new index.
use my_cisdi_code.Prelude.{
  ==_of_eq, List, Option, Result, ap, arith, false, get_elem?, length, negsuc, none, ok, refl, some,
  suc, sym, true, ℕ, ℕ_discrete, ◌-◌, ◌<◌, ◌∙◌, ◌≡◌, ◌≢◌,
}
use my_cisdi_code.Channel.{Channel, is_none_event}
use my_cisdi_code.PollPoller.{
  PollFd, PollPoller, Stored, descriptor, pop_back, remove_channel, remove_entry, set_at, set_index,
}
use my_cisdi_code.PollPoller.Array.{
  get_elem?-pop_back, get_elem?-set_at, get_elem?_bound, get_elem?_of_lt, length-set_at,
  pop_back_bound, set_at_other,
}
use my_cisdi_code.PollPoller.Indexed.{
  ==_of_ne, EntryAt, IsIndexed, Placed, owned_away, placed_away, put_at, put_away, set_index-fd,
  set_index_at, set_index_away, some_inj,
}
use my_cisdi_code.EPollPoller.{put}

module _ (p : PollPoller) (store : ℕ → Channel) (inv : IsIndexed p store) (fd a i : ℕ)
    (is_known : p.channels fd ≡ some a) (here : (store a).index ≡ some i)
    (entry_here : EntryAt i fd p.pollfds) where
  abbrev erased : ℕ → Option ℕ
  erased = put fd none p.channels

  abbrev popped : PollPoller
  popped = record { pollfds = pop_back p.pollfds; channels = erased }

  pop-IsIndexed : suc i ≡ length p.pollfds → IsIndexed popped store
  pop-IsIndexed at_end = record { placed = placed'; owned = owned' }
    where
      placed' : (fd' b : ℕ) → erased fd' ≡ some b → Placed fd' b popped store
      placed' fd' b e =
          let (its_fd, known_b, j, away, at_j, (x, get_x, of_x)) =
            placed_away p store inv fd a i is_known here entry_here fd' b e in
          let below = get_elem?_bound p.pollfds j x get_x in
          let inside : suc j < length p.pollfds = grind arith in
          (its_fd, (j, at_j, (x, get_elem?-pop_back p.pollfds j inside ∙ get_x, of_x)))

      owned' :
          (j : ℕ) (x : PollFd)
          → get_elem? (pop_back p.pollfds) j ≡ some x
          → (b : ℕ) × (erased (descriptor x.fd) ≡ some b) × ((store b).index ≡ some j)
      owned' j x e =
          let inside = pop_back_bound p.pollfds j x e in
          let away : j ≢ i = λ same. absurd (omega arith) in
          let (b, known_b, _, at_j) =
            owned_away p store inv fd a i is_known here j x away
              (sym (get_elem?-pop_back p.pollfds j inside) ∙ e) in
          (b, known_b, at_j)

  -- The last entry `y`, of channel `b`, at `l`.
  module _ (y : PollFd) (l b : ℕ) (at_end : suc l ≡ length p.pollfds) (before : i < l)
      (last_entry : get_elem? p.pollfds l ≡ some y)
      (its_channel : p.channels (descriptor y.fd) ≡ some b) (at_l : (store b).index ≡ some l) where
    same_entry : (j : ℕ) (x : PollFd) → get_elem? p.pollfds j ≡ some x → j ≡ l → x ≡ y
    same_entry j x e same =
        let g : some x ≡ some y = sym e ∙ ap (get_elem? p.pollfds) same ∙ last_entry in cc

    not_erased : erased (descriptor y.fd) ≡ some b
    not_erased =
        let (c, left, known_c, at_c) =
          owned_away p store inv fd a i is_known here l y (λ same. absurd (omega arith))
            last_entry in
        left ∙ sym known_c ∙ its_channel

    abbrev moved_fds : List PollFd
    moved_fds = pop_back (set_at i y p.pollfds)

    abbrev moved : PollPoller
    moved = record { pollfds = moved_fds; channels = erased }

    moved_elsewhere : (j : ℕ) → j ≢ i → j < l → get_elem? moved_fds j ≡ get_elem? p.pollfds j
    moved_elsewhere j away below =
        get_elem?-pop_back (set_at i y p.pollfds) j
          (let n = length-set_at i y p.pollfds in omega arith)
        ∙ set_at_other i j y p.pollfds away

    moved_here : get_elem? moved_fds i ≡ some y
    moved_here =
        get_elem?-pop_back (set_at i y p.pollfds) i
          (let n = length-set_at i y p.pollfds in omega arith)
        ∙ get_elem?-set_at i y p.pollfds (omega arith)

    move-IsIndexed : IsIndexed moved (set_index b i store)
    move-IsIndexed = record { placed = placed'; owned = owned' }
      where
        placed' : (fd' c : ℕ) → erased fd' ≡ some c → Placed fd' c moved (set_index b i store)
        placed' fd' c e =
            let (its_fd, known_c, j, away, at_j, (x, get_x, of_x)) =
              placed_away p store inv fd a i is_known here entry_here fd' c e in
            let below = get_elem?_bound p.pollfds j x get_x in
            (
              set_index-fd b i c store ∙ its_fd,
              (elim (ℕ_discrete c b) [
                | yes same ↦ (
                  i,
                  ap (λ n. (set_index b i store n).index) same
                      ∙ ap (λ ch. ch.index) (set_index_at b i store),
                  (
                    y,
                    moved_here,
                    (let same_place : j ≡ l =
                          some_inj (sym at_j ∙ ap (λ n. (store n).index) same ∙ at_l) in
                        ap (λ z. descriptor z.fd) (sym (same_entry j x get_x same_place)) ∙ of_x),
                  ),
                )
                | no other ↦ (
                  j,
                  ap (λ ch. ch.index) (set_index_away b i c store other) ∙ at_j,
                  (
                    x,
                    moved_elsewhere j away (
                          let short : j ≢ l = λ same_place. other (
                            some_inj (
                              sym known_c
                              ∙ ap p.channels (sym of_x)
                              ∙ ap (λ z. p.channels (descriptor z.fd))
                                  (same_entry j x get_x same_place)
                              ∙ its_channel)) in
                          grind arith)
                        ∙ get_x,
                    of_x,
                  ),
                )
              ]),
            )

        owned' :
            (j : ℕ) (x : PollFd)
            → get_elem? moved_fds j ≡ some x
            → (c : ℕ) × (erased (descriptor x.fd) ≡ some c)
              × ((set_index b i store c).index ≡ some j)
        owned' j x e = elim (ℕ_discrete j i) [
          | yes same ↦
              (let g : some x ≡ some y = sym e ∙ ap (get_elem? moved_fds) same ∙ moved_here in
                let xy : x ≡ y = cc in
                (
                  b,
                  ap (λ z. erased (descriptor z.fd)) xy ∙ not_erased,
                  ap (λ ch. ch.index) (set_index_at b i store) ∙ ap some (sym same),
                ))
          | no other ↦
              (let n = length-set_at i y p.pollfds in
                let bound = pop_back_bound (set_at i y p.pollfds) j x e in
                let below : j < l = omega arith in
                let (c, known_c, _, at_j) =
                  owned_away p store inv fd a i is_known here j x other
                    (sym (moved_elsewhere j other below) ∙ e) in
                let another : c ≢ b = λ cb.
                  let jl : j ≡ l = some_inj (sym at_j ∙ ap (λ n. (store n).index) cb ∙ at_l) in
                  absurd (omega arith) in
                (c, known_c, ap (λ ch. ch.index) (set_index_away b i c store another) ∙ at_j))
        ]

-- What `updateChannel` leaves in the entry of a channel that wants no event.
abbrev pub ignored_entry : ℕ → PollFd
ignored_entry fd = record { fd = negsuc fd; reads = false; writes = false }

abbrev Removed : ℕ → PollPoller → Result Stored → Type 0
Removed fd p r =
    (p' : PollPoller) × (store' : ℕ → Channel) × (r ≡ ok (p', store'))
    × IsIndexed p' store'
    × (p'.channels fd ≡ none)
    × ((n : ℕ) → n ≢ fd → p'.channels n ≡ p.channels n)

module _ (p : PollPoller) (store : ℕ → Channel) (inv : IsIndexed p store) (fd a i : ℕ)
    (is_known : p.channels fd ≡ some a) (here : (store a).index ≡ some i)
    (quiet : get_elem? p.pollfds i ≡ some (ignored_entry fd)) where
  abbrev after_erase : PollPoller
  after_erase = record p { channels = put fd none p.channels }

  gap_closed :
      Removed fd p (remove_entry i after_erase store (get_elem? p.pollfds (length p.pollfds - 1)))
  gap_closed =
      let bound = get_elem?_bound p.pollfds i (ignored_entry fd) quiet in
      let entry_here : EntryAt i fd p.pollfds = (ignored_entry fd, quiet, refl) in
      let (y, last_entry) = get_elem?_of_lt p.pollfds (length p.pollfds - 1) (omega arith) in
      elim (ℕ_discrete i (length p.pollfds - 1)) [
        | yes at_end ↦
            rw (last_entry, ==_of_eq i (length p.pollfds - 1) at_end)
              (
                popped p store inv fd a i is_known here entry_here,
                store,
                refl,
                pop-IsIndexed p store inv fd a i is_known here entry_here (omega arith),
                put_at fd none p.channels,
                λ n h. put_away fd n none p.channels h,
              )
        | no before ↦
            let (b, left, its_channel, at_l) =
              owned_away p store inv fd a i is_known here (length p.pollfds - 1) y
                (λ same. before (sym same)) last_entry in
            rw (last_entry, ==_of_ne i (length p.pollfds - 1) before, left)
              (
                record {
                  pollfds = pop_back (set_at i y p.pollfds);
                  channels = put fd none p.channels;
                },
                set_index b i store,
                refl,
                move-IsIndexed p store inv fd a i is_known here entry_here y (length p.pollfds - 1)
                    b (omega arith) (grind arith) last_entry its_channel at_l,
                put_at fd none p.channels,
                λ n h. put_away fd n none p.channels h,
              )
      ]

-- `removeChannel` of a channel in the poller's tables that wants no event, and whose entry says so,
-- fails no assertion. The channel's descriptor is forgotten and no other, and every channel that is
-- left has its entry where its `index_` says, also the one whose entry moved.
pub remove_channel-IsIndexed :
    (p : PollPoller) (store : ℕ → Channel) (a i : ℕ)
    → IsIndexed p store
    → p.channels (store a).fd ≡ some a
    → (store a).index ≡ some i
    → is_none_event (store a) ≡ true
    → get_elem? p.pollfds i ≡ some (ignored_entry (store a).fd)
    → (p' : PollPoller) × (store' : ℕ → Channel) × (remove_channel a p store ≡ ok (p', store'))
      × IsIndexed p' store'
      × (p'.channels (store a).fd ≡ none)
      × ((n : ℕ) → n ≢ (store a).fd → p'.channels n ≡ p.channels n)
unfolding remove_channel
remove_channel-IsIndexed p store a i inv is_known here calm quiet =
    rw (is_known, ==_of_eq a a refl, calm, here, quiet, ==_of_eq (store a).fd (store a).fd refl)
      (gap_closed p store inv (store a).fd a i is_known here quiet)
