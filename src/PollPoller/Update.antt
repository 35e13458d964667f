-- ===== src/PollPoller/Update.antt =====
-- `updateChannel` of a new and of a known channel.
use my_cisdi_code.Prelude.{
  ==_of_eq, Bool, Bool-cases, List, Option, Result, [], ap, false, get_elem?, inl, inr, length,
  negsuc, none, ok, pos, refl, some, sym, true, ℕ, ℕ_discrete, ℤ, ◌++◌, ◌∙◌, ◌∷◌, ◌≡◌, ◌≢◌, ◌⊎◌,
}
use my_cisdi_code.Channel.{Channel, is_none_event}
use my_cisdi_code.PollPoller.{
  PollFd, PollPoller, Stored, descriptor, entry, ignorable, set_at, set_index, update_channel,
}
use my_cisdi_code.PollPoller.Array.{
  append_cases, append_last, get_elem?-append, get_elem?-set_at, get_elem?_bound, set_at_other,
}
use my_cisdi_code.PollPoller.Indexed.{
  EntryAt, IsIndexed, Placed, entry_unique, none-some, put_at, put_away, set_index-fd, set_index_at,
  set_index_away, some_inj,
}
use my_cisdi_code.EPollPoller.{put}

-- The `fd` that `updateChannel` stores for an index and the wish for no event: a new channel's entry is
-- never an ignored one.
abbrev pub written_fd : Option ℕ → Bool → ℕ → ℤ
written_fd none wants_none fd = pos fd
written_fd (some i) true fd = negsuc fd
written_fd (some i) false fd = pos fd

abbrev pub written : Channel → PollFd
written ch = record {
  fd = written_fd ch.index (is_none_event ch) ch.fd;
  reads = ch.read_event;
  writes = ch.write_event;
}

ignorable-written :
    (ch : Channel) (i : ℕ)
    → ignorable ch ≡ record {
      fd = written_fd (some i) (is_none_event ch) ch.fd;
      reads = ch.read_event;
      writes = ch.write_event;
    }
ignorable-written ch i = elim (Bool-cases (is_none_event ch)) [
  | inl calm ↦ rw calm refl
  | inr busy ↦ rw busy refl
]

pub some_entry : {x y : PollFd} → some x ≡ some y → x ≡ y
some_entry e = cc

descriptor-ignorable : (ch : Channel) → descriptor (ignorable ch).fd ≡ ch.fd
descriptor-ignorable ch = elim (Bool-cases (is_none_event ch)) [
  | inl calm ↦ rw calm refl
  | inr busy ↦ rw busy refl
]

abbrev Updated : ℕ → PollPoller → (ℕ → Channel) → Result Stored → Type 0
Updated a p store r =
    (p' : PollPoller) × (store' : ℕ → Channel) × (i : ℕ) × (r ≡ ok (p', store'))
    × IsIndexed p' store'
    × (p'.channels (store a).fd ≡ some a)
    × ((store' a).index ≡ some i)
    × (get_elem? p'.pollfds i ≡ some (written (store a)))
    × ((n : ℕ) → n ≢ (store a).fd → p'.channels n ≡ p.channels n)

module _ (p : PollPoller) (store : ℕ → Channel) (inv : IsIndexed p store) (a : ℕ) where
  abbrev fd : ℕ
  fd = (store a).fd

  module _ (is_fresh : (store a).index ≡ none) (free : p.channels fd ≡ none) where
    abbrev grown : List PollFd
    grown = p.pollfds ++ (entry (store a) ∷ [])

    abbrev added : PollPoller
    added = record { pollfds = grown; channels = put fd (some a) p.channels }

    abbrev store' : ℕ → Channel
    store' = set_index a (length p.pollfds) store

    told : (store' a).index ≡ some (length p.pollfds)
    told = ap (λ ch. ch.index) (set_index_at a (length p.pollfds) store)

    not_fresh : (b j : ℕ) → (store b).index ≡ some j → b ≢ a
    not_fresh b j at_j same =
        let e : none ≡ some j = sym is_fresh ∙ ap (λ n. (store n).index) (sym same) ∙ at_j in
        absurd (cc)

    kept : (b j : ℕ) → (store b).index ≡ some j → (store' b).index ≡ some j
    kept b j at_j =
        ap (λ ch. ch.index) (set_index_away a (length p.pollfds) b store (not_fresh b j at_j))
        ∙ at_j

    add-IsIndexed : IsIndexed added store'
    add-IsIndexed = record { placed = placed'; owned = owned' }
      where
        placed' : (fd' b : ℕ) → put fd (some a) p.channels fd' ≡ some b → Placed fd' b added store'
        placed' fd' b e = elim (ℕ_discrete fd' fd) [
          | yes same ↦
              (let ab : a ≡ b = some_inj (
                  sym (put_at fd (some a) p.channels)
                  ∙ ap (put fd (some a) p.channels) (sym same)
                  ∙ e) in
                (
                  set_index-fd a (length p.pollfds) b store
                      ∙ ap (λ n. (store n).fd) (sym ab)
                      ∙ sym same,
                  (
                    length p.pollfds,
                    ap (λ n. (store' n).index) (sym ab) ∙ told,
                    (entry (store a), append_last p.pollfds (entry (store a)), sym same),
                  ),
                ))
          | no other ↦
              (let known_b = sym (put_away fd fd' (some a) p.channels other) ∙ e in
                let (its_fd, (j, at_j, (x, get_x, of_x))) = inv.placed fd' b known_b in
                let below = get_elem?_bound p.pollfds j x get_x in
                (
                  set_index-fd a (length p.pollfds) b store ∙ its_fd,
                  (
                    j,
                    kept b j at_j,
                    (x, get_elem?-append p.pollfds (entry (store a)) j below ∙ get_x, of_x),
                  ),
                ))
        ]

        owned' :
            (j : ℕ) (x : PollFd)
            → get_elem? grown j ≡ some x
            → (b : ℕ) × (put fd (some a) p.channels (descriptor x.fd) ≡ some b)
              × ((store' b).index ≡ some j)
        owned' j x e = elim (append_cases p.pollfds (entry (store a)) j x e) [
          | inl old ↦
              (let (b, known_b, at_j) = inv.owned j x old in
                let other : descriptor x.fd ≢ fd =
                  λ same. none-some (sym free ∙ ap p.channels (sym same) ∙ known_b) in
                (b, put_away fd _ (some a) p.channels other ∙ known_b, kept b j at_j))
          | inr (at_end, same) ↦ (
            a,
            ap (λ z. put fd (some a) p.channels (descriptor z.fd)) same
                ∙ put_at fd (some a) p.channels,
            told ∙ ap some (sym at_end),
          )
        ]

  module _ (i : ℕ) (is_known : p.channels fd ≡ some a) (here : (store a).index ≡ some i)
      (entry_here : EntryAt i fd p.pollfds) where
    abbrev rewritten : PollPoller
    rewritten = record p { pollfds = set_at i (ignorable (store a)) p.pollfds }

    rewritten_here : get_elem? rewritten.pollfds i ≡ some (ignorable (store a))
    rewritten_here =
        let (x, get_x, _) = entry_here in
        get_elem?-set_at i (ignorable (store a)) p.pollfds (get_elem?_bound p.pollfds i x get_x)

    rewrite-IsIndexed : IsIndexed rewritten store
    rewrite-IsIndexed = record { placed = placed'; owned = owned' }
      where
        placed' : (fd' b : ℕ) → p.channels fd' ≡ some b → Placed fd' b rewritten store
        placed' fd' b known_b =
            let (its_fd, (j, at_j, entry')) = inv.placed fd' b known_b in
            (
              its_fd,
              (
                j,
                at_j,
                (elim (ℕ_discrete j i) [
                  | yes same ↦ (
                    ignorable (store a),
                    ap (get_elem? rewritten.pollfds) same ∙ rewritten_here,
                    descriptor-ignorable (store a)
                        ∙ entry_unique p store inv i j fd fd' entry_here entry' (sym same),
                  )
                  | no other ↦
                      (let (x, get_x, of_x) = entry' in
                        (x, set_at_other i j (ignorable (store a)) p.pollfds other ∙ get_x, of_x))
                ]),
              ),
            )

        owned' :
            (j : ℕ) (x : PollFd)
            → get_elem? rewritten.pollfds j ≡ some x
            → (b : ℕ) × (p.channels (descriptor x.fd) ≡ some b) × ((store b).index ≡ some j)
        owned' j x e = elim (ℕ_discrete j i) [
          | yes same ↦
              (let g : some x ≡ some (ignorable (store a)) =
                  sym e ∙ ap (get_elem? rewritten.pollfds) same ∙ rewritten_here in
                let xy : x ≡ ignorable (store a) = some_entry g in
                (
                  a,
                  ap p.channels (ap (λ z. descriptor z.fd) xy ∙ descriptor-ignorable (store a))
                      ∙ is_known,
                  here ∙ ap some (sym same),
                ))
          | no other ↦
              inv.owned j x (sym (set_at_other i j (ignorable (store a)) p.pollfds other) ∙ e)
        ]

module _ (p : PollPoller) (store : ℕ → Channel) (a : ℕ) (inv : IsIndexed p store) where
  update_fresh :
      (store a).index ≡ none
      → p.channels (store a).fd ≡ none
      → Updated a p store (update_channel a p store)
  unfolding update_channel
  update_fresh is_fresh free =
      rw (is_fresh, free)
        (
          added p store inv a is_fresh free,
          set_index a (length p.pollfds) store,
          length p.pollfds,
          refl,
          add-IsIndexed p store inv a is_fresh free,
          put_at (store a).fd (some a) p.channels,
          told p store inv a is_fresh free,
          append_last p.pollfds (entry (store a)),
          λ n h. put_away (store a).fd n (some a) p.channels h,
        )

  update_known : p.channels (store a).fd ≡ some a → Updated a p store (update_channel a p store)
  unfolding update_channel
  update_known is_known =
      let (_, (i, here, (x, get_x, of_x))) = inv.placed (store a).fd a is_known in
      rw (here, is_known, ==_of_eq a a refl, get_x, ==_of_eq (descriptor x.fd) (store a).fd of_x)
        (
          rewritten p store inv a i is_known here (x, get_x, of_x),
          store,
          i,
          refl,
          rewrite-IsIndexed p store inv a i is_known here (x, get_x, of_x),
          is_known,
          here,
          rewritten_here p store inv a i is_known here (x, get_x, of_x)
              ∙ ap some (ignorable-written (store a) i),
          λ n h. refl,
        )

-- `updateChannel` of a channel that the poller knows, or of one with index -1 whose descriptor it does
-- not know, fails no assertion. The poller then knows the channel, and no other descriptor changed;
-- every known channel has its entry where its `index_` says, and the channel's own entry has its
-- events: ignored if it wants none, unless the channel was new.
pub update_channel-IsIndexed :
    (p : PollPoller) (store : ℕ → Channel) (a : ℕ)
    → IsIndexed p store
    → (((store a).index ≡ none) × (p.channels (store a).fd ≡ none))
      ⊎ (p.channels (store a).fd ≡ some a)
    → (p' : PollPoller) × (store' : ℕ → Channel) × (i : ℕ) × (update_channel a p store
        ≡ ok (p', store'))
      × IsIndexed p' store'
      × (p'.channels (store a).fd ≡ some a)
      × ((store' a).index ≡ some i)
      × (get_elem? p'.pollfds i ≡ some (written (store a)))
      × ((n : ℕ) → n ≢ (store a).fd → p'.channels n ≡ p.channels n)
update_channel-IsIndexed p store a inv (inl (is_fresh, free)) =
    update_fresh p store a inv is_fresh free
update_channel-IsIndexed p store a inv (inr is_known) = update_known p store a inv is_known
