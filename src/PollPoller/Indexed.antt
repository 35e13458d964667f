-- ===== src/PollPoller/Indexed.antt =====
-- Each channel knows its place in the array, also when entries move.
use my_cisdi_code.Prelude.{
  ==_of_eq, List, Option, ap, arith, false, get_elem?, none, refl, some, sym, ℕ, ℕ_discrete, ◌==◌,
  ◌∙◌, ◌≡◌, ◌≢◌,
}
use my_cisdi_code.Channel.{Channel}
use my_cisdi_code.PollPoller.{PollFd, PollPoller, descriptor, entry, set_index}
use my_cisdi_code.EPollPoller.{put}

-- The entry at `i` is of the descriptor `fd`.
abbrev pub EntryAt : ℕ → ℕ → List PollFd → Type 0
EntryAt i fd xs = (x : PollFd) × (get_elem? xs i ≡ some x) × (descriptor x.fd ≡ fd)

abbrev pub Position : ℕ → ℕ → PollPoller → (ℕ → Channel) → Type 0
Position fd a p store = (i : ℕ) × ((store a).index ≡ some i) × EntryAt i fd p.pollfds

abbrev pub Placed : ℕ → ℕ → PollPoller → (ℕ → Channel) → Type 0
Placed fd a p store = ((store a).fd ≡ fd) × Position fd a p store

-- The poller's two tables and the indices agree: a channel of `channels_` has its entry where its index
-- says, and an entry has its channel in `channels_`.
pub record IsIndexed (p : PollPoller) (store : ℕ → Channel) : Type 0 where
  pub placed : (fd a : ℕ) → p.channels fd ≡ some a → Placed fd a p store
  pub owned :
      (i : ℕ) (x : PollFd)
      → get_elem? p.pollfds i ≡ some x
      → (a : ℕ) × (p.channels (descriptor x.fd) ≡ some a) × ((store a).index ≡ some i)

pub some_inj : {a b : ℕ} → some a ≡ some b → a ≡ b
some_inj e = cc

pub none-some : {a : ℕ} → none ≢ some a
none-some e = absurd (cc)

pub put_at : (fd : ℕ) (o : Option ℕ) (f : ℕ → Option ℕ) → put fd o f fd ≡ o
put_at fd o f = rw (==_of_eq fd fd refl) refl

pub ==_of_ne : (a b : ℕ) → a ≢ b → (a == b) ≡ false
==_of_ne a b h = ground arith

pub put_away : (fd n : ℕ) (o : Option ℕ) (f : ℕ → Option ℕ) → n ≢ fd → put fd o f n ≡ f n
put_away fd n o f h = rw (==_of_ne n fd h) refl

-- What is left in a table after an erase was there before, under another key.
pub put-none :
    (fd n a : ℕ) (f : ℕ → Option ℕ) → put fd none f n ≡ some a → (n ≢ fd) × (f n ≡ some a)
put-none fd n a f e = elim (ℕ_discrete n fd) [
  | yes same ↦ absurd (none-some (sym (put_at fd none f) ∙ ap (put fd none f) (sym same) ∙ e))
  | no other ↦ (other, sym (put_away fd n none f other) ∙ e)
]

pub set_index_at :
    (a i : ℕ) (store : ℕ → Channel) → set_index a i store a ≡ record (store a) { index = some i }
set_index_at a i store = rw (==_of_eq a a refl) refl

pub set_index_away : (a i n : ℕ) (store : ℕ → Channel) → n ≢ a → set_index a i store n ≡ store n
set_index_away a i n store h = rw (==_of_ne n a h) refl

pub set_index-fd : (a i n : ℕ) (store : ℕ → Channel) → (set_index a i store n).fd ≡ (store n).fd
set_index-fd a i n store = elim (ℕ_discrete n a) [
  | yes same ↦ rw (==_of_eq n a same) refl
  | no other ↦ rw (==_of_ne n a other) refl
]

module _ (p : PollPoller) (store : ℕ → Channel) (inv : IsIndexed p store) where
  pub entry_unique :
      (i j fd fd' : ℕ) → EntryAt i fd p.pollfds → EntryAt j fd' p.pollfds → i ≡ j → fd ≡ fd'
  entry_unique i j fd fd' (x, e, o) (y, f, o') same =
      let g : some x ≡ some y = sym e ∙ ap (get_elem? p.pollfds) same ∙ f in
      let h : x ≡ y = cc in sym o ∙ ap (λ z. descriptor z.fd) h ∙ o'

  -- Of a channel `a` of descriptor `fd` at `i`: the others are elsewhere.
  module _ (fd a i : ℕ) (is_known : p.channels fd ≡ some a) (here : (store a).index ≡ some i) where
    pub owned_away :
        (j : ℕ) (x : PollFd)
        → j ≢ i
        → get_elem? p.pollfds j ≡ some x
        → (b : ℕ) × (put fd none p.channels (descriptor x.fd) ≡ some b)
          × (p.channels (descriptor x.fd) ≡ some b)
          × ((store b).index ≡ some j)
    owned_away j x away e =
        let (b, known_b, at_j) = inv.owned j x e in
        let other : descriptor x.fd ≢ fd = λ same.
          let ab : a ≡ b = some_inj (sym is_known ∙ ap p.channels (sym same) ∙ known_b) in
          away (some_inj (sym at_j ∙ ap (λ n. (store n).index) (sym ab) ∙ here)) in
        (b, put_away fd _ none p.channels other ∙ known_b, known_b, at_j)

    pub placed_away :
        EntryAt i fd p.pollfds
        → (fd' b : ℕ) → put fd none p.channels fd' ≡ some b
        → ((store b).fd ≡ fd')
          × (p.channels fd' ≡ some b)
          × (j : ℕ) × (j ≢ i)
          × ((store b).index ≡ some j)
          × EntryAt j fd' p.pollfds
    placed_away entry fd' b e =
        let (other, known_b) = put-none fd fd' b p.channels e in
        let (its_fd, (j, at_j, entry')) = inv.placed fd' b known_b in
        (
          its_fd,
          known_b,
          j,
          (λ same. other (entry_unique j i fd' fd entry' entry same)),
          at_j,
          entry',
        )
