-- ===== src/AsyncLogging/Swapping.antt =====
-- The critical section of the writing thread.
use my_cisdi_code.Prelude.{
  Option, Option-cases, Result, [], ap, arith, inl, inr, length, length-append, none, ok, refl,
  some, subst, suc, sym, true, ◌++◌, ◌∙◌, ◌∷◌, ◌≡◌, ◌≤◌, ◌⊎◌,
}
use my_cisdi_code.LogStream.{FixedBuffer}
use my_cisdi_code.AsyncLogging.{AsyncLogging, contents, is_fresh, swap_buffers}
use my_cisdi_code.AsyncLogging.Ready.{
  AllLarge, AllLarge-append, IsFresh, IsShared, NextFits, contents-append, pending,
}
use mathlib.Core.List.{append-nil}

abbrev pub HasFresh : Option FixedBuffer → Type 0
HasFresh o = (b : FixedBuffer) × (o ≡ some b) × IsFresh b

-- At the start of a round.
pub record IsReady (l : AsyncLogging) : Type 0 where
  pub shared : IsShared l
  pub first : HasFresh l.new_buffer1
  pub second : HasFresh l.new_buffer2
  pub idle : l.buffers_to_write ≡ []

-- After the critical section: if the second new buffer was used, another one was filled.
pub record IsWriting (l : AsyncLogging) : Type 0 where
  pub shared : IsShared l
  pub first : l.new_buffer1 ≡ none
  pub second : HasFresh l.new_buffer2 ⊎ ((l.new_buffer2 ≡ none) × (2 ≤ length l.buffers_to_write))
  pub taken : 1 ≤ length l.buffers_to_write
  pub taken_large : AllLarge l.buffers_to_write

is_fresh-true : (b : FixedBuffer) → IsFresh b → is_fresh (some b) ≡ true
is_fresh-true b (empty, large) = rw empty refl

abbrev pub Swapped : AsyncLogging → Result AsyncLogging → Type 0
Swapped l r =
    (l' : AsyncLogging) × (r ≡ ok l')
    × IsWriting l'
    × (contents l'.buffers_to_write ≡ pending l)
    × (length l'.buffers_to_write ≡ suc (length l.buffers))
    × (pending l' ≡ [])
    × (l'.output ≡ l.output)

module _ (l : AsyncLogging) (ready : IsReady l) where
  taken_contents : contents (l.buffers ++ (l.current_buffer ∷ [])) ≡ pending l
  taken_contents =
      contents-append l.buffers (l.current_buffer ∷ [])
      ∙ ap (λ x. contents l.buffers ++ x) (append-nil l.current_buffer.content)

  taken_length : length (l.buffers ++ (l.current_buffer ∷ [])) ≡ suc (length l.buffers)
  taken_length = omega (arith, length-append l.buffers (l.current_buffer ∷ []))

  taken_all : AllLarge (l.buffers ++ (l.current_buffer ∷ []))
  taken_all =
      AllLarge-append l.buffers (l.current_buffer ∷ []) ready.shared.buffers_large
        (ready.shared.current_large, tt)

  pub swap_buffers-Swapped : Swapped l (swap_buffers l)
  unfolding swap_buffers
  swap_buffers-Swapped =
      let (b, e1, fresh) = ready.first in
      let (c, e2, fresh2) = ready.second in
      elim (Option-cases l.next_buffer) [
        | inl empty ↦
            let filled : 1 ≤ length l.buffers =
              subst (λ o. NextFits o l.buffers) empty ready.shared.next_fits in
            rw (e1, is_fresh-true b fresh, e2, is_fresh-true c fresh2, ready.idle, empty)
              (
                record l {
                  current_buffer = b;
                  next_buffer = l.new_buffer2;
                  buffers = [];
                  new_buffer1 = none;
                  new_buffer2 = none;
                  buffers_to_write = l.buffers ++ (l.current_buffer ∷ []);
                },
                refl,
                record {
                  shared = record {
                    current_large = fresh.1;
                    next_fits = subst (λ o. NextFits o []) (sym e2) fresh2;
                    buffers_large = tt;
                  };
                  first = refl;
                  second = inr (refl, (let n = taken_length in omega arith));
                  taken = (let n = taken_length in omega arith);
                  taken_large = taken_all;
                },
                taken_contents,
                taken_length,
                fresh.0,
                refl,
              )
        | inr (n, full) ↦
            let next_fresh : IsFresh n =
              subst (λ o. NextFits o l.buffers) full ready.shared.next_fits in
            rw (e1, is_fresh-true b fresh, e2, is_fresh-true c fresh2, ready.idle, full)
              (
                record l {
                  current_buffer = b;
                  next_buffer = some n;
                  buffers = [];
                  new_buffer1 = none;
                  buffers_to_write = l.buffers ++ (l.current_buffer ∷ []);
                },
                refl,
                record {
                  shared = record {
                    current_large = fresh.1;
                    next_fits = next_fresh;
                    buffers_large = tt;
                  };
                  first = refl;
                  second = inl (c, e2, fresh2);
                  taken = (let n = taken_length in omega arith);
                  taken_large = taken_all;
                },
                taken_contents,
                taken_length,
                fresh.0,
                refl,
              )
      ]
