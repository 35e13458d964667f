-- ===== src/AsyncLogging/Writing.antt =====
-- What the writing thread does with the buffers that it took.
use my_cisdi_code.Prelude.{
  Bool-cases, Bytes, List, Result, [], arith, false, if◌then◌else◌, inl, inr, length, length-take,
  ltb, ltb→lt, none, ok, refl, some, suc, take, zero, ℕ, ◌++◌, ◌∙◌, ◌∷◌, ◌≡◌, ◌≤◌, ◌⊎◌,
}
use my_cisdi_code.LogStream.{FixedBuffer, reset}
use my_cisdi_code.AsyncLogging.{
  AsyncLogging, contents, is_empty, large_buffer, reuse, write_buffers,
}
use my_cisdi_code.AsyncLogging.Ready.{AllLarge, IsFresh, IsShared, pending}
use my_cisdi_code.AsyncLogging.Swapping.{HasFresh, IsReady, IsWriting}
use mathlib.Core.List.{append_assoc}

reset-IsFresh : (b : FixedBuffer) → b.size ≡ large_buffer → IsFresh (reset b)
reset-IsFresh b large = (refl, large)

-- There are enough written buffers to use again.
abbrev Reused : AsyncLogging → Result AsyncLogging → Type 0
Reused l r =
    (f : FixedBuffer) × (s : FixedBuffer) × (r
      ≡ ok (record l { new_buffer1 = some f; new_buffer2 = some s; buffers_to_write = [] }))
    × IsFresh f
    × IsFresh s

reuse-Reused :
    (l : AsyncLogging) (bs : List FixedBuffer)
    → l.buffers_to_write ≡ bs
    → 1 ≤ length bs
    → AllLarge bs
    → l.new_buffer1 ≡ none
    → HasFresh l.new_buffer2 ⊎ ((l.new_buffer2 ≡ none) × (2 ≤ length bs))
    → Reused l (reuse l)
reuse-Reused l [] e h large first second = absurd (omega arith)
reuse-Reused l (b ∷ []) e h large first (inl (s, second, fresh)) =
    rw (e, first, second) (reset b, s, refl, reset-IsFresh b large.0, fresh)
reuse-Reused l (b ∷ []) e h large first (inr (second, two)) = absurd (omega arith)
reuse-Reused l (b ∷ c ∷ bs) e h large first (inl (s, second, fresh)) =
    rw (e, first, second) (reset c, s, refl, reset-IsFresh c large.1.0, fresh)
reuse-Reused l (b ∷ c ∷ bs) e h large first (inr (second, two)) =
    rw (e, first, second)
      (reset c, reset b, refl, reset-IsFresh c large.1.0, reset-IsFresh b large.0)

AllLarge-take : (n : ℕ) (bs : List FixedBuffer) → AllLarge bs → AllLarge (take n bs)
AllLarge-take zero bs h = tt
AllLarge-take (suc n) [] h = tt
AllLarge-take (suc n) (b ∷ bs) h = (h.0, AllLarge-take n bs h.1)

not_empty : (bs : List FixedBuffer) → 1 ≤ length bs → is_empty bs ≡ false
not_empty [] h = absurd (omega arith)
not_empty (b ∷ bs) h = refl

-- What reaches the file: all buffers, or a message and two of them where there are more than 25.
abbrev pub written : Bytes → List FixedBuffer → Bytes
written message bs = if ltb 25 (length bs) then message ++ contents (take 2 bs) else contents bs

abbrev pub Wrote : Bytes → AsyncLogging → Result AsyncLogging → Type 0
Wrote message l r =
    (l' : AsyncLogging) × (r ≡ ok l')
    × IsReady l'
    × (l'.output ≡ l.output ++ written message l.buffers_to_write)
    × (pending l' ≡ pending l)

-- The end of a round, once the buffers `bs` to write are settled.
finish :
    (l : AsyncLogging) (bs : List FixedBuffer)
    → IsShared l
    → l.buffers_to_write ≡ bs
    → 1 ≤ length bs
    → AllLarge bs
    → l.new_buffer1 ≡ none
    → HasFresh l.new_buffer2 ⊎ ((l.new_buffer2 ≡ none) × (2 ≤ length bs))
    → (l' : AsyncLogging) × (reuse l ≡ ok l')
      × IsReady l'
      × (l'.output ≡ l.output)
      × (pending l' ≡ pending l)
finish l bs shared e h large first second =
    let (f, s, done, fresh1, fresh2) = reuse-Reused l bs e h large first second in
    (
      record l { new_buffer1 = some f; new_buffer2 = some s; buffers_to_write = [] },
      done,
      record {
        shared = record {
          current_large = shared.current_large;
          next_fits = shared.next_fits;
          buffers_large = shared.buffers_large;
        };
        first = (f, refl, fresh1);
        second = (s, refl, fresh2);
        idle = refl;
      },
      refl,
      refl,
    )

module _ (message : Bytes) (l : AsyncLogging) (writing : IsWriting l) where
  abbrev all : List FixedBuffer
  all = l.buffers_to_write

  abbrev same_shared :
      (output : Bytes) (bs : List FixedBuffer)
      → IsShared (record l { output = output; buffers_to_write = bs })
  same_shared output bs = record {
    current_large = writing.shared.current_large;
    next_fits = writing.shared.next_fits;
    buffers_large = writing.shared.buffers_large;
  }

  pub write_buffers-Wrote : Wrote message l (write_buffers message l)
  unfolding write_buffers
  write_buffers-Wrote = elim (Bool-cases (ltb 25 (length all))) [
    | inl many ↦
        let more = ltb→lt 25 (length all) many in
        let two : length (take 2 all) ≡ 2 = omega (arith, length-take 2 all) in
        let output = (l.output ++ message) ++ contents (take 2 all) in
        let (l', done, ready, out, same) =
          finish (record l { output = output; buffers_to_write = take 2 all }) (take 2 all)
            (same_shared output (take 2 all)) refl (omega arith)
            (AllLarge-take 2 all writing.taken_large) writing.first
            (keep writing.second (omega arith)) in
        rw (not_empty all writing.taken, many)
          (l', done, ready, out ∙ append_assoc l.output message (contents (take 2 all)), same)
    | inr few ↦
        let output = l.output ++ contents all in
        let (l', done, ready, out, same) =
          finish (record l { output = output }) all (same_shared output all) refl writing.taken
            writing.taken_large writing.first writing.second in
        rw (not_empty all writing.taken, few) (l', done, ready, out, same)
  ]
    where
      keep :
          {n : ℕ}
          → HasFresh l.new_buffer2 ⊎ ((l.new_buffer2 ≡ none) × (2 ≤ length all))
          → 2 ≤ n
          → HasFresh l.new_buffer2 ⊎ ((l.new_buffer2 ≡ none) × (2 ≤ n))
      keep (inl fresh) h = inl fresh
      keep (inr (none_left, k)) h = inr (none_left, h)
