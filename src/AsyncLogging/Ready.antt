-- ===== src/AsyncLogging/Ready.antt =====
-- What the buffers that the threads share hold, and that no line is lost by `append`.
use my_cisdi_code.Prelude.{
  Bool-cases, Bytes, List, Option, [], ap, arith, if◌then◌else◌, inl, inr, length, length-append,
  ltb, ltb→lt, lt→ltb, none, refl, some, sym, true, ◌++◌, ◌-◌, ◌∙◌, ◌∷◌, ◌≡◌, ◌≤◌,
}
use my_cisdi_code.LogStream.{FixedBuffer, append, avail}
use my_cisdi_code.AsyncLogging.{
  AsyncLogging, append_line, append_lines, contents, large_buffer, or_new,
}
use mathlib.Core.List.{append_assoc, append-nil}

abbrev pub IsFresh : FixedBuffer → Type 0
IsFresh b = (b.content ≡ []) × (b.size ≡ large_buffer)

abbrev pub AllLarge : List FixedBuffer → Type 0
AllLarge [] = Unit {0}
AllLarge (b ∷ bs) = (b.size ≡ large_buffer) × AllLarge bs

-- Without a next buffer some buffer was filled.
abbrev pub NextFits : Option FixedBuffer → List FixedBuffer → Type 0
NextFits none bs = 1 ≤ length bs
NextFits (some b) bs = IsFresh b

pub record IsShared (l : AsyncLogging) : Type 0 where
  pub current_large : l.current_buffer.size ≡ large_buffer
  pub next_fits : NextFits l.next_buffer l.buffers
  pub buffers_large : AllLarge l.buffers

-- What was appended and not yet taken.
abbrev pub pending : AsyncLogging → Bytes
pending l = contents l.buffers ++ l.current_buffer.content

-- A line of 4,000,000 bytes or more fits no buffer and is dropped.
abbrev pub accept : Bytes → Bytes
accept line = if ltb (length line) large_buffer then line else []

abbrev pub accepted : List Bytes → Bytes
accepted [] = []
accepted (line ∷ lines) = accept line ++ accepted lines

-- `append` leaves the locals of the writing thread alone.
abbrev pub SameLocals : AsyncLogging → AsyncLogging → Type 0
SameLocals l l' =
    (l'.new_buffer1 ≡ l.new_buffer1)
    × (l'.new_buffer2 ≡ l.new_buffer2)
    × (l'.buffers_to_write ≡ l.buffers_to_write)
    × (l'.output ≡ l.output)

pub contents-append : (bs cs : List FixedBuffer) → contents (bs ++ cs) ≡ contents bs ++ contents cs
contents-append [] cs = refl
contents-append (b ∷ bs) cs =
    rw (contents-append bs cs) (sym (append_assoc b.content (contents bs) (contents cs)))

pub AllLarge-append : (bs cs : List FixedBuffer) → AllLarge bs → AllLarge cs → AllLarge (bs ++ cs)
AllLarge-append [] cs h k = k
AllLarge-append (b ∷ bs) cs h k = (h.0, AllLarge-append bs cs h.1 k)

or_new-IsFresh :
    (o : Option FixedBuffer) (bs : List FixedBuffer) → NextFits o bs → IsFresh (or_new o)
or_new-IsFresh none bs h = (refl, refl)
or_new-IsFresh (some b) bs h = h

append_fits :
    (line : Bytes) (b : FixedBuffer)
    → ltb (length line) (avail b) ≡ true
    → append line b ≡ record b { content = b.content ++ line }
unfolding append
append_fits line b fits = rw fits refl

append_fresh :
    (line : Bytes) (b : FixedBuffer)
    → IsFresh b
    → ((append line b).content ≡ accept line) × ((append line b).size ≡ large_buffer)
unfolding append
append_fresh line b (empty, large) =
    let room : avail b ≡ large_buffer =
      ap (λ xs. b.size - length xs) empty ∙ ap (λ n. n - 0) large ∙ (omega arith) in
    elim (Bool-cases (ltb (length line) large_buffer)) [
      | inl short ↦ rw (room, short) (ap (λ xs. xs ++ line) empty, large)
      | inr long ↦ rw (room, long) (empty, large)
    ]

accept_short :
    (line : Bytes) (b : FixedBuffer)
    → b.size ≡ large_buffer
    → ltb (length line) (avail b) ≡ true
    → accept line ≡ line
accept_short line b large fits =
    let k = ltb→lt (length line) (avail b) fits in
    let short = lt→ltb (length line) large_buffer (omega arith) in rw short refl

join : (a b c d : Bytes) → d ≡ c → a ++ (b ++ c) ≡ (a ++ b) ++ (d ++ [])
join a b c d e = sym (append_assoc a b c) ∙ ap (λ x. (a ++ b) ++ x) (sym (append-nil d ∙ e))

module _ (line : Bytes) (l : AsyncLogging) (shared : IsShared l) where
  append_line-IsShared :
      IsShared (append_line line l)
      × SameLocals l (append_line line l)
      × (pending (append_line line l) ≡ pending l ++ (accept line ++ []))
  unfolding append_line
  append_line-IsShared = elim (Bool-cases (ltb (length line) (avail l.current_buffer))) [
    | inl fits ↦
        rw (fits, append_fits line l.current_buffer fits)
          (
            record {
              current_large = shared.current_large;
              next_fits = shared.next_fits;
              buffers_large = shared.buffers_large;
            },
            (refl, refl, refl, refl),
            join (contents l.buffers) l.current_buffer.content line (accept line)
                (accept_short line l.current_buffer shared.current_large fits),
          )
    | inr full ↦
        let (fresh, large) =
          append_fresh line (or_new l.next_buffer)
            (or_new-IsFresh l.next_buffer l.buffers shared.next_fits) in
        rw full (
          record {
            current_large = large;
            next_fits = (rw (length-append l.buffers (l.current_buffer ∷ [])) (omega arith));
            buffers_large =
                AllLarge-append l.buffers (l.current_buffer ∷ []) shared.buffers_large
                  (shared.current_large, tt);
          },
          (refl, refl, refl, refl),
          rw (contents-append l.buffers (l.current_buffer ∷ []), fresh)
              (rw (append-nil l.current_buffer.content, append-nil (accept line)) refl),
        )
  ]

-- The lines that threads append are pending afterwards, in order, behind what was pending.
pub append_lines-IsShared :
    (lines : List Bytes) (l : AsyncLogging)
    → IsShared l
    → IsShared (append_lines lines l)
      × SameLocals l (append_lines lines l)
      × (pending (append_lines lines l) ≡ pending l ++ accepted lines)
unfolding append_lines
append_lines-IsShared [] l shared = (shared, (refl, refl, refl, refl), sym (append-nil (pending l)))
append_lines-IsShared (line ∷ lines) l shared =
    let (shared1, (a1, b1, c1, d1), e1) = append_line-IsShared line l shared in
    let (shared2, (a2, b2, c2, d2), e2) =
      append_lines-IsShared lines (append_line line l) shared1 in
    (
      shared2,
      (a2 ∙ a1, b2 ∙ b1, c2 ∙ c1, d2 ∙ d1),
      e2
          ∙ ap (λ x. x ++ accepted lines) e1
          ∙ ap (λ x. (pending l ++ x) ++ accepted lines) (append-nil (accept line))
          ∙ append_assoc (pending l) (accept line) (accepted lines),
    )
