-- ===== src/AsyncLogging.antt =====
-- muduo/base/AsyncLogging.h and AsyncLogging.cc: threads append lines to buffers under a lock, and one
-- thread takes the buffers and writes them to a file. The buffers are those of LogStream, of 4,000,000
-- bytes. What `output.append` is given is collected in `output`; the file itself is left to LogFile.
pub mod Ready
pub mod Swapping
pub mod Writing
pub mod Rounds
mod Tests
use my_cisdi_code.Prelude.{
  Bool, Bytes, List, Option, Result, [], assertion_failed, check, false, fault, if◌then◌else◌,
  length, ltb, none, not, ok, some, take, true, ℕ, ◌*◌, ◌++◌, ◌==◌, ◌>>=◌, ◌>>◌, ◌∷◌,
}
use my_cisdi_code.LogStream.{FixedBuffer, append, avail, new_buffer, reset}

abbrev pub large_buffer : ℕ
large_buffer = 4000 * 1000

pub record AsyncLogging : Type 0 where
  -- Guarded by `mutex_`; a null pointer is `none`. `currentBuffer_` is null only inside a critical section.
  pub current_buffer : FixedBuffer
  pub next_buffer : Option FixedBuffer
  pub buffers : List FixedBuffer
  -- The locals of `threadFunc`.
  pub new_buffer1 : Option FixedBuffer
  pub new_buffer2 : Option FixedBuffer
  pub buffers_to_write : List FixedBuffer
  pub output : Bytes

-- The constructor, and the locals when the loop of `threadFunc` starts.
abbrev pub new_logging : AsyncLogging
new_logging = record {
  current_buffer = new_buffer large_buffer;
  next_buffer = some (new_buffer large_buffer);
  buffers = [];
  new_buffer1 = some (new_buffer large_buffer);
  new_buffer2 = some (new_buffer large_buffer);
  buffers_to_write = [];
  output = [];
}

-- `if (nextBuffer_)`: the pointer that is moved, or a new buffer.
abbrev pub or_new : Option FixedBuffer → FixedBuffer
or_new none = new_buffer large_buffer
or_new (some b) = b

unfoldable pub append_line : Bytes → AsyncLogging → AsyncLogging
append_line line l =
    if ltb (length line) (avail l.current_buffer)
    then record l { current_buffer = append line l.current_buffer }
    else record l {
      current_buffer = append line (or_new l.next_buffer);
      next_buffer = none;
      buffers = l.buffers ++ (l.current_buffer ∷ []);
    }

abbrev pub is_fresh : Option FixedBuffer → Bool
is_fresh none = false
is_fresh (some b) = length b.content == 0

abbrev pub is_empty : List FixedBuffer → Bool
is_empty [] = true
is_empty (b ∷ bs) = false

-- The critical section: `newBuffer1` becomes the current buffer, and `newBuffer2` the next one if there
-- is none. Both have just been asserted not to be null.
abbrev pub exchange : Option FixedBuffer → AsyncLogging → Result AsyncLogging
exchange none l = fault assertion_failed
exchange (some b) l = ok (record l {
  buffers_to_write = l.buffers ++ (l.current_buffer ∷ []);
  buffers = l.buffers_to_write;
  current_buffer = b;
  new_buffer1 = none;
  next_buffer = elim l.next_buffer [ none ↦ l.new_buffer2 | some next ↦ some next ];
  new_buffer2 = elim l.next_buffer [ none ↦ none | some next ↦ l.new_buffer2 ];
})

-- A round of the loop, until the lock is given up.
unfoldable pub swap_buffers : AsyncLogging → Result AsyncLogging
swap_buffers l = do
  check (is_fresh l.new_buffer1)
  check (is_fresh l.new_buffer2)
  check (is_empty l.buffers_to_write)
  exchange l.new_buffer1 l

abbrev pub contents : List FixedBuffer → Bytes
contents [] = []
contents (b ∷ bs) = b.content ++ contents bs

-- `back()` and the list after `pop_back()`.
abbrev pub split_back : List FixedBuffer → Option (FixedBuffer × List FixedBuffer)
split_back [] = none
split_back (b ∷ []) = some (b, [])
split_back (b ∷ c ∷ bs) = elim (split_back (c ∷ bs)) [
  | none ↦ none
  | some (last, front) ↦ some (last, b ∷ front)
]

-- `if (!newBuffer)`: the last buffer written is used again.
abbrev pub refill :
    Option FixedBuffer → List FixedBuffer → Result (Option FixedBuffer × List FixedBuffer)
refill (some b) bs = ok (some b, bs)
refill none bs = elim (split_back bs) [
  | none ↦ fault assertion_failed
  | some (last, front) ↦ ok (some (reset last), front)
]

-- More than 25 buffers are cut down to two, and a message is written before them.
abbrev pub drop_excess : Bytes → AsyncLogging → AsyncLogging
drop_excess message l =
    if ltb 25 (length l.buffers_to_write)
    then record l { output = l.output ++ message; buffers_to_write = take 2 l.buffers_to_write }
    else l

abbrev pub reuse : AsyncLogging → Result AsyncLogging
reuse l = do
  (first, left) ← refill l.new_buffer1 (take 2 l.buffers_to_write)
  (second, rest) ← refill l.new_buffer2 left
  ok (record l { new_buffer1 = first; new_buffer2 = second; buffers_to_write = [] })

abbrev pub write_all : AsyncLogging → AsyncLogging
write_all l = record l { output = l.output ++ contents l.buffers_to_write }

-- The rest of the round, without the lock.
unfoldable pub write_buffers : Bytes → AsyncLogging → Result AsyncLogging
write_buffers message l = do
  check (not (is_empty l.buffers_to_write))
  reuse (write_all (drop_excess message l))

unfoldable pub append_lines : List Bytes → AsyncLogging → AsyncLogging
unfolding append_line
append_lines [] l = l
append_lines (line ∷ lines) l = append_lines lines (append_line line l)

-- A round, with the lines that other threads append before the lock is taken and while it is not held.
unfoldable pub round : List Bytes → List Bytes → Bytes → AsyncLogging → Result AsyncLogging
unfolding append_lines swap_buffers write_buffers
round earlier meanwhile message l = do
  l' ← swap_buffers (append_lines earlier l)
  write_buffers message (append_lines meanwhile l')
