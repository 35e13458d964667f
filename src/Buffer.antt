-- ===== src/Buffer.antt =====
-- muduo/net/Buffer.h and Buffer.cc: a byte buffer with a reader and a writer index into one vector.
-- A pointer into the buffer is its offset from `begin()`. An operation that asserts, or that may
-- make the vector longer than it can be, returns a `Result`.
pub mod Invariant
pub mod Append
pub mod Retrieve
pub mod Prepend
pub mod Search
pub mod Integers
pub mod ReadFd
pub mod Shrink
pub mod Indices
mod Tests
use my_cisdi_code.Prelude.{
  Bytes, Result, add_size, check, drop, fault, if◌then◌else◌, leb, length, length_error, ltb,
  max_size, ok, replicate, sub_size, take, ℕ, ◌++◌, ◌+◌, ◌-◌, ◌==◌, ◌>>=◌, ◌>>◌,
}

abbrev pub cheap_prepend : ℕ
cheap_prepend = 8

abbrev pub initial_size : ℕ
initial_size = 1024

pub record Buffer : Type 0 where
  pub buffer : Bytes
  pub reader_index : ℕ
  pub writer_index : ℕ

-- `buffer_(kCheapPrepend + initialSize)`: the vector is filled with zero bytes.
unfoldable pub init : ℕ → Result Buffer
init initial =
    let size = add_size cheap_prepend initial in
    if ltb max_size size
    then fault length_error
    else ok (record {
      buffer = replicate size 0;
      reader_index = cheap_prepend;
      writer_index = cheap_prepend;
    })

abbrev pub readable_bytes : Buffer → ℕ
readable_bytes b = sub_size b.writer_index b.reader_index

abbrev pub writable_bytes : Buffer → ℕ
writable_bytes b = sub_size (length b.buffer) b.writer_index

abbrev pub prependable_bytes : Buffer → ℕ
prependable_bytes b = b.reader_index

-- The bytes from `peek()` up to `beginWrite()`; the `int` that `toStringPiece` makes of their number is
-- left out, so this is the content of a buffer.
abbrev pub to_string_piece : Buffer → Bytes
to_string_piece b = take (readable_bytes b) (drop b.reader_index b.buffer)

-- `std::copy` of bytes to the place `i` of the vector.
abbrev pub copy_to : ℕ → Bytes → Bytes → Bytes
copy_to i bytes xs = take i xs ++ (bytes ++ drop (i + length bytes) xs)

-- `std::vector::resize`, which cuts the vector or fills it up with zero bytes.
abbrev pub resize : ℕ → Bytes → Bytes
resize n xs = take n xs ++ replicate (n - length xs) 0

abbrev pub retrieve_all : Buffer → Buffer
retrieve_all b = record b { reader_index = cheap_prepend; writer_index = cheap_prepend }

unfoldable pub retrieve : ℕ → Buffer → Result Buffer
retrieve len b = do
  check (leb len (readable_bytes b))
  ok (
      if ltb len (readable_bytes b)
      then record b { reader_index = add_size b.reader_index len }
      else retrieve_all b)

unfoldable pub retrieve_until : ℕ → Buffer → Result Buffer
retrieve_until end b = do
  check (leb b.reader_index end)
  check (leb end b.writer_index)
  retrieve (sub_size end b.reader_index) b

unfoldable pub retrieve_as_string : ℕ → Buffer → Result (Bytes × Buffer)
retrieve_as_string len b = do
  check (leb len (readable_bytes b))
  let result = take len (drop b.reader_index b.buffer)
  b' ← retrieve len b
  ok (result, b')

unfoldable pub retrieve_all_as_string : Buffer → Result (Bytes × Buffer)
retrieve_all_as_string b = retrieve_as_string (readable_bytes b) b

unfoldable pub make_space : ℕ → Buffer → Result Buffer
make_space len b =
    if ltb (add_size (writable_bytes b) (prependable_bytes b)) (add_size len cheap_prepend)
    then (if ltb max_size (add_size b.writer_index len)
        then fault length_error
        else ok (record b { buffer = resize (add_size b.writer_index len) b.buffer }))
    else do
      check (ltb cheap_prepend b.reader_index)
      let readable = readable_bytes b
      let moved = record b {
        buffer = copy_to cheap_prepend (to_string_piece b) b.buffer;
        reader_index = cheap_prepend;
        writer_index = add_size cheap_prepend readable;
      }
      check (readable == readable_bytes moved)
      ok moved

unfoldable pub ensure_writable_bytes : ℕ → Buffer → Result Buffer
ensure_writable_bytes len b = do
  b' ← if ltb (writable_bytes b) len then make_space len b else ok b
  check (leb len (writable_bytes b'))
  ok b'

unfoldable pub has_written : ℕ → Buffer → Result Buffer
has_written len b = do
  check (leb len (writable_bytes b))
  ok (record b { writer_index = add_size b.writer_index len })

unfoldable pub unwrite : ℕ → Buffer → Result Buffer
unwrite len b = do
  check (leb len (readable_bytes b))
  ok (record b { writer_index = sub_size b.writer_index len })

unfoldable pub append : Bytes → Buffer → Result Buffer
append bytes b = do
  b' ← ensure_writable_bytes (length bytes) b
  has_written (length bytes) (record b' { buffer = copy_to b'.writer_index bytes b'.buffer })

unfoldable pub prepend : Bytes → Buffer → Result Buffer
prepend bytes b = do
  check (leb (length bytes) (prependable_bytes b))
  let start = sub_size b.reader_index (length bytes)
  ok (record b { reader_index = start; buffer = copy_to start bytes b.buffer })

-- `other` after the swap; the old vector goes with the temporary.
unfoldable pub shrink : ℕ → Buffer → Result Buffer
shrink reserve b = do
  other ← init initial_size
  roomy ← ensure_writable_bytes (add_size (readable_bytes b) reserve) other
  append (to_string_piece b) roomy
