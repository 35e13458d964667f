-- ===== src/Buffer/ReadFd.antt =====
-- `Buffer::readFd` of muduo/net/Buffer.cc, and `shrink`. `readv` belongs to the kernel: it is a
-- parameter, which from the number of bytes offered gives an errno or the bytes received.
use mathlib.Core.List.{append_assoc}
use my_cisdi_code.Prelude.{
  Bytes, Result, add_size, ap, arith, dec_le, drop, if◌then◌else◌, leb, leb-false, length,
  length-drop, length-take, le→leb, ltb, max_size, ok, take, take-append-drop, take_all, ℕ, ◌++◌,
  ◌+◌, ◌-◌, ◌<◌, ◌>>=◌, ◌∙◌, ◌≡◌, ◌≤◌,
}
use my_cisdi_code.Buffer.{Buffer, append, copy_to, to_string_piece, writable_bytes}
use my_cisdi_code.Buffer.Append.{append_lem, written, written-content}
use my_cisdi_code.Buffer.Invariant.{IsValid, length-copy_to, writable_bytes_lem}

pub data Received : Type 0 where
  failed : ℕ → Received
  got : Bytes → Received

-- `sizeof extrabuf`
abbrev pub extra_size : ℕ
extra_size = 65536

-- The bytes offered to `readv`: the writable ones, and `extrabuf` unless there are enough.
abbrev pub offered : Buffer → ℕ
offered b =
    if ltb (writable_bytes b) extra_size then writable_bytes b + extra_size else writable_bytes b

-- What `readFd` returns: the count, or -1 with the saved errno.
pub data Count : Type 0 where
  error : ℕ → Count
  count : ℕ → Count

-- `readv` fills the writable bytes first, and then `extrabuf`.
store_received : Bytes → Buffer → Result (Count × Buffer)
store_received bytes b =
    let writable = writable_bytes b in
    let n = length bytes in
    let filled = record b { buffer = copy_to b.writer_index (take writable bytes) b.buffer } in
    if leb n writable
    then ok (count n, record filled { writer_index = add_size b.writer_index n })
    else do
      b' ← append (drop writable bytes) (record filled { writer_index = length filled.buffer })
      ok (count n, b')

finish_read : Received → Buffer → Result (Count × Buffer)
unfolding store_received
finish_read (failed errno) b = ok (error errno, b)
finish_read (got bytes) b = store_received bytes b

pub read_fd : (ℕ → Received) → Buffer → Result (Count × Buffer)
unfolding finish_read
read_fd readv b = finish_read (readv (offered b)) b

-- A failed read leaves the buffer alone.
pub read_fd-failed :
    (readv : ℕ → Received) (b : Buffer) (errno : ℕ)
    → readv (offered b) ≡ failed errno
    → read_fd readv b ≡ ok (error errno, b)
unfolding read_fd
read_fd-failed readv b errno e = rw e

read_fits :
    (readv : ℕ → Received) (b : Buffer) (bytes : Bytes)
    → IsValid b
    → readv (offered b) ≡ got bytes
    → length bytes ≤ writable_bytes b
    → read_fd readv b ≡ ok (count (length bytes), written bytes b)
unfolding read_fd
read_fits readv b bytes v e h =
    let n : add_size b.writer_index (length bytes) ≡ b.writer_index + length bytes =
      omega (arith, v.bounded, v.small) in
    rw (e, le→leb _ _ h, take_all (writable_bytes b) bytes h, n)

read_overflows :
    (readv : ℕ → Received) (b b' : Buffer) (bytes : Bytes)
    → readv (offered b) ≡ got bytes
    → writable_bytes b < length bytes
    → b.writer_index + length (take (writable_bytes b) bytes)
      ≡ length (copy_to b.writer_index (take (writable_bytes b) bytes) b.buffer)
    → append (drop (writable_bytes b) bytes) (written (take (writable_bytes b) bytes) b) ≡ ok b'
    → read_fd readv b ≡ ok (count (length bytes), b')
unfolding read_fd
read_overflows readv b b' bytes e h full a = rw (e, leb-false _ _ h, ← full, a)

-- A read keeps the invariant, returns the number of the bytes received, and adds them all to the end
-- of the content, whether or not they fit the writable bytes.
pub read_fd_lem :
    (readv : ℕ → Received) (b : Buffer) (bytes : Bytes)
    → IsValid b
    → readv (offered b) ≡ got bytes
    → length b.buffer + length bytes ≤ max_size
    → (b' : Buffer) × (read_fd readv b ≡ ok (count (length bytes), b'))
      × IsValid b'
      × (to_string_piece b' ≡ to_string_piece b ++ bytes)
read_fd_lem readv b bytes v e small = elim (dec_le (length bytes) (writable_bytes b)) [
  | yes inside ↦
      let (valid, content) = written-content bytes b v (omega (arith, v.bounded, v.small)) in
      (written bytes b, read_fits readv b bytes v e inside, valid, content)
  | no over ↦
      let here = take (writable_bytes b) bytes in
      let beyond = drop (writable_bytes b) bytes in
      let m : writable_bytes b ≡ length b.buffer - b.writer_index = writable_bytes_lem b v in
      let n : length here ≡ writable_bytes b =
        omega (arith, length-take (writable_bytes b) bytes) in
      let k : length beyond ≡ length bytes - writable_bytes b =
        length-drop (writable_bytes b) bytes in
      let fits : b.writer_index + length here ≤ length b.buffer = omega (arith, v.bounded, m, n) in
      let (v₁, c₁) = written-content here b v fits in
      let (b', a, v₂, c₂) =
        append_lem beyond (written here b) v₁ (omega (arith, v.bounded, m, n, k)) in
      let full : b.writer_index + length here ≡ length (copy_to b.writer_index here b.buffer) =
        omega (arith, length-copy_to b.writer_index here b.buffer fits, v.bounded, m, n) in
      (
        b',
        read_overflows readv b b' bytes e (omega arith) full a,
        v₂,
        c₂
            ∙ ap (λ xs. xs ++ beyond) c₁
            ∙ append_assoc (to_string_piece b) here beyond
            ∙ ap (◌++◌ (to_string_piece b)) (take-append-drop (writable_bytes b) bytes),
      )
]
