-- ===== src/Buffer/Indices.antt =====
-- Where the two indices are after the operations that add bytes at the end.
use my_cisdi_code.Prelude.{
  Bool, Bytes, Result, add_size, arith, check, false, fault, if◌then◌else◌, leb, length, ltb,
  max_size, ok, subst, true, ℕ, ◌+◌, ◌==◌, ◌>>=◌, ◌>>◌, ◌≡◌, ◌≤◌,
}
use my_cisdi_code.Buffer.{
  Buffer, append, cheap_prepend, copy_to, ensure_writable_bytes, has_written, make_space,
  prependable_bytes, readable_bytes, to_string_piece, writable_bytes,
}
use my_cisdi_code.Buffer.Invariant.{IsValid}

-- The indices stay right of the bytes for headers, and the writer index does not run ahead.
abbrev pub Indices : ℕ → Result Buffer → Type 0
Indices w (fault e) = Unit {0}
Indices w (ok b') = (cheap_prepend ≤ b'.reader_index) × (b'.writer_index ≤ w)

checked : (w : ℕ) (t : Bool) (r : Result Buffer) → Indices w r → Indices w (check t >> r)
checked w true r h = h
checked w false r h = tt

if_Indices :
    (w : ℕ) (t : Bool) (r r' : Result Buffer)
    → Indices w r
    → Indices w r'
    → Indices w (if t then r else r')
if_Indices w true r r' h h' = h
if_Indices w false r r' h h' = h'

abbrev to_front : Buffer → Buffer
to_front b = record b {
  buffer = copy_to cheap_prepend (to_string_piece b) b.buffer;
  reader_index = cheap_prepend;
  writer_index = add_size cheap_prepend (readable_bytes b);
}

make_space-Indices :
    (len : ℕ) (b : Buffer)
    → IsValid b
    → cheap_prepend ≤ b.reader_index
    → Indices b.writer_index (make_space len b)
unfolding make_space
make_space-Indices len b v h =
    if_Indices b.writer_index
      (ltb (add_size (writable_bytes b) (prependable_bytes b)) (add_size len cheap_prepend)) _ _
      (if_Indices b.writer_index (ltb max_size (add_size b.writer_index len)) _ _ tt
        (h, omega arith))
      (checked b.writer_index (ltb cheap_prepend b.reader_index)
        (check (readable_bytes b == readable_bytes (to_front b)) >> ok (to_front b))
        (checked b.writer_index (readable_bytes b == readable_bytes (to_front b)) (ok (to_front b))
          (omega arith, omega (arith, v.ordered, v.bounded, v.small))))

ensure_writable_bytes-Indices :
    (len : ℕ) (b : Buffer)
    → IsValid b
    → cheap_prepend ≤ b.reader_index
    → Indices b.writer_index (ensure_writable_bytes len b)
unfolding ensure_writable_bytes
ensure_writable_bytes-Indices len b v h =
    bound (if ltb (writable_bytes b) len then make_space len b else ok b) (
      if_Indices b.writer_index (ltb (writable_bytes b) len) _ _ (make_space-Indices len b v h)
        (h, omega arith))
  where
    bound :
        (r : Result Buffer)
        → Indices b.writer_index r
        → Indices b.writer_index (r >>= λ b'. check (leb len (writable_bytes b')) >> ok b')
    bound (ok b') i = checked b.writer_index (leb len (writable_bytes b')) (ok b') i
    bound (fault e) i = tt

-- What `append` leaves of the indices.
pub append-Indices :
    (bytes : Bytes) (b : Buffer)
    → IsValid b
    → cheap_prepend ≤ b.reader_index
    → b.writer_index + length bytes ≤ max_size
    → Indices (b.writer_index + length bytes) (append bytes b)
unfolding append has_written
append-Indices bytes b v h fits =
    bound (ensure_writable_bytes (length bytes) b)
      (ensure_writable_bytes-Indices (length bytes) b v h)
  where
    bound :
        (r : Result Buffer)
        → Indices b.writer_index r
        → Indices (b.writer_index + length bytes) (
            r >>= λ b'.
            has_written
              (length bytes)
              (record b' { buffer = copy_to b'.writer_index bytes b'.buffer }))
    bound (ok b') (i, j) =
        checked (b.writer_index + length bytes)
          (leb (length bytes)
            (writable_bytes (record b' { buffer = copy_to b'.writer_index bytes b'.buffer })))
          (ok (record b' {
            buffer = copy_to b'.writer_index bytes b'.buffer;
            writer_index = add_size b'.writer_index (length bytes);
          }))
          (i, omega (arith, j, fits))
    bound (fault e) i = tt

-- The same of `ensureWritableBytes`, where it succeeds.
pub ensured :
    (len : ℕ) (b b' : Buffer)
    → IsValid b
    → cheap_prepend ≤ b.reader_index
    → ensure_writable_bytes len b ≡ ok b'
    → (cheap_prepend ≤ b'.reader_index) × (b'.writer_index ≤ b.writer_index)
ensured len b b' v h e = subst (Indices b.writer_index) e (ensure_writable_bytes-Indices len b v h)

pub appended :
    (bytes : Bytes) (b b' : Buffer)
    → IsValid b
    → cheap_prepend ≤ b.reader_index
    → b.writer_index + length bytes ≤ max_size
    → append bytes b ≡ ok b'
    → (cheap_prepend ≤ b'.reader_index) × (b'.writer_index ≤ b.writer_index + length bytes)
appended bytes b b' v h fits e =
    subst (Indices (b.writer_index + length bytes)) e (append-Indices bytes b v h fits)
