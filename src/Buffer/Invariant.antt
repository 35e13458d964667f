-- ===== src/Buffer/Invariant.antt =====
-- The invariant of the buffer: 8 <= readerIndex <= writerIndex <= size, or less with a prepend.
use mathlib.Core.List.{append_assoc}
use my_cisdi_code.Prelude.{
  Bytes, ap, arith, drop, length, length-append, length-drop, length-take, max_size, sym, take,
  take-append-drop, take-drop_parts, take-split, ℕ, ◌++◌, ◌+◌, ◌-◌, ◌∙◌, ◌≡◌, ◌≤◌,
}
use my_cisdi_code.Buffer.{
  Buffer, cheap_prepend, copy_to, readable_bytes, to_string_piece, writable_bytes,
}

pub record IsValid (b : Buffer) : Type 0 where
  pub ordered : b.reader_index ≤ b.writer_index
  pub bounded : b.writer_index ≤ length b.buffer
  pub small : length b.buffer ≤ max_size
  pub roomy : cheap_prepend ≤ length b.buffer

module _ (b : Buffer) (v : IsValid b) where
  pub readable_bytes_lem : readable_bytes b ≡ b.writer_index - b.reader_index
  readable_bytes_lem = omega arith

  pub writable_bytes_lem : writable_bytes b ≡ length b.buffer - b.writer_index
  writable_bytes_lem = omega arith

  pub length-to_string_piece : length (to_string_piece b) ≡ b.writer_index - b.reader_index
  length-to_string_piece = omega (
    arith,
    length-take (readable_bytes b) (drop b.reader_index b.buffer),
    length-drop b.reader_index b.buffer,
  )

  -- The vector is the bytes before the reader index, the content, and the rest.
  pub take-writer : take b.writer_index b.buffer ≡ take b.reader_index b.buffer ++ to_string_piece b
  take-writer =
      take-split b.reader_index b.writer_index b.buffer v.ordered
      ∙ ap (λ n. take b.reader_index b.buffer ++ take n (drop b.reader_index b.buffer))
          (sym readable_bytes_lem)

pub length-copy_to :
    (i : ℕ) (ys xs : Bytes) → i + length ys ≤ length xs → length (copy_to i ys xs) ≡ length xs
length-copy_to i ys xs h = omega (
  arith,
  length-append (take i xs) (ys ++ drop (i + length ys) xs),
  length-append ys (drop (i + length ys) xs),
  length-take i xs,
  length-drop (i + length ys) xs,
)

-- The content is what stands between the two indices.
pub to_string_piece_parts :
    (b : Buffer) (pre mid post : Bytes)
    → IsValid b
    → b.buffer ≡ pre ++ (mid ++ post)
    → b.reader_index ≡ length pre
    → b.writer_index ≡ length pre + length mid
    → to_string_piece b ≡ mid
to_string_piece_parts b pre mid post v e r w =
    ap (λ xs. take (readable_bytes b) (drop b.reader_index xs)) e
    ∙ take-drop_parts pre mid post b.reader_index (readable_bytes b) r (omega (arith, v.ordered))

-- The vector in three parts.
pub buffer-parts :
    (b : Buffer)
    → IsValid b
    → b.buffer ≡ take b.reader_index b.buffer ++ (to_string_piece b ++ drop b.writer_index b.buffer)
buffer-parts b v =
    sym (take-append-drop b.writer_index b.buffer)
    ∙ ap (λ xs. xs ++ drop b.writer_index b.buffer) (take-writer b v)
    ∙ append_assoc (take b.reader_index b.buffer) (to_string_piece b) (drop b.writer_index b.buffer)
