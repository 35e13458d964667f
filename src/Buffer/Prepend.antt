-- ===== src/Buffer/Prepend.antt =====
-- Writing before the content, and `shrink`.
use mathlib.Core.List.{append_assoc}
use my_cisdi_code.Prelude.{
  Bytes, ap, arith, assertion_failed, drop, drop-append, fault, leb-false, length, length-append,
  length-take, le→leb, ok, sub_size, sym, take, ℕ, ◌++◌, ◌+◌, ◌-◌, ◌<◌, ◌∙◌, ◌≡◌, ◌≤◌,
}
use my_cisdi_code.Buffer.{Buffer, copy_to, prepend, prependable_bytes, to_string_piece}
use my_cisdi_code.Buffer.Invariant.{
  IsValid, buffer-parts, length-copy_to, length-to_string_piece, to_string_piece_parts,
}

-- `prepend` of what fits before the reader index adds the bytes at the front of the content and keeps
-- the invariant.
pub prepend_lem :
    (bytes : Bytes) (b : Buffer)
    → IsValid b
    → length bytes ≤ prependable_bytes b
    → (b' : Buffer) × (prepend bytes b ≡ ok b')
      × IsValid b'
      × (to_string_piece b' ≡ bytes ++ to_string_piece b)
unfolding prepend
prepend_lem bytes b v h = (b', rw (le→leb _ _ h, e), w, content)
  where
    start : ℕ
    start = b.reader_index - length bytes

    b' : Buffer
    b' = record b { reader_index = start; buffer = copy_to start bytes b.buffer }

    e : sub_size b.reader_index (length bytes) ≡ start
    e = omega (arith, v.ordered, v.bounded, v.small)

    w : IsValid b'
    w = omega (
      arith,
      length-copy_to start bytes b.buffer (omega (arith, v.ordered, v.bounded)),
      v.ordered,
      v.bounded,
      v.small,
      v.roomy,
    )

    tail : drop (start + length bytes) b.buffer ≡ to_string_piece b ++ drop b.writer_index b.buffer
    tail =
        ap (λ k. drop k b.buffer) (let k : start + length bytes ≡ b.reader_index = omega arith in k)
        ∙ ap (drop b.reader_index) (buffer-parts b v)
        ∙ drop-append b.reader_index (take b.reader_index b.buffer) _
            (omega (arith, length-take b.reader_index b.buffer, v.ordered, v.bounded))

    content : to_string_piece b' ≡ bytes ++ to_string_piece b
    content =
        to_string_piece_parts b' (take start b.buffer) (bytes ++ to_string_piece b)
          (drop b.writer_index b.buffer) w
          (ap (λ xs. take start b.buffer ++ xs)
            (ap (◌++◌ bytes) tail ∙ sym (append_assoc bytes (to_string_piece b) _)))
          (omega (arith, length-take start b.buffer, v.ordered, v.bounded))
          (omega (
            arith,
            length-take start b.buffer,
            length-append bytes (to_string_piece b),
            length-to_string_piece b v,
            v.ordered,
            v.bounded,
          ))

-- `prepend` of more than fits fails its assertion.
pub prepend_fails :
    (bytes : Bytes) (b : Buffer)
    → prependable_bytes b < length bytes
    → prepend bytes b ≡ fault assertion_failed
unfolding prepend
prepend_fails bytes b h = rw (leb-false _ _ h)
