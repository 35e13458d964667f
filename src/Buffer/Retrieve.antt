-- ===== src/Buffer/Retrieve.antt =====
-- Reading: `retrieve` and its variants, `hasWritten` and `unwrite`.
use my_cisdi_code.Prelude.{
  [], add_size, ap, arith, assertion_failed, dec_lt, drop, drop-drop, drop-take, drop_all, fault,
  leb-false, le→leb, ltb-false, lt→ltb, ok, refl, sub_size, sym, take, take-append-drop, take-take,
  ℕ, ◌++◌, ◌+◌, ◌-◌, ◌<◌, ◌∙◌, ◌≡◌, ◌≤◌,
}
use my_cisdi_code.Buffer.{
  Buffer, cheap_prepend, readable_bytes, retrieve, retrieve_all, retrieve_as_string, retrieve_until,
  to_string_piece, unwrite,
}
use my_cisdi_code.Buffer.Invariant.{IsValid, length-to_string_piece, readable_bytes_lem}

-- `to_string_piece` of a buffer whose reader index moved on.
advanced-content :
    (len : ℕ) (b : Buffer)
    → IsValid b
    → len ≤ readable_bytes b
    → to_string_piece (record b { reader_index = b.reader_index + len })
      ≡ drop len (to_string_piece b)
advanced-content len b v h =
    let n : sub_size b.writer_index (b.reader_index + len) ≡ readable_bytes b - len =
      omega (arith, v.ordered, v.bounded, v.small) in
    ap (λ k. take k (drop (b.reader_index + len) b.buffer)) n
    ∙ ap (take (readable_bytes b - len)) (sym (drop-drop b.reader_index len _ b.buffer refl))
    ∙ sym (drop-take len (readable_bytes b) (drop b.reader_index b.buffer))

empty-content : (b : Buffer) → to_string_piece (retrieve_all b) ≡ []
empty-content b = refl

-- `retrieve(len)` succeeds exactly when `len` bytes are readable; it keeps the invariant and takes
-- them off the front. Where nothing is left, both indices go back to 8.
pub retrieve_lem :
    (len : ℕ) (b : Buffer)
    → IsValid b
    → len ≤ readable_bytes b
    → (b' : Buffer) × (retrieve len b ≡ ok b')
      × IsValid b'
      × (to_string_piece b' ≡ drop len (to_string_piece b))
      × (len ≡ readable_bytes b
          → (b'.reader_index ≡ cheap_prepend) × (b'.writer_index ≡ cheap_prepend))
unfolding retrieve
retrieve_lem len b v h = elim (dec_lt len (readable_bytes b)) [
  | yes less ↦ (
    record b { reader_index = b.reader_index + len },
    let e : add_size b.reader_index len ≡ b.reader_index + len =
          omega (arith, v.ordered, v.bounded, v.small) in
        rw (le→leb _ _ h, lt→ltb _ _ less, e),
    omega (arith, v.ordered, v.bounded, v.small, v.roomy),
    advanced-content len b v h,
    λ e. absurd (omega arith),
  )
  | no all ↦ (
    retrieve_all b,
    rw (le→leb _ _ h, ltb-false len (readable_bytes b) (omega arith)),
    omega (arith, v.small, v.roomy),
    sym (
        drop_all len (to_string_piece b)
          (omega (arith, length-to_string_piece b v, readable_bytes_lem b v))),
    λ e. (refl, refl),
  )
]

pub retrieve_fails :
    (len : ℕ) (b : Buffer) → readable_bytes b < len → retrieve len b ≡ fault assertion_failed
unfolding retrieve
retrieve_fails len b h = rw (leb-false _ _ h)

-- `retrieveAsString(len)` returns the first `len` bytes and takes them off.
pub retrieve_as_string_lem :
    (len : ℕ) (b : Buffer)
    → IsValid b
    → len ≤ readable_bytes b
    → (b' : Buffer) × (retrieve_as_string len b ≡ ok (take len (to_string_piece b), b'))
      × IsValid b'
      × (to_string_piece b ≡ take len (to_string_piece b) ++ to_string_piece b')
unfolding retrieve_as_string
retrieve_as_string_lem len b v h =
    let (b', e, w, content, _) = retrieve_lem len b v h in
    (
      b',
      rw (le→leb _ _ h, e, take-take len (readable_bytes b) (drop b.reader_index b.buffer) h),
      w,
      rw content (sym (take-append-drop len (to_string_piece b))),
    )

-- `retrieveUntil(end)` takes off the bytes before the offset `end`.
pub retrieve_until_lem :
    (n : ℕ) (b : Buffer)
    → IsValid b
    → n ≤ readable_bytes b
    → (b' : Buffer) × (retrieve_until (b.reader_index + n) b ≡ ok b')
      × IsValid b'
      × (to_string_piece b' ≡ drop n (to_string_piece b))
unfolding retrieve_until
retrieve_until_lem n b v h =
    let (b', e, w, content, _) = retrieve_lem n b v h in
    let r : readable_bytes b ≡ b.writer_index - b.reader_index = readable_bytes_lem b v in
    let d : sub_size (b.reader_index + n) b.reader_index ≡ n =
      omega (arith, v.ordered, v.bounded, v.small) in
    (
      b',
      rw (
        le→leb b.reader_index (b.reader_index + n) (omega arith),
        le→leb (b.reader_index + n) b.writer_index (omega (arith, v.ordered)),
        d,
        e,
      ),
      w,
      content,
    )

-- `unwrite(len)` takes bytes off the end of the content.
pub unwrite_lem :
    (len : ℕ) (b : Buffer)
    → IsValid b
    → len ≤ readable_bytes b
    → (b' : Buffer) × (unwrite len b ≡ ok b')
      × IsValid b'
      × (to_string_piece b' ≡ take (readable_bytes b - len) (to_string_piece b))
unfolding unwrite
unwrite_lem len b v h =
    let e : sub_size b.writer_index len ≡ b.writer_index - len =
      omega (arith, v.ordered, v.bounded, v.small) in
    let n : sub_size (b.writer_index - len) b.reader_index ≡ readable_bytes b - len =
      omega (arith, v.ordered, v.bounded, v.small) in
    (
      record b { writer_index = b.writer_index - len },
      rw (le→leb _ _ h, e),
      omega (arith, v.ordered, v.bounded, v.small, v.roomy),
      ap (λ k. take k (drop b.reader_index b.buffer)) n
          ∙ sym (
              take-take (readable_bytes b - len) (readable_bytes b) (drop b.reader_index b.buffer)
                (omega arith)),
    )
