-- ===== src/Buffer/Append.antt =====
-- Writing: `ensureWritableBytes`, `makeSpace` and `append` never fail while the vector can grow, keep
-- the invariant, and add just the new bytes to the content.
use mathlib.Core.List.{append_assoc}
use my_cisdi_code.Prelude.{
  ==_of_eq, Bytes, add_size, ap, arith, dec_lt, drop, length, length-append, length-replicate,
  length-take, le→leb, ltb-false, lt→ltb, max_size, ok, refl, replicate, sym, take, take_all, ℕ,
  ◌++◌, ◌+◌, ◌-◌, ◌<◌, ◌∙◌, ◌≡◌, ◌≤◌,
}
use my_cisdi_code.Buffer.{
  Buffer, append, cheap_prepend, copy_to, ensure_writable_bytes, has_written, make_space,
  prependable_bytes, readable_bytes, resize, to_string_piece, writable_bytes,
}
use my_cisdi_code.Buffer.Invariant.{
  IsValid, buffer-parts, length-copy_to, length-to_string_piece, take-writer, to_string_piece_parts,
}

-- What a call may do to the buffer without a reader noticing.
pub record SameContent (b b' : Buffer) : Type 0 where
  pub valid : IsValid b'
  pub content : to_string_piece b' ≡ to_string_piece b

resized : ℕ → Buffer → Buffer
resized n b = record b { buffer = resize n b.buffer }

moved : Buffer → Buffer
moved b = record b {
  buffer = copy_to cheap_prepend (to_string_piece b) b.buffer;
  reader_index = cheap_prepend;
  writer_index = add_size cheap_prepend (readable_bytes b);
}

length-resize : (n : ℕ) (xs : Bytes) → length xs ≤ n → length (resize n xs) ≡ n
length-resize n xs h = omega (
  arith,
  length-append (take n xs) (replicate (n - length xs) 0),
  length-take n xs,
  length-replicate {A = ℕ} (n - length xs) 0,
)

resized-SameContent :
    (n : ℕ) (b : Buffer)
    → IsValid b
    → length b.buffer ≤ n
    → n ≤ max_size
    → SameContent b (resized n b)
unfolding resized
resized-SameContent n b v h m = record {
  valid = w;
  content =
      to_string_piece_parts (resized n b) (take b.reader_index b.buffer) (to_string_piece b)
        (drop b.writer_index b.buffer ++ replicate (n - length b.buffer) 0) w parts
        (omega (arith, length-take b.reader_index b.buffer, v.ordered, v.bounded))
        (omega (
          arith,
          length-take b.reader_index b.buffer,
          length-to_string_piece b v,
          v.ordered,
          v.bounded,
        ));
}
  where
    w : IsValid (resized n b)
    w = omega (arith, length-resize n b.buffer h, v.ordered, v.bounded, v.roomy)

    parts :
        resize n b.buffer
        ≡ take b.reader_index b.buffer
          ++ (to_string_piece b
              ++ (drop b.writer_index b.buffer ++ replicate (n - length b.buffer) 0))
    parts =
        ap (λ xs. xs ++ replicate (n - length b.buffer) 0)
          (take_all n b.buffer h ∙ buffer-parts b v)
        ∙ append_assoc (take b.reader_index b.buffer) _ _
        ∙ ap (◌++◌ (take b.reader_index b.buffer)) (append_assoc (to_string_piece b) _ _)

moved-SameContent :
    (b : Buffer) → IsValid b → cheap_prepend < b.reader_index → SameContent b (moved b)
unfolding moved
moved-SameContent b v h = record {
  valid = w;
  content =
      to_string_piece_parts (moved b) (take cheap_prepend b.buffer) (to_string_piece b)
        (drop (cheap_prepend + length (to_string_piece b)) b.buffer) w refl
        (omega (arith, length-take cheap_prepend b.buffer, v.ordered, v.bounded))
        (omega (
          arith,
          length-take cheap_prepend b.buffer,
          length-to_string_piece b v,
          v.ordered,
          v.bounded,
          v.small,
        ));
}
  where
    w : IsValid (moved b)
    w = omega (
      arith,
      length-copy_to cheap_prepend (to_string_piece b) b.buffer,
      length-to_string_piece b v,
      v.ordered,
      v.bounded,
      v.small,
    )

make_space_grows :
    (len : ℕ) (b : Buffer)
    → IsValid b
    → b.writer_index + len ≤ max_size
    → writable_bytes b + prependable_bytes b < len + cheap_prepend
    → make_space len b ≡ ok (resized (b.writer_index + len) b)
unfolding make_space resized
make_space_grows len b v m few =
    let e : add_size b.writer_index len ≡ b.writer_index + len = omega arith in
    rw (
      lt→ltb (add_size (writable_bytes b) (prependable_bytes b)) (add_size len cheap_prepend)
          (omega arith),
      e,
      ltb-false _ _ m,
    )

make_space_moves :
    (len : ℕ) (b : Buffer)
    → IsValid b
    → b.writer_index + len ≤ max_size
    → writable_bytes b < len
    → len + cheap_prepend ≤ writable_bytes b + prependable_bytes b
    → make_space len b ≡ ok (moved b)
unfolding make_space moved
make_space_moves len b v m short enough =
    let readable : readable_bytes b ≡ readable_bytes (moved b) = unfold moved in omega arith in
    rw (
      ltb-false (add_size (writable_bytes b) (prependable_bytes b)) (add_size len cheap_prepend)
          (omega arith),
      lt→ltb cheap_prepend b.reader_index (omega arith),
      ==_of_eq _ _ readable,
    )

-- `makeSpace` gives room for `len` bytes, and its assertions hold.
make_space_lem :
    (len : ℕ) (b : Buffer)
    → IsValid b
    → writable_bytes b < len
    → b.writer_index + len ≤ max_size
    → (b' : Buffer) × (make_space len b ≡ ok b')
      × SameContent b b'
      × (b'.writer_index + len ≤ length b'.buffer)
make_space_lem len b v short m =
    elim (dec_lt (writable_bytes b + prependable_bytes b) (len + cheap_prepend)) [
      | yes few ↦ (
        resized (b.writer_index + len) b,
        make_space_grows len b v m few,
        resized-SameContent (b.writer_index + len) b v (omega arith) m,
        unfold resized in
            omega (arith, length-resize (b.writer_index + len) b.buffer (omega arith)),
      )
      | no enough ↦ (
        moved b,
        make_space_moves len b v m short (omega arith),
        moved-SameContent b v (omega arith),
        unfold moved in
            omega (
              arith,
              length-copy_to cheap_prepend (to_string_piece b) b.buffer,
              length-to_string_piece b v,
            ),
      )
    ]

-- `ensureWritableBytes` on a valid buffer, where the writer index with `len` is at most the greatest size
-- of a vector: its assertion holds, the content is kept, and there is then room for `len` bytes.
pub ensure_writable_bytes_lem :
    (len : ℕ) (b : Buffer)
    → IsValid b
    → b.writer_index + len ≤ max_size
    → (b' : Buffer) × (ensure_writable_bytes len b ≡ ok b')
      × SameContent b b'
      × (b'.writer_index + len ≤ length b'.buffer)
unfolding ensure_writable_bytes
ensure_writable_bytes_lem len b v m = elim (dec_lt (writable_bytes b) len) [
  | yes short ↦
      (let (b', e, same, room) = make_space_lem len b v short m in
        let valid : IsValid b' = same.valid in
        (b', rw (lt→ltb _ _ short, e, le→leb (len) (writable_bytes b') (omega arith)), same, room))
  | no enough ↦ (
    b,
    rw (
      ltb-false (writable_bytes b) len (omega arith),
      le→leb len (writable_bytes b) (omega arith),
    ),
    record { valid = v; content = refl },
    omega arith,
  )
]

-- The buffer with bytes copied behind its content.
abbrev pub written : Bytes → Buffer → Buffer
written bytes b = record b {
  writer_index = b.writer_index + length bytes;
  buffer = copy_to b.writer_index bytes b.buffer;
}

pub written-content :
    (bytes : Bytes) (b : Buffer)
    → IsValid b
    → b.writer_index + length bytes ≤ length b.buffer
    → IsValid (written bytes b) × (to_string_piece (written bytes b) ≡ to_string_piece b ++ bytes)
written-content bytes b v room = (
  w,
  to_string_piece_parts (written bytes b) (take b.reader_index b.buffer)
      (to_string_piece b ++ bytes) (drop (b.writer_index + length bytes) b.buffer) w parts
      (omega (arith, length-take b.reader_index b.buffer, v.ordered, v.bounded))
      (omega (
        arith,
        length-take b.reader_index b.buffer,
        length-append (to_string_piece b) bytes,
        length-to_string_piece b v,
        v.ordered,
        v.bounded,
      )),
)
  where
    w : IsValid (written bytes b)
    w =
        omega
          (arith, length-copy_to b.writer_index bytes b.buffer room, v.ordered, v.small, v.roomy)

    parts :
        copy_to b.writer_index bytes b.buffer
        ≡ take b.reader_index b.buffer
          ++ ((to_string_piece b ++ bytes) ++ drop (b.writer_index + length bytes) b.buffer)
    parts =
        ap (λ xs. xs ++ (bytes ++ drop (b.writer_index + length bytes) b.buffer)) (take-writer b v)
        ∙ append_assoc (take b.reader_index b.buffer) _ _
        ∙ ap (◌++◌ (take b.reader_index b.buffer)) (sym (append_assoc (to_string_piece b) bytes _))

-- `hasWritten` after the copy.
pub has_written_copied :
    (bytes : Bytes) (b : Buffer)
    → IsValid b
    → b.writer_index + length bytes ≤ length b.buffer
    → has_written (length bytes) (record b { buffer = copy_to b.writer_index bytes b.buffer })
      ≡ ok (written bytes b)
unfolding has_written
has_written_copied bytes b v room =
    let copied = record b { buffer = copy_to b.writer_index bytes b.buffer } in
    let fits : length bytes ≤ writable_bytes copied =
      omega (arith, length-copy_to b.writer_index bytes b.buffer room, v.small) in
    let e : add_size b.writer_index (length bytes) ≡ b.writer_index + length bytes =
      omega (arith, v.small) in
    rw (le→leb _ _ fits, e)

-- `append` fails only where the vector would become longer than it can be; it keeps the invariant
-- and adds the bytes at the end of the content.
pub append_lem :
    (bytes : Bytes) (b : Buffer)
    → IsValid b
    → b.writer_index + length bytes ≤ max_size
    → (b' : Buffer) × (append bytes b ≡ ok b')
      × IsValid b'
      × (to_string_piece b' ≡ to_string_piece b ++ bytes)
unfolding append
append_lem bytes b v m =
    let (b₁, e, same, room) = ensure_writable_bytes_lem (length bytes) b v m in
    let w : IsValid b₁ = same.valid in
    let (valid, content) = written-content bytes b₁ w room in
    (
      written bytes b₁,
      rw (e, has_written_copied bytes b₁ w room),
      valid,
      content ∙ ap (λ xs. xs ++ bytes) same.content,
    )

-- An append into room that is there leaves the rest of the room.
pub append_roomy :
    (bytes : Bytes) (reserve : ℕ) (b : Buffer)
    → IsValid b
    → b.writer_index + (length bytes + reserve) ≤ length b.buffer
    → (b' : Buffer) × (append bytes b ≡ ok b')
      × IsValid b'
      × (to_string_piece b' ≡ to_string_piece b ++ bytes)
      × (reserve ≤ writable_bytes b')
unfolding append ensure_writable_bytes
append_roomy bytes reserve b v room =
    let fits : b.writer_index + length bytes ≤ length b.buffer = omega arith in
    let (valid, content) = written-content bytes b v fits in
    (
      written bytes b,
      rw (
        ltb-false (writable_bytes b) (length bytes) (omega (arith, v.small)),
        le→leb (length bytes) (writable_bytes b) (omega (arith, v.small)),
        has_written_copied bytes b v fits,
      ),
      valid,
      content,
      omega (arith, v.small, length-copy_to b.writer_index bytes b.buffer fits),
    )
