-- ===== src/ProtobufCodecLite/Frames.antt =====
-- What `fillEmptyBuffer` writes: the frame of the wire format.
use my_cisdi_code.Prelude.{
  ==_of_eq, Bytes, [], ap, arith, length, length-append, max_size, ok, refl, subst, ◌%◌, ◌++◌, ◌+◌,
  ◌<◌, ◌^◌, ◌∙◌, ◌≡◌, ◌≤◌,
}
use my_cisdi_code.Buffer.{
  Buffer, append, cheap_prepend, copy_to, has_written, prepend, readable_bytes, to_string_piece,
}
use my_cisdi_code.Buffer.Invariant.{IsValid, length-to_string_piece, readable_bytes_lem}
use my_cisdi_code.Buffer.Append.{
  append_lem, ensure_writable_bytes_lem, has_written_copied, written, written-content,
}
use my_cisdi_code.Buffer.Indices.{appended, ensured}
use my_cisdi_code.Buffer.Integers.{append_int, host_to_network, int32, length-host_to_network}
use my_cisdi_code.ProtobufCodecLite.{
  IsLibrary, Library, checksum, checksum_len, fill_empty_buffer, serialize_to_buffer,
}
use my_cisdi_code.Buffer.Prepend.{prepend_lem}

module _ {ℓ} {M : Type ℓ} (lib : Library M) (tag : Bytes) where
  -- Tag, payload and checksum, and the frame with the length in front.
  abbrev pub body : M → Bytes
  body m = (tag ++ lib.serialize m) ++ host_to_network 4 (checksum lib tag (tag ++ lib.serialize m))

  abbrev pub frame : M → Bytes
  frame m = host_to_network 4 (length (body m)) ++ body m

  pub length-body :
      IsLibrary lib → (m : M) → length (body m) ≡ length tag + lib.byte_size m + checksum_len
  length-body law m = omega (
    arith,
    length-append (tag ++ lib.serialize m)
        (host_to_network 4 (checksum lib tag (tag ++ lib.serialize m))),
    length-append tag (lib.serialize m),
    length-host_to_network 4 (checksum lib tag (tag ++ lib.serialize m)),
    law.sized m,
  )

  serialize_to_buffer_lem :
      (law : IsLibrary lib) (m : M) (b : Buffer)
      → IsValid b
      → cheap_prepend ≤ b.reader_index
      → b.writer_index + (lib.byte_size m + checksum_len) ≤ max_size
      → (b' : Buffer) × (serialize_to_buffer lib tag m b ≡ ok (lib.byte_size m, b'))
        × IsValid b'
        × (to_string_piece b' ≡ to_string_piece b ++ lib.serialize m)
        × (cheap_prepend ≤ b'.reader_index)
        × (b'.writer_index ≤ b.writer_index + lib.byte_size m)
  unfolding serialize_to_buffer
  serialize_to_buffer_lem law m b v h fits =
      let (b₁, e, same, room) =
        ensure_writable_bytes_lem (lib.byte_size m + checksum_len) b v fits in
      let (left, low) = ensured (lib.byte_size m + checksum_len) b b₁ v h e in
      let sized : length (lib.serialize m) ≡ lib.byte_size m = law.sized m in
      let put =
        subst
          (λ n.
            has_written n
              (record b₁ { buffer = copy_to b₁.writer_index (lib.serialize m) b₁.buffer })
            ≡ ok (written (lib.serialize m) b₁))
          sized (has_written_copied (lib.serialize m) b₁ same.valid (omega (arith, sized, room))) in
      let (valid, content) =
        written-content (lib.serialize m) b₁ same.valid (omega (arith, sized, room)) in
      (
        written (lib.serialize m) b₁,
        rw (e, ==_of_eq _ _ sized, put) refl,
        valid,
        content ∙ ap (λ xs. xs ++ lib.serialize m) same.content,
        left,
        omega (arith, low, sized),
      )

  -- Tag and payload in the buffer.
  record Begun (m : M) (b b₂ : Buffer) : Type 0 where
    b₁ : Buffer
    tagged : append tag b ≡ ok b₁
    serialized : serialize_to_buffer lib tag m b₁ ≡ ok (lib.byte_size m, b₂)
    valid : IsValid b₂
    content : to_string_piece b₂ ≡ tag ++ lib.serialize m
    left : cheap_prepend ≤ b₂.reader_index
    low : b₂.writer_index ≤ b.writer_index + length tag + lib.byte_size m

  begin :
      (law : IsLibrary lib) (m : M) (b : Buffer)
      → IsValid b
      → to_string_piece b ≡ []
      → cheap_prepend ≤ b.reader_index
      → b.writer_index + (length tag + (lib.byte_size m + checksum_len)) ≤ max_size
      → (b₂ : Buffer) × Begun m b b₂
  begin law m b v none_yet h fits =
      let (b₁, e₁, v₁, c₁) = append_lem tag b v (omega (arith, fits)) in
      let (h₁, w₁) = appended tag b b₁ v h (omega (arith, fits)) e₁ in
      let (b₂, e₂, v₂, c₂, h₂, w₂) =
        serialize_to_buffer_lem law m b₁ v₁ h₁ (omega (arith, fits, w₁)) in
      (
        b₂,
        record {
          b₁ = b₁;
          tagged = e₁;
          serialized = e₂;
          valid = v₂;
          content = c₂ ∙ ap (λ xs. xs ++ lib.serialize m) (c₁ ∙ ap (λ xs. xs ++ tag) none_yet);
          left = h₂;
          low = omega (arith, w₁, w₂);
        },
      )

  -- The checksum behind them.
  record Ended (m : M) (b₂ b₃ : Buffer) : Type 0 where
    summed : append_int int32 (checksum lib tag (to_string_piece b₂)) b₂ ≡ ok b₃
    valid : IsValid b₃
    content : to_string_piece b₃ ≡ body m
    left : cheap_prepend ≤ b₃.reader_index

  end_with_sum :
      (m : M) (b₂ : Buffer)
      → IsValid b₂
      → to_string_piece b₂ ≡ tag ++ lib.serialize m
      → cheap_prepend ≤ b₂.reader_index
      → b₂.writer_index + checksum_len ≤ max_size
      → (b₃ : Buffer) × Ended m b₂ b₃
  unfolding append_int
  end_with_sum m b₂ v₂ c₂ h₂ fits =
      let sum = host_to_network 4 (checksum lib tag (to_string_piece b₂)) in
      let four : length sum ≡ 4 =
        length-host_to_network 4 (checksum lib tag (to_string_piece b₂)) in
      let (b₃, e₃, v₃, c₃) = append_lem sum b₂ v₂ (omega (arith, fits, four)) in
      let (h₃, w₃) = appended sum b₂ b₃ v₂ h₂ (omega (arith, fits, four)) e₃ in
      (
        b₃,
        record {
          summed = e₃;
          valid = v₃;
          content = c₃ ∙ ap (λ xs. xs ++ host_to_network 4 (checksum lib tag xs)) c₂;
          left = h₃;
        },
      )

  filled :
      (law : IsLibrary lib) (m : M) (b b₁ b₂ b₃ b₄ : Buffer)
      → readable_bytes b ≡ 0
      → append tag b ≡ ok b₁
      → serialize_to_buffer lib tag m b₁ ≡ ok (lib.byte_size m, b₂)
      → append_int int32 (checksum lib tag (to_string_piece b₂)) b₂ ≡ ok b₃
      → readable_bytes b₃ ≡ length tag + lib.byte_size m + checksum_len
      → length (body m) < 2 ^ 31
      → prepend (host_to_network 4 (length (body m))) b₃ ≡ ok b₄
      → fill_empty_buffer lib tag m b ≡ ok b₄
  unfolding fill_empty_buffer
  filled law m b b₁ b₂ b₃ b₄ none_yet e₁ e₂ e₃ size short e₄ =
      rw (==_of_eq _ _ none_yet, e₁, e₂, e₃, ==_of_eq _ _ size)
        (ap (λ n. prepend (host_to_network 4 n) b₃) small ∙ e₄)
    where
      small : readable_bytes b₃ % 2 ^ 32 ≡ length (body m)
      small = omega (arith, size, length-body law m, short)

  -- `fillEmptyBuffer` of an empty valid buffer with the room for headers that every new one has, where the
  -- message fits the greatest vector and has a length of 31 bits: no assertion fails, and the content is
  -- the frame of the message.
  pub fill_empty_buffer_lem :
      (law : IsLibrary lib) (m : M) (b : Buffer)
      → IsValid b
      → to_string_piece b ≡ []
      → cheap_prepend ≤ b.reader_index
      → b.writer_index + (length tag + (lib.byte_size m + checksum_len)) ≤ max_size
      → length (body m) < 2 ^ 31
      → (b' : Buffer) × (fill_empty_buffer lib tag m b ≡ ok b')
        × IsValid b'
        × (to_string_piece b' ≡ frame m)
  fill_empty_buffer_lem law m b v none_yet h fits short =
      let (b₂, start) = begin law m b v none_yet h fits in
      let (b₃, finish) =
        end_with_sum m b₂ start.valid start.content start.left (omega (arith, start.low, fits)) in
      let size : readable_bytes b₃ ≡ length tag + lib.byte_size m + checksum_len = omega (
        arith,
        readable_bytes_lem b₃ finish.valid,
        length-to_string_piece b₃ finish.valid,
        ap length finish.content,
        length-body law m,
      ) in
      let (b₄, e₄, v₄, c₄) =
        prepend_lem (host_to_network 4 (length (body m))) b₃ finish.valid
          (omega (arith, finish.left, length-host_to_network 4 (length (body m)))) in
      (
        b₄,
        filled law m b start.b₁ b₂ b₃ b₄
            (omega (arith, readable_bytes_lem b v, length-to_string_piece b v, ap length none_yet))
            start.tagged start.serialized finish.summed size short e₄,
        v₄,
        c₄ ∙ ap (λ xs. host_to_network 4 (length (body m)) ++ xs) finish.content,
      )
