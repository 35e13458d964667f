-- ===== src/Buffer/Shrink.antt =====
-- `Buffer::shrink` of muduo/net/Buffer.h.
use my_cisdi_code.Prelude.{
  [], add_size, ap, arith, length, length-replicate, ltb-false, max_size, ok, refl, replicate, ℕ,
  ◌++◌, ◌+◌, ◌-◌, ◌∙◌, ◌≡◌, ◌≤◌,
}
use my_cisdi_code.Buffer.{
  Buffer, append, cheap_prepend, ensure_writable_bytes, init, initial_size, readable_bytes, shrink,
  to_string_piece, writable_bytes,
}
use my_cisdi_code.Buffer.Invariant.{IsValid, length-to_string_piece, readable_bytes_lem}
use my_cisdi_code.Buffer.Append.{append_roomy, ensure_writable_bytes_lem}

-- A fresh buffer is valid and empty.
pub init_lem :
    (initial : ℕ)
    → cheap_prepend + initial ≤ max_size
    → (b : Buffer) × (init initial ≡ ok b)
      × IsValid b
      × (to_string_piece b ≡ [])
      × (b.writer_index ≡ cheap_prepend)
      × (writable_bytes b ≡ initial)
unfolding init
init_lem initial h =
    let e : add_size cheap_prepend initial ≡ cheap_prepend + initial = omega arith in
    let n : length (replicate (cheap_prepend + initial) 0) ≡ cheap_prepend + initial =
      length-replicate {A = ℕ} (cheap_prepend + initial) 0 in
    (
      record {
        buffer = replicate (cheap_prepend + initial) 0;
        reader_index = cheap_prepend;
        writer_index = cheap_prepend;
      },
      rw (e, ltb-false max_size (cheap_prepend + initial) h),
      omega (arith, n),
      refl,
      refl,
      omega (arith, n),
    )

shrink_runs :
    (reserve : ℕ) (b other roomy b' : Buffer)
    → init initial_size ≡ ok other
    → ensure_writable_bytes (add_size (readable_bytes b) reserve) other ≡ ok roomy
    → append (to_string_piece b) roomy ≡ ok b'
    → shrink reserve b ≡ ok b'
unfolding shrink
shrink_runs reserve b other roomy b' e₀ e₁ e₂ = rw (e₀, e₁, e₂)

-- `shrink` keeps the content, and leaves room for `reserve` bytes behind it.
pub shrink_lem :
    (reserve : ℕ) (b : Buffer)
    → IsValid b
    → length b.buffer + reserve ≤ max_size - cheap_prepend
    → (b' : Buffer) × (shrink reserve b ≡ ok b')
      × IsValid b'
      × (to_string_piece b' ≡ to_string_piece b)
      × (reserve ≤ writable_bytes b')
shrink_lem reserve b v h =
    let (other, e₀, v₀, c₀, w₀, _) = init_lem initial_size (omega arith) in
    let n : readable_bytes b ≡ length (to_string_piece b) =
      omega (arith, readable_bytes_lem b v, length-to_string_piece b v) in
    let r : add_size (readable_bytes b) reserve ≡ length (to_string_piece b) + reserve =
      omega (arith, n, v.bounded, v.small, length-to_string_piece b v) in
    let fits : other.writer_index + (length (to_string_piece b) + reserve) ≤ max_size =
      omega (arith, v.bounded, length-to_string_piece b v) in
    let (roomy, e₁, same, room) =
      ensure_writable_bytes_lem (length (to_string_piece b) + reserve) other v₀ fits in
    let valid : IsValid roomy = same.valid in
    let (b', e₂, v₂, c₂, room₂) = append_roomy (to_string_piece b) reserve roomy valid room in
    (
      b',
      shrink_runs reserve b other roomy b' e₀ (ap (λ n. ensure_writable_bytes n other) r ∙ e₁) e₂,
      v₂,
      c₂ ∙ ap (λ xs. xs ++ to_string_piece b) (same.content ∙ c₀),
      room₂,
    )
