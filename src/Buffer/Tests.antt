-- ===== src/Buffer/Tests.antt =====
-- The buffer at concrete inputs.
use my_cisdi_code.Prelude.{[], arith, drop, length, ok, refl, some, ℕ, ◌++◌, ◌+◌, ◌∷◌, ◌≡◌, ◌≤◌}
use my_cisdi_code.Buffer.{
  Buffer, append, cheap_prepend, ensure_writable_bytes, has_written, make_space, prepend, retrieve,
  shrink, to_string_piece, writable_bytes,
}
use my_cisdi_code.Buffer.Invariant.{IsValid}
use my_cisdi_code.Buffer.Append.{SameContent, append_lem, ensure_writable_bytes_lem}
use my_cisdi_code.Buffer.Retrieve.{retrieve_lem}
use my_cisdi_code.Buffer.Prepend.{prepend_lem}
use my_cisdi_code.Buffer.Search.{FirstCrlf, find_crlf, find_crlf-some, search_crlf}
use my_cisdi_code.Buffer.Integers.{
  append_int, int16, int32, prepend_int, read_int, read_int-append_int, read_int-prepend_int,
}
use my_cisdi_code.Buffer.ReadFd.{Received, count, got, read_fd, read_fd_lem}
use my_cisdi_code.Buffer.Shrink.{shrink_lem}

-- "ab\r\nc" behind ten bytes, and one writable byte.
abbrev sample : Buffer
sample = record {
  buffer = 0 ∷ 0 ∷ 0 ∷ 0 ∷ 0 ∷ 0 ∷ 0 ∷ 0 ∷ 0 ∷ 0 ∷ b'a' ∷ b'b' ∷ b'\r' ∷ b'\n' ∷ b'c' ∷ 0 ∷ [];
  reader_index = 10;
  writer_index = 15;
}

abbrev empty : Buffer
empty = record { buffer = 0 ∷ 0 ∷ 0 ∷ 0 ∷ 0 ∷ 0 ∷ 0 ∷ 0 ∷ []; reader_index = 8; writer_index = 8 }

sample-IsValid : IsValid sample
sample-IsValid = omega arith

empty-IsValid : IsValid empty
empty-IsValid = omega arith

-- Three bytes fit once the content is moved to the front, four make the vector longer.
append_runs :
    (append (1 ∷ 2 ∷ 3 ∷ []) sample
      ≡ ok (record {
        buffer =
            0 ∷ 0 ∷ 0 ∷ 0 ∷ 0 ∷ 0 ∷ 0 ∷ 0 ∷ b'a' ∷ b'b' ∷ b'\r' ∷ b'\n' ∷ b'c' ∷ 1 ∷ 2 ∷ 3 ∷ [];
        reader_index = 8;
        writer_index = 16;
      }))
    × (append (1 ∷ 2 ∷ 3 ∷ 4 ∷ []) sample
        ≡ ok (record {
          buffer =
              0 ∷ 0 ∷ 0 ∷ 0 ∷ 0 ∷ 0 ∷ 0 ∷ 0 ∷ 0 ∷ 0 ∷ b'a' ∷ b'b' ∷ b'\r' ∷ b'\n' ∷ b'c' ∷ 1 ∷ 2 ∷ 3
              ∷ 4 ∷ [];
          reader_index = 10;
          writer_index = 19;
        }))
unfolding append ensure_writable_bytes make_space has_written
append_runs = (refl, refl)

append_lem_example :
    (b' : Buffer) × (append (1 ∷ 2 ∷ 3 ∷ []) sample ≡ ok b')
    × IsValid b'
    × (to_string_piece b' ≡ to_string_piece sample ++ (1 ∷ 2 ∷ 3 ∷ []))
append_lem_example = append_lem (1 ∷ 2 ∷ 3 ∷ []) sample sample-IsValid (omega arith)

ensure_writable_bytes_lem_example :
    (b' : Buffer) × (ensure_writable_bytes 3 sample ≡ ok b')
    × SameContent sample b'
    × (b'.writer_index + 3 ≤ length b'.buffer)
ensure_writable_bytes_lem_example = ensure_writable_bytes_lem 3 sample sample-IsValid (omega arith)

retrieve_lem_example :
    (b' : Buffer) × (retrieve 5 sample ≡ ok b')
    × IsValid b'
    × (to_string_piece b' ≡ drop 5 (to_string_piece sample))
    × (◌≡◌ {A = ℕ} 5 5 → (b'.reader_index ≡ cheap_prepend) × (b'.writer_index ≡ cheap_prepend))
retrieve_lem_example = retrieve_lem 5 sample sample-IsValid (omega arith)

prepend_lem_example :
    (b' : Buffer) × (prepend (7 ∷ 8 ∷ []) sample ≡ ok b')
    × IsValid b'
    × (to_string_piece b' ≡ 7 ∷ 8 ∷ b'a' ∷ b'b' ∷ b'\r' ∷ b'\n' ∷ b'c' ∷ [])
prepend_lem_example = prepend_lem (7 ∷ 8 ∷ []) sample sample-IsValid (omega arith)

read_int-prepend_int_example :
    (b₁ b₂ : Buffer) × (prepend_int int32 0xdead_beef sample ≡ ok b₁)
    × (read_int int32 b₁ ≡ ok (0xdead_beef, b₂))
    × IsValid b₂
    × (to_string_piece b₂ ≡ to_string_piece sample)
read_int-prepend_int_example =
    read_int-prepend_int int32 0xdead_beef sample sample-IsValid (omega arith) (omega arith)

read_int-append_int_example :
    (b₁ b₂ : Buffer) × (append_int int16 513 empty ≡ ok b₁)
    × (read_int int16 b₁ ≡ ok (513, b₂))
    × IsValid b₂
    × (to_string_piece b₂ ≡ [])
read_int-append_int_example =
    read_int-append_int int16 513 empty empty-IsValid refl (omega arith) (omega arith)

-- A kernel that has five bytes to give.
abbrev five_bytes : ℕ → Received
five_bytes n = got (1 ∷ 2 ∷ 3 ∷ 4 ∷ 5 ∷ [])

read_fd_lem_example :
    (b' : Buffer) × (read_fd five_bytes sample ≡ ok (count 5, b'))
    × IsValid b'
    × (to_string_piece b' ≡ to_string_piece sample ++ (1 ∷ 2 ∷ 3 ∷ 4 ∷ 5 ∷ []))
read_fd_lem_example =
    read_fd_lem five_bytes sample (1 ∷ 2 ∷ 3 ∷ 4 ∷ 5 ∷ []) sample-IsValid refl (omega arith)

find_crlf-sample : find_crlf sample ≡ some 12
unfolding find_crlf search_crlf
find_crlf-sample = refl

find_crlf-some_example : FirstCrlf 10 12 (to_string_piece sample)
find_crlf-some_example = find_crlf-some sample find_crlf-sample

shrink_lem_example :
    (b' : Buffer) × (shrink 3 sample ≡ ok b')
    × IsValid b'
    × (to_string_piece b' ≡ to_string_piece sample)
    × (3 ≤ writable_bytes b')
shrink_lem_example = shrink_lem 3 sample sample-IsValid (omega arith)
