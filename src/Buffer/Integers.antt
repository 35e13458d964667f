-- ===== src/Buffer/Integers.antt =====
-- The integers of muduo/net/Buffer.h and muduo/net/Endian.h. An integer is its bit pattern, below
-- 256^n for one of n bytes; the sign is only another reading of it.
use native.Mathlib.Nat.{pow-suc}
use mathlib.Core.List.{append-nil}
use my_cisdi_code.Prelude.{
  Bytes, Result, [], ap, arith, check, drop, drop-append, leb, length, length-append, le→leb,
  max_size, ok, refl, suc, sym, take, take-append, take-take, zero, ℕ, ◌%◌, ◌*◌, ◌++◌, ◌+◌, ◌/◌,
  ◌<◌, ◌>>=◌, ◌>>◌, ◌^◌, ◌∙◌, ◌∷◌, ◌≡◌, ◌≤◌,
}
use my_cisdi_code.Buffer.{
  Buffer, append, prepend, prependable_bytes, readable_bytes, retrieve, to_string_piece,
}
use my_cisdi_code.Buffer.Invariant.{IsValid, length-to_string_piece, readable_bytes_lem}
use my_cisdi_code.Buffer.Append.{append_lem}
use my_cisdi_code.Buffer.Prepend.{prepend_lem}
use my_cisdi_code.Buffer.Retrieve.{retrieve_lem}

-- The members named `...Int64`, `...Int32`, `...Int16` and `...Int8`.
pub data Width : Type 0 where
  int64 int32 int16 int8 : Width

abbrev pub size_of : Width → ℕ
size_of int64 = 8
size_of int32 = 4
size_of int16 = 2
size_of int8 = 1

-- The memory of `hostToNetwork64(x)` and its likes: the most significant byte first.
unfoldable pub host_to_network : ℕ → ℕ → Bytes
host_to_network zero x = []
host_to_network (suc n) x = host_to_network n (x / 256) ++ (x % 256 ∷ [])

network_to_host_from : ℕ → Bytes → ℕ
network_to_host_from acc [] = acc
network_to_host_from acc (byte ∷ bytes) = network_to_host_from (acc * 256 + byte) bytes

-- `networkToHost64` and its likes, of the memory of an integer.
pub network_to_host : Bytes → ℕ
unfolding network_to_host_from
network_to_host = network_to_host_from 0

unfoldable pub append_int : Width → ℕ → Buffer → Result Buffer
append_int w x b = append (host_to_network (size_of w) x) b

pub prepend_int : Width → ℕ → Buffer → Result Buffer
prepend_int w x b = prepend (host_to_network (size_of w) x) b

unfoldable pub peek_int : Width → Buffer → Result ℕ
peek_int w b = do
  check (leb (size_of w) (readable_bytes b))
  ok (network_to_host (take (size_of w) (drop b.reader_index b.buffer)))

pub retrieve_int : Width → Buffer → Result Buffer
retrieve_int w b = retrieve (size_of w) b

pub read_int : Width → Buffer → Result (ℕ × Buffer)
unfolding retrieve_int
read_int w b = do result ← peek_int w b; b' ← retrieve_int w b; ok (result, b')

pub length-host_to_network : (n x : ℕ) → length (host_to_network n x) ≡ n
unfolding host_to_network
length-host_to_network zero x = refl
length-host_to_network (suc n) x = omega (
  arith,
  length-append (host_to_network n (x / 256)) (x % 256 ∷ []),
  length-host_to_network n (x / 256),
)

network_to_host_from-append :
    (acc : ℕ) (xs ys : Bytes)
    → network_to_host_from acc (xs ++ ys) ≡ network_to_host_from (network_to_host_from acc xs) ys
unfolding network_to_host_from
network_to_host_from-append acc [] ys = refl
network_to_host_from-append acc (x ∷ xs) ys = network_to_host_from-append (acc * 256 + x) xs ys

-- Byte order is undone by the way back, for every integer that fits the width.
pub network_to_host-host_to_network :
    (n x : ℕ) → x < 256 ^ n → network_to_host (host_to_network n x) ≡ x
unfolding network_to_host host_to_network
network_to_host-host_to_network zero x h = omega arith
network_to_host-host_to_network (suc n) x h =
    let below : x / 256 < 256 ^ n = omega (arith, pow-suc 256 n) in
    let ih = network_to_host-host_to_network n (x / 256) below in
    network_to_host_from-append 0 (host_to_network n (x / 256)) (x % 256 ∷ []) ∙ omega (arith, ih)

-- `peekInt` sees the integer in front of any content.
pub peek_int-content :
    (w : Width) (x : ℕ) (rest : Bytes) (b : Buffer)
    → IsValid b
    → x < 256 ^ size_of w
    → to_string_piece b ≡ host_to_network (size_of w) x ++ rest
    → (size_of w ≤ readable_bytes b) × (peek_int w b ≡ ok x)
unfolding peek_int
peek_int-content w x rest b v h e = (enough, rw (le→leb _ _ enough, front) (ap ok back))
  where
    enough : size_of w ≤ readable_bytes b
    enough = omega (
      arith,
      readable_bytes_lem b v,
      length-to_string_piece b v,
      ap length e,
      length-append (host_to_network (size_of w) x) rest,
      length-host_to_network (size_of w) x,
    )

    front : take (size_of w) (drop b.reader_index b.buffer) ≡ host_to_network (size_of w) x
    front =
        sym (take-take (size_of w) (readable_bytes b) _ enough)
        ∙ ap (take (size_of w)) e
        ∙ take-append (size_of w) _ rest (sym (length-host_to_network (size_of w) x))

    back : network_to_host (host_to_network (size_of w) x) ≡ x
    back = network_to_host-host_to_network (size_of w) x h

-- `readInt` of a buffer that begins with an integer returns it and leaves the rest.
pub read_int-content :
    (w : Width) (x : ℕ) (rest : Bytes) (b : Buffer)
    → IsValid b
    → x < 256 ^ size_of w
    → to_string_piece b ≡ host_to_network (size_of w) x ++ rest
    → (b' : Buffer) × (read_int w b ≡ ok (x, b')) × IsValid b' × (to_string_piece b' ≡ rest)
unfolding read_int
read_int-content w x rest b v h e =
    let (enough, peeked) = peek_int-content w x rest b v h e in
    let (b', r, valid, content, _) = retrieve_lem (size_of w) b v enough in
    (
      b',
      rw (peeked, r),
      valid,
      content
          ∙ ap (drop (size_of w)) e
          ∙ drop-append (size_of w) _ rest (sym (length-host_to_network (size_of w) x)),
    )

-- What `prependInt` put in front, `readInt` takes off again: the integer comes back, and the content
-- is as before.
pub read_int-prepend_int :
    (w : Width) (x : ℕ) (b : Buffer)
    → IsValid b
    → x < 256 ^ size_of w
    → size_of w ≤ prependable_bytes b
    → (b₁ b₂ : Buffer) × (prepend_int w x b ≡ ok b₁)
      × (read_int w b₁ ≡ ok (x, b₂))
      × IsValid b₂
      × (to_string_piece b₂ ≡ to_string_piece b)
unfolding prepend_int
read_int-prepend_int w x b v h room =
    let n : length (host_to_network (size_of w) x) ≡ size_of w =
      length-host_to_network (size_of w) x in
    let (b₁, e, v₁, c₁) = prepend_lem (host_to_network (size_of w) x) b v (omega (arith, n)) in
    let (b₂, r, v₂, c₂) = read_int-content w x (to_string_piece b) b₁ v₁ h c₁ in
    (b₁, b₂, e, r, v₂, c₂)

-- What `appendInt` puts into an empty buffer, `readInt` returns, and the buffer is empty again.
pub read_int-append_int :
    (w : Width) (x : ℕ) (b : Buffer)
    → IsValid b
    → to_string_piece b ≡ []
    → x < 256 ^ size_of w
    → b.writer_index + size_of w ≤ max_size
    → (b₁ b₂ : Buffer) × (append_int w x b ≡ ok b₁)
      × (read_int w b₁ ≡ ok (x, b₂))
      × IsValid b₂
      × (to_string_piece b₂ ≡ [])
unfolding append_int
read_int-append_int w x b v none_yet h room =
    let n : length (host_to_network (size_of w) x) ≡ size_of w =
      length-host_to_network (size_of w) x in
    let (b₁, e, v₁, c₁) = append_lem (host_to_network (size_of w) x) b v (omega (arith, n)) in
    let c : to_string_piece b₁ ≡ host_to_network (size_of w) x ++ [] =
      c₁ ∙ ap (λ xs. xs ++ host_to_network (size_of w) x) none_yet ∙ sym (append-nil _) in
    let (b₂, r, v₂, c₂) = read_int-content w x [] b₁ v₁ h c in (b₁, b₂, e, r, v₂, c₂)
