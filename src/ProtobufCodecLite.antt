-- ===== src/ProtobufCodecLite.antt =====
-- muduo/net/protobuf/ProtobufCodecLite.h and ProtobufCodecLite.cc: messages with a length in front and
-- a checksum behind, over the Buffer. Protobuf and zlib are parameters.
pub mod Frames
pub mod Receive
pub mod Total
mod Tests
use my_cisdi_code.Prelude.{
  Bool, Bytes, Fault, List, Option, Result, [], check, drop, equal, false, fault, if◌then◌else◌,
  leb, length, ltb, none, not, ok, some, suc, take, zero, ℕ, ◌%◌, ◌*◌, ◌+◌, ◌-◌, ◌<◌, ◌==◌, ◌>>=◌,
  ◌>>◌, ◌^◌, ◌||◌, ◌∷◌, ◌≡◌,
}
use my_cisdi_code.Buffer.{
  Buffer, append, copy_to, ensure_writable_bytes, has_written, prepend, readable_bytes, retrieve,
  to_string_piece,
}
use my_cisdi_code.Buffer.Integers.{append_int, host_to_network, int32, network_to_host, peek_int}

abbrev pub header_len : ℕ
header_len = 4

abbrev pub checksum_len : ℕ
checksum_len = 4

abbrev pub max_message_len : ℕ
max_message_len = 64 * 1024 * 1024

pub data ErrorCode : Type 0 where
  no_error invalid_length check_sum_error invalid_name_len : ErrorCode
  unknown_message_type parse_error : ErrorCode

-- What the code calls of protobuf and zlib: `ByteSize`, `SerializeWithCachedSizesToArray`,
-- `ParseFromArray` into a new message, and `adler32` from 1 on.
pub record Library {ℓ} (M : Type ℓ) : Type ℓ where
  pub byte_size : M → ℕ
  pub serialize : M → Bytes
  pub parse_from_array : Bytes → Option M
  pub adler32 : Bytes → ℕ

-- What they promise: the size is that of the bytes, reading undoes writing, and a checksum has 32 bits.
pub record IsLibrary {ℓ} {M : Type ℓ} (lib : Library M) : Type ℓ where
  pub sized : (m : M) → length (lib.serialize m) ≡ lib.byte_size m
  pub parsed : (m : M) → lib.parse_from_array (lib.serialize m) ≡ some m
  pub word : (xs : Bytes) → lib.adler32 xs < 2 ^ 32

-- What `parse` yields.
pub data Parsed {ℓ} (M : Type ℓ) : Type ℓ where
  message : M → Parsed M
  error : ErrorCode → Parsed M

-- The calls of `messageCallback_` and `errorCallback_`.
pub data Called {ℓ} (M : Type ℓ) : Type ℓ where
  message_called : M → Called M
  error_called : ErrorCode → Called M

-- What `onMessage` yields.
pub data Run {ℓ} (M : Type ℓ) : Type ℓ where
  finished : List (Called M) → Buffer → Run M
  failed : Fault → Run M
  out_of_fuel : Run M

abbrev pub calling {ℓ} : {M : Type ℓ} → Called M → Run M → Run M
calling c (finished cs b) = finished (c ∷ cs) b
calling c (failed e) = failed e
calling c out_of_fuel = out_of_fuel

abbrev pub then_run {ℓ} : {M : Type ℓ} → Result Buffer → (Buffer → Run M) → Run M
then_run (ok b) k = k b
then_run (fault e) k = failed e

-- The four bytes as a bit pattern; the checksums and lengths of the source are such.
abbrev pub as_int32 : Bytes → ℕ
as_int32 xs = network_to_host (take 4 xs)

-- `rawCb_`: none, or what it says of a whole frame; where it says no, the frame is skipped.
abbrev pub refuses : Option (Bytes → Bool) → Bytes → Bool
refuses none frame = false
refuses (some f) frame = not (f frame)

module _ {ℓ} {M : Type ℓ} (lib : Library M) (tag : Bytes) where
  abbrev pub min_message_len : ℕ
  min_message_len = length tag + checksum_len

  abbrev pub checksum : Bytes → ℕ
  checksum xs = lib.adler32 xs % 2 ^ 32

  -- Protobuf ends the program if the bytes written are not as many as it said before.
  unfoldable pub serialize_to_buffer : M → Buffer → Result (ℕ × Buffer)
  serialize_to_buffer m b = do
    b₁ ← ensure_writable_bytes (lib.byte_size m + checksum_len) b
    check (length (lib.serialize m) == lib.byte_size m)
    b₂ ←
        has_written (lib.byte_size m)
          (record b₁ { buffer = copy_to b₁.writer_index (lib.serialize m) b₁.buffer })
    ok (lib.byte_size m, b₂)

  unfoldable pub fill_empty_buffer : M → Buffer → Result Buffer
  fill_empty_buffer m b = do
    check (readable_bytes b == 0)
    b₁ ← append tag b
    (byte_size, b₂) ← serialize_to_buffer m b₁
    b₃ ← append_int int32 (checksum (to_string_piece b₂)) b₂
    check (readable_bytes b₃ == length tag + byte_size + checksum_len)
    prepend (host_to_network 4 (readable_bytes b₃ % 2 ^ 32)) b₃

  unfoldable pub validate_checksum : Bytes → Bool
  validate_checksum xs =
      checksum (take (length xs - checksum_len) xs) == as_int32 (drop (length xs - checksum_len) xs)

  abbrev pub parsed_or_error : Option M → Parsed M
  parsed_or_error none = error parse_error
  parsed_or_error (some m) = message m

  unfoldable pub parse : Bytes → Parsed M
  unfolding validate_checksum
  parse xs =
      if validate_checksum xs
      then (if equal (take (length tag) xs) tag
          then parsed_or_error (
              lib.parse_from_array
                (take (length xs - checksum_len - length tag) (drop (length tag) xs)))
          else error unknown_message_type)
      else error check_sum_error

  module _ (raw : Option (Bytes → Bool)) (continue : Buffer → Run M) where
    abbrev pub after_parse : ℕ → Buffer → Parsed M → Run M
    after_parse len b (message m) =
        calling (message_called m) (then_run (retrieve (header_len + len) b) continue)
    after_parse len b (error e) = finished (error_called e ∷ []) b

    unfoldable pub with_frame : ℕ → Buffer → Run M
    unfolding parse
    with_frame len b =
        if refuses raw (take (header_len + len) (to_string_piece b))
        then then_run (retrieve (header_len + len) b) continue
        else after_parse len b (parse (take len (drop header_len (to_string_piece b))))

    -- A length with the sign bit is above the greatest length, so it is refused as it is in the source,
    -- where it is below the least.
    unfoldable pub with_length : Buffer → Result ℕ → Run M
    unfolding with_frame
    with_length b (fault e) = failed e
    with_length b (ok len) =
        if ltb max_message_len len || ltb len min_message_len
        then finished (error_called invalid_length ∷ []) b
        else if leb (header_len + len) (readable_bytes b)
        then with_frame len b
        else finished [] b

    -- A round of the loop of `onMessage`.
    unfoldable pub receive : Buffer → Run M
    unfolding with_length
    receive b =
        if leb (min_message_len + header_len) (readable_bytes b)
        then with_length b (peek_int int32 b)
        else finished [] b

  unfoldable pub on_message : ℕ → Option (Bytes → Bool) → Buffer → Run M
  unfolding receive
  on_message zero raw b = out_of_fuel
  on_message (suc fuel) raw b = receive raw (on_message fuel raw) b
