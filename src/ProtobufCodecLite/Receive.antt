-- ===== src/ProtobufCodecLite/Receive.antt =====
-- What `onMessage` makes of a buffer with frames.
use my_cisdi_code.Prelude.{
  ==_of_eq, Bool, Bytes, List, Option, [], ap, arith, drop, drop-append, equal_self, false,
  leb-false, length, length-append, le→leb, ltb-false, map, ok, refl, suc, sym, take, take-append,
  take_all, true, zero, ℕ, ◌++◌, ◌+◌, ◌-◌, ◌<◌, ◌∙◌, ◌∷◌, ◌≡◌, ◌≤◌,
}
use my_cisdi_code.Buffer.{Buffer, readable_bytes, retrieve, to_string_piece}
use my_cisdi_code.Buffer.Invariant.{IsValid, length-to_string_piece, readable_bytes_lem}
use my_cisdi_code.Buffer.Integers.{
  host_to_network, int32, length-host_to_network, network_to_host, network_to_host-host_to_network,
  peek_int, peek_int-content,
}
use my_cisdi_code.ProtobufCodecLite.{
  IsLibrary, Library, Run, as_int32, calling, checksum, checksum_len, finished, header_len,
  max_message_len, message, message_called, min_message_len, on_message, parse, receive, refuses,
  validate_checksum, with_frame, with_length,
}
use my_cisdi_code.ProtobufCodecLite.Frames.{body, frame, length-body}
use mathlib.Core.List.{append_assoc}
use my_cisdi_code.Buffer.Retrieve.{retrieve_lem}

module _ {ℓ} {M : Type ℓ} (lib : Library M) (tag : Bytes) (law : IsLibrary lib) where
  abbrev sum_of : M → Bytes
  sum_of m = host_to_network 4 (checksum lib tag (tag ++ lib.serialize m))

  before_sum : (m : M) → length (body lib tag m) - checksum_len ≡ length (tag ++ lib.serialize m)
  before_sum m =
      omega (arith, length-body lib tag law m, length-append tag (lib.serialize m), law.sized m)

  abbrev payload : M → Bytes
  payload m = tag ++ lib.serialize m

  front_of_body :
      (m : M) → take (length (body lib tag m) - checksum_len) (body lib tag m) ≡ payload m
  front_of_body m = take-append _ (payload m) (sum_of m) (before_sum m)

  back_of_body : (m : M) → drop (length (body lib tag m) - checksum_len) (body lib tag m) ≡ sum_of m
  back_of_body m = drop-append _ (payload m) (sum_of m) (before_sum m)

  sum_read : (m : M) → as_int32 (sum_of m) ≡ checksum lib tag (payload m)
  sum_read m =
      ap network_to_host (
        take_all 4 (sum_of m)
          (omega (arith, length-host_to_network 4 (checksum lib tag (payload m)))))
      ∙ network_to_host-host_to_network 4 (checksum lib tag (payload m)) (omega arith)

  body-checked : (m : M) → validate_checksum lib tag (body lib tag m) ≡ true
  unfolding validate_checksum
  body-checked m =
      ==_of_eq _ _
        (ap (checksum lib tag) (front_of_body m) ∙ sym (ap as_int32 (back_of_body m) ∙ sum_read m))

  tag_of_body : (m : M) → take (length tag) (body lib tag m) ≡ tag
  tag_of_body m =
      ap (take (length tag)) (append_assoc tag (lib.serialize m) (sum_of m))
      ∙ take-append (length tag) tag (lib.serialize m ++ sum_of m) refl

  payload_of_body :
      (m : M)
      → take
          (length (body lib tag m) - checksum_len - length tag)
          (drop (length tag) (body lib tag m))
        ≡ lib.serialize m
  payload_of_body m =
      ap (λ xs. take (length (body lib tag m) - checksum_len - length tag) (drop (length tag) xs))
        (append_assoc tag (lib.serialize m) (sum_of m))
      ∙ ap (take (length (body lib tag m) - checksum_len - length tag))
          (drop-append (length tag) tag (lib.serialize m ++ sum_of m) refl)
      ∙ take-append _ (lib.serialize m) (sum_of m)
          (omega (arith, length-body lib tag law m, law.sized m))

  -- What was written is read back.
  pub parse-body : (m : M) → parse lib tag (body lib tag m) ≡ message m
  unfolding parse
  parse-body m =
      rw (body-checked m, tag_of_body m, equal_self tag, payload_of_body m, law.parsed m) refl

  abbrev pub frames : List M → Bytes
  frames [] = []
  frames (m ∷ ms) = frame lib tag m ++ frames ms

  abbrev pub FitAll : List M → Type 0
  FitAll [] = Unit {0}
  FitAll (m ∷ ms) = (length (body lib tag m) ≤ max_message_len) × FitAll ms

  module _ (raw : Option (Bytes → Bool)) (continue : Buffer → Run M) where
    round :
        (m : M) (b b' : Buffer) (len : ℕ)
        → ((xs : Bytes) → refuses raw xs ≡ false)
        → min_message_len lib tag + header_len ≤ readable_bytes b
        → peek_int int32 b ≡ ok len
        → len ≤ max_message_len
        → min_message_len lib tag ≤ len
        → header_len + len ≤ readable_bytes b
        → take len (drop header_len (to_string_piece b)) ≡ body lib tag m
        → retrieve (header_len + len) b ≡ ok b'
        → receive lib tag raw continue b ≡ calling (message_called m) (continue b')
    unfolding receive with_length with_frame
    round m b b' len takes enough peeked short long there inside rest =
        rw
          (
            le→leb (min_message_len lib tag + header_len) (readable_bytes b) enough,
            peeked,
            ltb-false max_message_len len short,
            ltb-false len (min_message_len lib tag) long,
            le→leb (header_len + len) (readable_bytes b) there,
            takes (take (header_len + len) (to_string_piece b)),
            inside,
            parse-body m,
            rest,
          )
          refl

    received :
        (m : M) (rest : Bytes) (b : Buffer)
        → ((xs : Bytes) → refuses raw xs ≡ false)
        → IsValid b
        → to_string_piece b ≡ frame lib tag m ++ rest
        → length (body lib tag m) ≤ max_message_len
        → (b' : Buffer) × IsValid b'
          × (to_string_piece b' ≡ rest)
          × (receive lib tag raw continue b ≡ calling (message_called m) (continue b'))
    received m rest b takes v e fits =
        let len = length (body lib tag m) in
        let whole : to_string_piece b ≡ host_to_network 4 len ++ (body lib tag m ++ rest) =
          e ∙ append_assoc (host_to_network 4 len) (body lib tag m) rest in
        let (four, peeked) =
          peek_int-content int32 len (body lib tag m ++ rest) b v (omega (arith, fits)) whole in
        let size : readable_bytes b ≡ 4 + (len + length rest) = omega (
          arith,
          readable_bytes_lem b v,
          length-to_string_piece b v,
          ap length whole,
          length-append (host_to_network 4 len) (body lib tag m ++ rest),
          length-append (body lib tag m) rest,
          length-host_to_network 4 len,
        ) in
        let (b', r, v', c', _) = retrieve_lem (header_len + len) b v (omega (arith, size)) in
        let four_len : length (frame lib tag m) ≡ header_len + len = omega (
          arith,
          length-append (host_to_network 4 len) (body lib tag m),
          length-host_to_network 4 len,
        ) in
        let inside : take len (drop header_len (to_string_piece b)) ≡ body lib tag m =
          ap (λ xs. take len (drop header_len xs)) whole
          ∙ ap (take len) (
              drop-append header_len (host_to_network 4 len) (body lib tag m ++ rest)
                (sym (length-host_to_network 4 len)))
          ∙ take-append len (body lib tag m) rest refl in
        (
          b',
          v',
          c'
              ∙ ap (drop (header_len + len)) e
              ∙ drop-append (header_len + len) (frame lib tag m) rest (sym four_len),
          round m b b' len takes (omega (arith, size, length-body lib tag law m)) peeked fits
              (omega (arith, length-body lib tag law m)) (omega (arith, size)) inside r,
        )

  abbrev pub Received : List M → Bytes → Run M → Type ℓ
  Received ms rest r =
      (b' : Buffer) × (r ≡ finished (map message_called ms) b')
      × IsValid b'
      × (to_string_piece b' ≡ rest)

  -- `onMessage` on a valid buffer that holds the frames of some messages, none with a length field above
  -- the 64 MiB of `kMaxMessageLen`, and then too few bytes for a frame, with a `rawCb_` that is not set or refuses nothing: given a round for each message and one
  -- more it ends, calls `messageCallback_` with each message in order and `errorCallback_` never, and
  -- leaves just the bytes behind the frames.
  pub on_message-frames :
      (ms : List M) (rest : Bytes) (fuel : ℕ) (raw : Option (Bytes → Bool)) (b : Buffer)
      → length ms < fuel
      → ((xs : Bytes) → refuses raw xs ≡ false)
      → IsValid b
      → to_string_piece b ≡ frames ms ++ rest
      → FitAll ms
      → length rest < min_message_len lib tag + header_len
      → (b' : Buffer) × (on_message lib tag fuel raw b ≡ finished (map message_called ms) b')
        × IsValid b'
        × (to_string_piece b' ≡ rest)
  unfolding on_message receive
  on_message-frames [] rest zero raw b f takes v e fit short = absurd (omega arith)
  on_message-frames (m ∷ ms) rest zero raw b f takes v e fit short = absurd (omega arith)
  on_message-frames [] rest (suc fuel) raw b f takes v e fit short = (
    b,
    rw
        (leb-false (min_message_len lib tag + header_len) (readable_bytes b)
          (omega (arith, readable_bytes_lem b v, length-to_string_piece b v, ap length e, short)))
        refl,
    v,
    e,
  )
  on_message-frames (m ∷ ms) rest (suc fuel) raw b f takes v e (fits, fit) short =
      let (b₁, v₁, c₁, r₁) =
        received raw (on_message lib tag fuel raw) m (frames ms ++ rest) b takes v
          (e ∙ append_assoc (frame lib tag m) (frames ms) rest) fits in
      let (b', r', v', c') =
        on_message-frames ms rest fuel raw b₁ (omega (arith, f)) takes v₁ c₁ fit short in
      (b', r₁ ∙ ap (calling (message_called m)) r', v', c')
