-- ===== src/ProtobufCodecLite/Total.antt =====
-- `onMessage` comes to an end on any input.
use my_cisdi_code.Prelude.{
  Bool, Bytes, List, Option, [], ap, arith, drop, false, if◌then◌else◌, leb, leb→le, length,
  length-drop, le→leb, ltb, ok, refl, suc, take, true, zero, ℕ, ◌+◌, ◌<◌, ◌||◌, ◌∷◌, ◌≡◌, ◌≤◌,
}
use my_cisdi_code.Buffer.{Buffer, readable_bytes, retrieve, to_string_piece}
use my_cisdi_code.Buffer.Invariant.{IsValid, length-to_string_piece, readable_bytes_lem}
use my_cisdi_code.Buffer.Retrieve.{retrieve_lem}
use my_cisdi_code.Buffer.Integers.{int32, network_to_host, peek_int}
use my_cisdi_code.ProtobufCodecLite.{
  Called, Library, Parsed, Run, after_parse, calling, error, error_called, failed, finished,
  header_len, invalid_length, max_message_len, message, message_called, min_message_len, on_message,
  out_of_fuel, parse, receive, refuses, then_run, with_frame, with_length,
}

module _ {ℓ} {M : Type ℓ} (lib : Library M) (tag : Bytes) where
  abbrev Ends : Run M → Type 0
  Ends (finished cs b) = IsValid b
  Ends (failed e) = ⊥
  Ends out_of_fuel = ⊥

  calling-Ends : (c : Called M) (r : Run M) → Ends r → Ends (calling c r)
  calling-Ends c (finished cs b) h = h
  calling-Ends c (failed e) h = h
  calling-Ends c out_of_fuel h = h

  module _ (raw : Option (Bytes → Bool)) (continue : Buffer → Run M) (b : Buffer) (v : IsValid b)
      (later : (b' : Buffer)
        → IsValid b'
        → readable_bytes b' < readable_bytes b
        → Ends (continue b')) where
    retrieved :
        (len : ℕ)
        → header_len + len ≤ readable_bytes b
        → Ends (then_run (retrieve (header_len + len) b) continue)
    retrieved len h =
        let (b', e, v', c, _) = retrieve_lem (header_len + len) b v h in
        rw e (
          later b' v' (
            omega (
              arith,
              readable_bytes_lem b' v',
              length-to_string_piece b' v',
              readable_bytes_lem b v,
              length-to_string_piece b v,
              ap length c,
              length-drop (header_len + len) (to_string_piece b),
              h,
            )))

    parsed-Ends :
        (len : ℕ) (p : Parsed M)
        → header_len + len ≤ readable_bytes b
        → Ends (after_parse lib tag raw continue len b p)
    parsed-Ends len (message m) h = calling-Ends (message_called m) _ (retrieved len h)
    parsed-Ends len (error e) h = v

    if_Ends :
        (t : Bool) (r r' : Run M)
        → (t ≡ true → Ends r)
        → (t ≡ false → Ends r')
        → Ends (if t then r else r')
    if_Ends true r r' h h' = h refl
    if_Ends false r r' h h' = h' refl

    frame-Ends :
        (len : ℕ)
        → header_len + len ≤ readable_bytes b
        → Ends (with_frame lib tag raw continue len b)
    unfolding with_frame
    frame-Ends len h =
        if_Ends (refuses raw (take (header_len + len) (to_string_piece b))) _ _
          (λ skipped. retrieved len h)
          (λ taken.
            parsed-Ends len (parse lib tag (take len (drop header_len (to_string_piece b)))) h)

    length-Ends : (len : ℕ) → Ends (with_length lib tag raw continue b (ok len))
    unfolding with_length with_frame
    length-Ends len =
        if_Ends (ltb max_message_len len || ltb len (min_message_len lib tag))
          (finished (error_called invalid_length ∷ []) b)
          (if leb (header_len + len) (readable_bytes b)
            then with_frame lib tag raw continue len b
            else finished [] b)
          (λ bad. v)
          (λ good.
            if_Ends (leb (header_len + len) (readable_bytes b))
              (with_frame lib tag raw continue len b) (finished [] b)
              (λ there. frame-Ends len (leb→le (header_len + len) (readable_bytes b) there))
              (λ short. v))

    receive-Ends : Ends (receive lib tag raw continue b)
    unfolding receive peek_int
    receive-Ends =
        if_Ends (leb (min_message_len lib tag + header_len) (readable_bytes b))
          (with_length lib tag raw continue b (peek_int int32 b)) (finished [] b)
          (λ enough.
            let four : 4 ≤ readable_bytes b =
              omega
                (arith, leb→le (min_message_len lib tag + header_len) (readable_bytes b) enough) in
            rw (le→leb 4 (readable_bytes b) four)
              (length-Ends (network_to_host (take 4 (drop b.reader_index b.buffer)))))
          (λ short. v)

  -- With a round for each readable byte and one more, `onMessage` on a valid buffer ends whatever bytes it
  -- holds and whatever `rawCb_` says, fails no assertion, and leaves a valid buffer.
  pub on_message_total :
      (fuel : ℕ) (raw : Option (Bytes → Bool)) (b : Buffer)
      → IsValid b
      → readable_bytes b < fuel
      → (cs : List (Called M)) × (b' : Buffer) × (on_message lib tag fuel raw b ≡ finished cs b')
        × IsValid b'
  unfolding on_message
  on_message_total fuel raw b v h = shown (on_message lib tag fuel raw b) (all fuel b v h)
    where
      shown :
          (r : Run M)
          → Ends r
          → (cs : List (Called M)) × (b' : Buffer) × (r ≡ finished cs b') × IsValid b'
      shown (finished cs b') w = (cs, b', refl, w)
      shown (failed e) w = absurd w
      shown out_of_fuel w = absurd w

      all :
          (fuel : ℕ) (b : Buffer)
          → IsValid b
          → readable_bytes b < fuel
          → Ends (on_message lib tag fuel raw b)
      all zero b v h = absurd (omega arith)
      all (suc fuel) b v h =
          receive-Ends raw (on_message lib tag fuel raw) b v
            (λ b' v' less. all fuel b' v' (omega (arith, less, h)))
