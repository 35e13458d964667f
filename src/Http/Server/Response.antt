-- ===== src/Http/Server/Response.antt =====
-- What `appendToBuffer` writes.
use my_cisdi_code.Prelude.{
  Bool, Bytes, List, Result, [], ap, arith, codes, false, if◌then◌else◌, length, length-append,
  le→leb, ok, refl, subst, sym, take_all, true, ℕ, ◌++◌, ◌+◌, ◌<◌, ◌>>=◌, ◌^◌, ◌∙◌, ◌∷◌, ◌≡◌, ◌≤◌,
}
use my_cisdi_code.Buffer.{Buffer, append, cheap_prepend, to_string_piece}
use my_cisdi_code.Buffer.Invariant.{IsValid}
use my_cisdi_code.Buffer.Append.{append_lem}
use my_cisdi_code.Buffer.Indices.{appended}
use my_cisdi_code.Http.Server.{
  HttpResponse, append_headers, append_length, append_piece, append_to_buffer, crlf, piece_size,
  snprintf_32,
}
use mathlib.Core.List.{append_assoc, append-nil}

-- A call that adds a text at the end, and leaves the room for headers.
record Grown (b : Buffer) (text : Bytes) (r : Result Buffer) : Type 0 where
  after : Buffer
  returns : r ≡ ok after
  valid : IsValid after
  left : cheap_prepend ≤ after.reader_index
  low : after.writer_index ≤ b.writer_index + length text
  content : to_string_piece after ≡ to_string_piece b ++ text

-- A step that does so wherever there is room.
abbrev Appends : Bytes → (Buffer → Result Buffer) → Type 0
Appends text f =
    (b : Buffer)
    → IsValid b
    → cheap_prepend ≤ b.reader_index
    → b.writer_index + length text < 2 ^ 31
    → Grown b text (f b)

piece_size_lem : (n : ℕ) → n < 2 ^ 31 → piece_size n ≡ n
piece_size_lem n h = ground arith

-- Below 2 ^ 31 bytes nothing is cut off.
append_piece_lem :
    (text : Bytes) (b : Buffer) → length text < 2 ^ 31 → append_piece text b ≡ append text b
unfolding append_piece
append_piece_lem text b h =
    rw
      (
        piece_size_lem (length text) h,
        le→leb (length text) (length text) (omega arith),
        take_all (length text) text (omega arith),
      )
      refl

append-Appends : (text : Bytes) → Appends text (append_piece text)
append-Appends text b v h fits =
    let (b', e, v', c) = append_lem text b v (omega (arith, fits)) in
    let (left, low) = appended text b b' v h (omega (arith, fits)) e in
    record {
      after = b';
      returns = append_piece_lem text b (omega (arith, fits)) ∙ e;
      valid = v';
      left = left;
      low = low;
      content = c;
    }

-- What `snprintf` leaves of a text that fits.
snprintf-Appends :
    (text : Bytes) → length text ≤ 31 → Appends text (append_piece (snprintf_32 text))
snprintf-Appends text short =
    subst (λ xs. Appends text (append_piece xs)) (sym (take_all 31 text short))
      (append-Appends text)

then_Appends :
    (s t : Bytes) (f g : Buffer → Result Buffer)
    → Appends s f
    → Appends t g
    → Appends (s ++ t) (λ b. f b >>= g)
then_Appends s t f g first second b v h fits =
    let n : length (s ++ t) ≡ length s + length t = length-append s t in
    let x = first b v h (omega (arith, fits, n)) in
    let y = second x.after x.valid x.left (omega (arith, fits, n, x.low)) in
    record {
      after = y.after;
      returns = rw x.returns y.returns;
      valid = y.valid;
      left = y.left;
      low = omega (arith, n, x.low, y.low);
      content = y.content ∙ ap (λ xs. xs ++ t) x.content ∙ append_assoc (to_string_piece b) s t;
    }

nothing-Appends : Appends [] ok
nothing-Appends b v h fits = record {
  after = b;
  returns = refl;
  valid = v;
  left = h;
  low = omega arith;
  content = sym (append-nil (to_string_piece b));
}

-- The lines of the headers.
abbrev pub headers_text : List (Bytes × Bytes) → Bytes
headers_text [] = []
headers_text ((k, v) ∷ hs) = (((k ++ codes ": ") ++ v) ++ crlf) ++ headers_text hs

append_headers-Appends : (hs : List (Bytes × Bytes)) → Appends (headers_text hs) (append_headers hs)
unfolding append_headers
append_headers-Appends [] = nothing-Appends
append_headers-Appends ((k, v) ∷ hs) =
    then_Appends _ (headers_text hs) _ (append_headers hs)
      (then_Appends _ crlf _ (append_piece crlf)
        (then_Appends _ v _ (append_piece v)
          (then_Appends k (codes ": ") (append_piece k) (append_piece (codes ": "))
            (append-Appends k) (append-Appends (codes ": ")))
          (append-Appends v))
        (append-Appends crlf))
      (append_headers-Appends hs)

module _ (decimal : ℕ → Bytes) where
  -- The length of the body is given just where the connection stays open.
  abbrev pub length_text : HttpResponse → Bytes
  length_text r =
      if r.close_connection
      then codes "Connection: close" ++ crlf
      else (codes "Content-Length: " ++ (decimal (length r.body) ++ crlf))
        ++ (codes "Connection: Keep-Alive" ++ crlf)

  abbrev pub before_body : HttpResponse → Bytes
  before_body r =
      (((((codes "HTTP/1.1 " ++ (decimal r.status_code ++ codes " ")) ++ r.status_message) ++ crlf)
          ++ length_text r)
        ++ headers_text r.headers)
      ++ crlf

  -- Status line, headers, an empty line and the body.
  abbrev pub response_text : HttpResponse → Bytes
  response_text r = before_body r ++ r.body

  abbrev status_text : HttpResponse → Bytes
  status_text r = codes "HTTP/1.1 " ++ (decimal r.status_code ++ codes " ")

module _ (decimal : ℕ → Bytes) (short : (n : ℕ) → n < 2 ^ 31 → length (decimal n) ≤ 10) where
  append_length-Appends :
      (r : HttpResponse)
      → length r.body < 2 ^ 31
      → Appends (length_text decimal r) (append_length decimal r)
  unfolding append_length
  append_length-Appends r small = go r.close_connection
    where
      go :
          (close : Bool)
          → Appends
              (if close
                then codes "Connection: close" ++ crlf
                else (codes "Content-Length: " ++ (decimal (length r.body) ++ crlf))
                  ++ (codes "Connection: Keep-Alive" ++ crlf))
              (λ b.
                if close
                then append_piece (codes "Connection: close" ++ crlf) b
                else append_piece
                    (snprintf_32 (codes "Content-Length: " ++ (decimal (length r.body) ++ crlf)))
                    b
                  >>= append_piece (codes "Connection: Keep-Alive" ++ crlf))
      go true = append-Appends (codes "Connection: close" ++ crlf)
      go false =
          then_Appends _ _ _ (append_piece (codes "Connection: Keep-Alive" ++ crlf))
            (snprintf-Appends (codes "Content-Length: " ++ (decimal (length r.body) ++ crlf)) (
              omega (
                arith,
                short (length r.body) small,
                length-append (codes "Content-Length: ") (decimal (length r.body) ++ crlf),
                length-append (decimal (length r.body)) crlf,
              )))
            (append-Appends (codes "Connection: Keep-Alive" ++ crlf))

  status_line-Appends :
      (r : HttpResponse)
      → r.status_code < 2 ^ 31
      → Appends ((status_text decimal r ++ r.status_message) ++ crlf) (λ b.
        append_piece (snprintf_32 (status_text decimal r)) b
        >>= append_piece r.status_message
        >>= append_piece crlf)
  status_line-Appends r small =
      then_Appends _ crlf _ (append_piece crlf)
        (then_Appends (status_text decimal r) r.status_message
          (append_piece (snprintf_32 (status_text decimal r))) (append_piece r.status_message)
          (snprintf-Appends (status_text decimal r) (
            omega (
              arith,
              short r.status_code small,
              length-append (codes "HTTP/1.1 ") (decimal r.status_code ++ codes " "),
              length-append (decimal r.status_code) (codes " "),
            )))
          (append-Appends r.status_message))
        (append-Appends crlf)

  append_to_buffer-Appends :
      (r : HttpResponse)
      → r.status_code < 2 ^ 31
      → length r.body < 2 ^ 31
      → Appends (response_text decimal r) (append_to_buffer decimal r)
  unfolding append_to_buffer
  append_to_buffer-Appends r code small =
      then_Appends _ r.body _ (append_piece r.body)
        (then_Appends _ crlf _ (append_piece crlf)
          (then_Appends _ (headers_text r.headers) _ (append_headers r.headers)
            (then_Appends _ (length_text decimal r) _ (append_length decimal r)
              (status_line-Appends r code) (append_length-Appends r small))
            (append_headers-Appends r.headers))
          (append-Appends crlf))
        (append-Appends r.body)

  -- `appendToBuffer` on a valid buffer with the room for headers, where all stays below 2 ^ 31 bytes and
  -- numbers below 2 ^ 31 are printed in at most ten bytes, fails no assertion, keeps the invariant, and
  -- adds the text of the response: status line, the connection header with the length of the body
  -- where the connection stays open, the headers in their order, an empty line and the body.
  pub append_to_buffer_lem :
      (r : HttpResponse) (b : Buffer)
      → IsValid b
      → cheap_prepend ≤ b.reader_index
      → r.status_code < 2 ^ 31
      → b.writer_index + length (response_text decimal r) < 2 ^ 31
      → (b' : Buffer) × (append_to_buffer decimal r b ≡ ok b')
        × IsValid b'
        × (to_string_piece b' ≡ to_string_piece b ++ response_text decimal r)
  append_to_buffer_lem r b v h code fits =
      let x =
        append_to_buffer-Appends r code
          (omega (arith, fits, length-append (before_body decimal r) r.body)) b v h fits in
      (x.after, x.returns, x.valid, x.content)
