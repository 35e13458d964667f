-- ===== src/Http/Context/Lines.antt =====
-- The parser seen as a function of the bytes: the specification that `parse_request` is proved to
-- implement over the buffer.
use native.Mathlib.Nat.{add_assoc}
use my_cisdi_code.Prelude.{
  Bool, Bool-cases, Bytes, Fault, Option, Result, [], ap, arith, drop, drop-append, drop-drop,
  false, fault, if◌then◌else◌, inl, inr, length, length-append, none, ok, refl, some, suc, sym,
  take, take-append, take-take, true, zero, ℕ, ◌&&◌, ◌++◌, ◌+◌, ◌-◌, ◌==◌, ◌∙◌, ◌∷◌, ◌≡◌, ◌≤◌,
}
use my_cisdi_code.Buffer.{Buffer, readable_bytes, retrieve_until, to_string_piece}
use my_cisdi_code.Buffer.Invariant.{IsValid, length-to_string_piece, readable_bytes_lem}
use my_cisdi_code.Buffer.Retrieve.{retrieve_until_lem}
use my_cisdi_code.Buffer.Search.{find_crlf, search_crlf}
use my_cisdi_code.Http.Request.{HttpRequest, add_header}
use my_cisdi_code.Http.Context.{
  HttpContext, HttpRequestParseState, Parse, after_request_line, done, expect_body, expect_headers,
  expect_request_line, failed, find, got_all, line_before, out_of_fuel, parse_request, parse_step,
  process_request_line, take_header,
}

abbrev pub longer : ℕ → Option (Bytes × Bytes) → Option (Bytes × Bytes)
longer x none = none
longer x (some (line, rest)) = some (x ∷ line, rest)

-- The first line and what follows its "\r\n".
unfoldable pub split_crlf : Bytes → Option (Bytes × Bytes)
split_crlf [] = none
split_crlf (x ∷ []) = none
split_crlf (x ∷ y ∷ rest) =
    let later = split_crlf (y ∷ rest) in
    if (x == b'\r') && (y == b'\n') then some ([], rest) else longer x later

pub data Reading : Type 0 where
  read : Bool → HttpContext → Bytes → Reading
  fails : Fault → Reading
  starved : Reading

module _ (continue : HttpContext → Bytes → Reading) where
  unfoldable pub after_line :
      ℕ → HttpContext → Bytes → Bytes → Result (Bool × HttpRequest) → Reading
  after_line time c xs rest (fault e) = fails e
  after_line time c xs rest (ok (false, r)) = read false (record c { request = r }) xs
  after_line time c xs rest (ok (true, r)) =
      continue (record { state = expect_headers; request = record r { receive_time = time } }) rest

  unfoldable pub header_line : HttpContext → Bytes → Bytes → Reading
  header_line c line rest =
      if find b':' line == length line
      then read true (record c { state = got_all }) rest
      else continue (record c { request = add_header line (find b':' line) c.request }) rest

  unfoldable pub read_line :
      HttpRequestParseState → ℕ → HttpContext → Bytes → Option (Bytes × Bytes) → Reading
  unfolding after_line header_line
  read_line expect_body time c xs o = continue c xs
  read_line got_all time c xs o = continue c xs
  read_line expect_request_line time c xs none = read true c xs
  read_line expect_headers time c xs none = read true c xs
  read_line expect_request_line time c xs (some (line, rest)) =
      after_line time c xs rest (process_request_line line c.request)
  read_line expect_headers time c xs (some (line, rest)) = header_line c line rest

unfoldable pub read_request : ℕ → ℕ → HttpContext → Bytes → Reading
unfolding read_line
read_request zero time c xs = starved
read_request (suc fuel) time c xs =
    read_line (read_request fuel time) c.state time c xs (split_crlf xs)

abbrev pub Splits : Bytes → Option (Bytes × Bytes) → Type 0
Splits xs none = Unit {0}
Splits xs (some (line, rest)) = xs ≡ line ++ (b'\r' ∷ b'\n' ∷ rest)

abbrev place_of : ℕ → Option (Bytes × Bytes) → Option ℕ
place_of i none = none
place_of i (some (line, rest)) = some (i + length line)

longer-Splits :
    (x : ℕ) (xs : Bytes) (o : Option (Bytes × Bytes)) → Splits xs o → Splits (x ∷ xs) (longer x o)
longer-Splits x xs none h = tt
longer-Splits x xs (some (line, rest)) h = ap (◌∷◌ x) h

pub split_crlf-Splits : (xs : Bytes) → Splits xs (split_crlf xs)
unfolding split_crlf
split_crlf-Splits [] = tt
split_crlf-Splits (x ∷ []) = tt
split_crlf-Splits (x ∷ y ∷ rest) = elim (Bool-cases ((x == b'\r') && (y == b'\n'))) [
  | inl hit ↦ rw hit (ground arith)
  | inr miss ↦ rw miss (longer-Splits x (y ∷ rest) _ (split_crlf-Splits (y ∷ rest)))
]

place_of-longer :
    (i x : ℕ) (o : Option (Bytes × Bytes)) → place_of (i + 1) o ≡ place_of i (longer x o)
place_of-longer i x none = refl
place_of-longer i x (some (line, rest)) = ap some (omega arith)

-- `findCRLF` points to the end of the first line.
search_crlf-split_crlf : (i : ℕ) (xs : Bytes) → search_crlf i xs ≡ place_of i (split_crlf xs)
unfolding search_crlf split_crlf
search_crlf-split_crlf i [] = refl
search_crlf-split_crlf i (x ∷ []) = refl
search_crlf-split_crlf i (x ∷ y ∷ rest) = elim (Bool-cases ((x == b'\r') && (y == b'\n'))) [
  | inl hit ↦ rw hit (ap some (omega arith))
  | inr miss ↦
      rw miss
        (search_crlf-split_crlf (i + 1) (y ∷ rest) ∙ place_of-longer i x (split_crlf (y ∷ rest)))
]

abbrev pub Agrees : Parse → Reading → Type 0
Agrees (done k c b) (read k' c' xs) = (k ≡ k') × (c ≡ c') × IsValid b × (to_string_piece b ≡ xs)
Agrees (failed e) (fails e') = e ≡ e'
Agrees out_of_fuel starved = Unit {0}
Agrees _ _ = ⊥

-- What the buffer yields at a "\r\n": the line, and the buffer behind it.
record LineTaken (b : Buffer) (line rest : Bytes) : Type 0 where
  found : find_crlf b ≡ some (b.reader_index + length line)
  line_is : line_before (b.reader_index + length line) b ≡ line
  after : Buffer
  retrieved : retrieve_until (b.reader_index + length line + 2) b ≡ ok after
  valid : IsValid after
  content : to_string_piece after ≡ rest

take_line :
    (b : Buffer) (line rest : Bytes)
    → IsValid b
    → split_crlf (to_string_piece b) ≡ some (line, rest)
    → LineTaken b line rest
take_line b line rest v e = record {
  found =
      unfold find_crlf in
      (search_crlf-split_crlf b.reader_index (to_string_piece b) ∙ ap (place_of b.reader_index) e);
  line_is =
      let k : b.reader_index + length line - b.reader_index ≡ length line = omega arith in
      ap (λ k. take k (drop b.reader_index b.buffer)) k
      ∙ sym (
          take-take (length line) (readable_bytes b) (drop b.reader_index b.buffer)
            (omega (arith, n)))
      ∙ ap (take (length line)) splits
      ∙ take-append (length line) line _ refl;
  after = taken.0;
  retrieved = ap (λ k. retrieve_until k b) (add_assoc b.reader_index (length line) 2) ∙ taken.1;
  valid = taken.2;
  content =
      taken.3
      ∙ ap (drop (length line + 2)) splits
      ∙ sym (drop-drop (length line) 2 (length line + 2) (line ++ (b'\r' ∷ b'\n' ∷ rest)) refl)
      ∙ ap (drop 2) (drop-append (length line) line _ refl);
}
  where
    splits : to_string_piece b ≡ line ++ (b'\r' ∷ b'\n' ∷ rest)
    splits = rw e at (split_crlf-Splits (to_string_piece b))

    n : length line + 2 ≤ readable_bytes b
    n = omega (
      arith,
      readable_bytes_lem b v,
      length-to_string_piece b v,
      ap length splits,
      length-append line (b'\r' ∷ b'\n' ∷ rest),
    )

    taken :
        (b' : Buffer) × (retrieve_until (b.reader_index + (length line + 2)) b ≡ ok b')
        × IsValid b'
        × (to_string_piece b' ≡ drop (length line + 2) (to_string_piece b))
    taken = retrieve_until_lem (length line + 2) b v n

no_line : (b : Buffer) → split_crlf (to_string_piece b) ≡ none → find_crlf b ≡ none
unfolding find_crlf
no_line b e =
    search_crlf-split_crlf b.reader_index (to_string_piece b) ∙ ap (place_of b.reader_index) e

module _ (continue : HttpContext → Buffer → Parse) (continue' : HttpContext → Bytes → Reading)
    (agrees : (c : HttpContext) (b : Buffer)
      → IsValid b
      → Agrees (continue c b) (continue' c (to_string_piece b))) where
  continue-Agrees :
      (c : HttpContext) (b : Buffer) (xs : Bytes)
      → IsValid b
      → to_string_piece b ≡ xs
      → Agrees (continue c b) (continue' c xs)
  continue-Agrees c b xs v e = rw (← e) (agrees c b v)

  after_line-Agrees :
      (time : ℕ) (c : HttpContext) (b : Buffer) (line rest : Bytes)
      → IsValid b
      → LineTaken b line rest
      → (p : Result (Bool × HttpRequest))
      → Agrees
          (after_request_line continue time (b.reader_index + length line) c b p)
          (after_line continue' time c (to_string_piece b) rest p)
  unfolding after_request_line after_line
  after_line-Agrees time c b line rest v t (fault e) = refl
  after_line-Agrees time c b line rest v t (ok (false, r)) = (refl, refl, v, refl)
  after_line-Agrees time c b line rest v t (ok (true, r)) =
      rw t.retrieved (continue-Agrees _ t.after rest t.valid t.content)

  take_header-Agrees :
      (c : HttpContext) (b : Buffer) (line rest : Bytes)
      → LineTaken b line rest
      → Agrees
          (take_header continue (b.reader_index + length line) c b)
          (header_line continue' c line rest)
  unfolding take_header header_line
  take_header-Agrees c b line rest t = elim (Bool-cases (find b':' line == length line)) [
    | inl last ↦ rw (t.line_is, last, t.retrieved) (refl, refl, t.valid, t.content)
    | inr more ↦
        rw (t.line_is, more, t.retrieved) (continue-Agrees _ t.after rest t.valid t.content)
  ]

  step-Agrees :
      (s : HttpRequestParseState) (time : ℕ) (c : HttpContext) (b : Buffer)
      → IsValid b
      → (o : Option (Bytes × Bytes)) → split_crlf (to_string_piece b) ≡ o
      → Agrees (parse_step continue s time c b) (read_line continue' s time c (to_string_piece b) o)
  unfolding parse_step read_line
  step-Agrees expect_body time c b v o e = agrees c b v
  step-Agrees got_all time c b v o e = agrees c b v
  step-Agrees expect_request_line time c b v none e = rw (no_line b e, Agrees) (refl, refl, v, refl)
  step-Agrees expect_headers time c b v none e = rw (no_line b e, Agrees) (refl, refl, v, refl)
  step-Agrees expect_request_line time c b v (some (line, rest)) e =
      let t = take_line b line rest v e in
      rw (t.found, t.line_is, Agrees)
        (after_line-Agrees time c b line rest v t (process_request_line line c.request))
  step-Agrees expect_headers time c b v (some (line, rest)) e =
      let t = take_line b line rest v e in rw (t.found, Agrees) (take_header-Agrees c b line rest t)

-- The loop over the buffer implements the loop over its content, with the same fuel: the same
-- context, the same failures, and a valid buffer that holds what is not yet read.
pub parse_request-Agrees :
    (fuel time : ℕ) (c : HttpContext) (b : Buffer)
    → IsValid b
    → Agrees (parse_request fuel time c b) (read_request fuel time c (to_string_piece b))
unfolding parse_request read_request
parse_request-Agrees zero time c b v = tt
parse_request-Agrees (suc fuel) time c b v =
    step-Agrees (parse_request fuel time) (read_request fuel time)
      (λ c b v. parse_request-Agrees fuel time c b v) c.state time c b v
      (split_crlf (to_string_piece b)) refl

-- One round of the loop on a complete line.
module _ (fuel time : ℕ) (c : HttpContext) (xs line rest : Bytes)
    (first : split_crlf xs ≡ some (line, rest)) where
  pub request_line_round :
      (r : HttpRequest)
      → c.state ≡ expect_request_line
      → process_request_line line c.request ≡ ok (true, r)
      → read_request (suc fuel) time c xs
        ≡ read_request fuel time
            (record { state = expect_headers; request = record r { receive_time = time } })
            rest
  unfolding read_request read_line after_line
  request_line_round r s e =
      ap (λ s. read_line (read_request fuel time) s time c xs (split_crlf xs)) s
      ∙ ap (λ o. read_line (read_request fuel time) expect_request_line time c xs o) first
      ∙ ap (after_line (read_request fuel time) time c xs rest) e

  pub header_round :
      c.state ≡ expect_headers
      → (find b':' line == length line) ≡ false
      → read_request (suc fuel) time c xs
        ≡ read_request fuel time
            (record c { request = add_header line (find b':' line) c.request })
            rest
  unfolding read_request read_line header_line
  header_round s e =
      ap (λ s. read_line (read_request fuel time) s time c xs (split_crlf xs)) s
      ∙ ap (λ o. read_line (read_request fuel time) expect_headers time c xs o) first
      ∙ rw e refl

  pub last_round :
      c.state ≡ expect_headers
      → (find b':' line == length line) ≡ true
      → read_request (suc fuel) time c xs ≡ read true (record c { state = got_all }) rest
  unfolding read_request read_line header_line
  last_round s e =
      ap (λ s. read_line (read_request fuel time) s time c xs (split_crlf xs)) s
      ∙ ap (λ o. read_line (read_request fuel time) expect_headers time c xs o) first
      ∙ rw e refl
