-- ===== src/Http/Context.antt =====
-- muduo/net/http/HttpContext.h and HttpContext.cc: the parser of a request, line by line, over the
-- buffer. The loop of `parseRequest` takes fuel; in the states `expect_body` and `got_all` the code
-- loops for ever.
pub mod Lines
pub mod Total
pub mod Times
pub mod Chunks
pub mod RoundTrip
mod Tests
use my_cisdi_code.Prelude.{
  Bool, Bytes, Fault, Result, [], codes, drop, equal, false, fault, if◌then◌else◌, length, none, ok,
  some, suc, take, true, zero, ℕ, ◌&&◌, ◌+◌, ◌-◌, ◌==◌, ◌>>=◌, ◌>>◌, ◌∷◌,
}
use my_cisdi_code.Buffer.{Buffer, retrieve_until}
use my_cisdi_code.Buffer.Search.{find_crlf}
use my_cisdi_code.Http.Request.{HttpRequest, add_header, http10, http11, new_request, set_method}

pub data HttpRequestParseState : Type 0 where
  expect_request_line expect_headers expect_body got_all : HttpRequestParseState

pub record HttpContext : Type 0 where
  pub state : HttpRequestParseState
  pub request : HttpRequest

-- The constructor, and what `reset` leaves.
abbrev pub new_context : HttpContext
new_context = record { state = expect_request_line; request = new_request }

unfoldable pub reset : HttpContext → HttpContext
reset c = new_context

-- `std::find`: the offset of the first `c`, or of the end.
unfoldable pub find : ℕ → Bytes → ℕ
find c [] = 0
find c (x ∷ xs) = if x == c then 0 else suc (find c xs)

unfoldable pub set_target : Bytes → HttpRequest → HttpRequest
set_target target r =
    let question = find b'?' target in
    if question == length target
    then record r { path = target }
    else record r { path = take question target; query = drop question target }

unfoldable pub process_version : Bytes → HttpRequest → Bool × HttpRequest
process_version text r =
    if (length text == 8) && equal (take 7 text) (codes "HTTP/1.")
    then (if equal (drop 7 text) (codes "1")
        then (true, record r { version = http11 })
        else if equal (drop 7 text) (codes "0")
        then (true, record r { version = http10 })
        else (false, r))
    else (false, r)

-- What follows the method: the target and the version.
unfoldable pub process_target : Bytes → HttpRequest → Bool × HttpRequest
unfolding set_target process_version
process_target text r =
    let space = find b' ' text in
    if space == length text
    then (false, r)
    else process_version (drop (space + 1) text) (set_target (take space text) r)

unfoldable pub process_request_line : Bytes → HttpRequest → Result (Bool × HttpRequest)
unfolding set_method process_target
process_request_line line r =
    let space = find b' ' line in
    if space == length line then ok (false, r) else do
      (known, r') ← set_method (take space line) r
      ok (if known then process_target (drop (space + 1) line) r' else (false, r'))

-- What `parseRequest` yields: its result with the context and the buffer, or a failed assertion.
pub data Parse : Type 0 where
  done : Bool → HttpContext → Buffer → Parse
  failed : Fault → Parse
  out_of_fuel : Parse

-- The bytes from `peek()` to the offset `crlf`.
abbrev pub line_before : ℕ → Buffer → Bytes
line_before crlf b = take (crlf - b.reader_index) (drop b.reader_index b.buffer)

abbrev pub then_parse : Result Buffer → (Buffer → Parse) → Parse
then_parse (ok b) k = k b
then_parse (fault e) k = failed e

module _ (continue : HttpContext → Buffer → Parse) where
  unfoldable pub after_request_line :
      ℕ → ℕ → HttpContext → Buffer → Result (Bool × HttpRequest) → Parse
  after_request_line time crlf c b (fault e) = failed e
  after_request_line time crlf c b (ok (false, r)) = done false (record c { request = r }) b
  after_request_line time crlf c b (ok (true, r)) = then_parse (retrieve_until (crlf + 2) b) λ b'.
      continue (record { state = expect_headers; request = record r { receive_time = time } }) b'

  unfoldable pub take_header : ℕ → HttpContext → Buffer → Parse
  take_header crlf c b =
      let line = line_before crlf b in
      let colon = find b':' line in
      if colon == length line
      then then_parse (retrieve_until (crlf + 2) b)
          (λ b'. done true (record c { state = got_all }) b')
      else then_parse (retrieve_until (crlf + 2) b)
          λ b'. continue (record c { request = add_header line colon c.request }) b'

  -- The body of the loop.
  unfoldable pub parse_step : HttpRequestParseState → ℕ → HttpContext → Buffer → Parse
  unfolding after_request_line take_header
  parse_step expect_request_line time c b = elim (find_crlf b) [
    | none ↦ done true c b
    | some crlf ↦
        after_request_line time crlf c b (process_request_line (line_before crlf b) c.request)
  ]
  parse_step expect_headers time c b = elim (find_crlf b) [
    | none ↦ done true c b
    | some crlf ↦ take_header crlf c b
  ]
  parse_step expect_body time c b = continue c b
  parse_step got_all time c b = continue c b

unfoldable pub parse_request : ℕ → ℕ → HttpContext → Buffer → Parse
unfolding parse_step
parse_request zero time c b = out_of_fuel
parse_request (suc fuel) time c b = parse_step (parse_request fuel time) c.state time c b
