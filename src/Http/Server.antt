-- ===== src/Http/Server.antt =====
-- muduo/net/http/HttpResponse.h, HttpResponse.cc, HttpServer.h and HttpServer.cc: the answer to a request,
-- and what the server does with the bytes of a connection. How `snprintf` writes a number is an argument.
pub mod Response
pub mod Answer
mod Tests
use my_cisdi_code.Prelude.{
  Bool, Bytes, Fault, List, Result, [], codes, equal, false, fault, if◌then◌else◌, leb, length, ltb,
  not, ok, out_of_bounds, take, true, ℕ, ◌%◌, ◌&&◌, ◌++◌, ◌+◌, ◌-◌, ◌==◌, ◌>>=◌, ◌>>◌, ◌^◌, ◌||◌,
  ◌∷◌,
}
use my_cisdi_code.Buffer.{
  Buffer, append, ensure_writable_bytes, init, initial_size, to_string_piece,
}
use my_cisdi_code.Http.Request.{HttpRequest, Version, get_header, http10}
use my_cisdi_code.Http.Context.{
  HttpContext, HttpRequestParseState, Parse, done, failed, got_all, new_context, out_of_fuel,
  parse_request,
}

pub record HttpResponse : Type 0 where
  -- `headers_`, in the order of the fields.
  pub headers : List (Bytes × Bytes)
  pub status_code : ℕ
  pub status_message : Bytes
  pub close_connection : Bool
  pub body : Bytes

abbrev pub k_unknown : ℕ
k_unknown = 0

abbrev pub k_404_not_found : ℕ
k_404_not_found = 404

abbrev pub new_response : Bool → HttpResponse
new_response close = record {
  headers = [];
  status_code = k_unknown;
  status_message = [];
  close_connection = close;
  body = [];
}

-- The order of `std::string`.
unfoldable pub less : Bytes → Bytes → Bool
less xs [] = false
less [] (y ∷ ys) = true
less (x ∷ xs) (y ∷ ys) = ltb x y || ((x == y) && less xs ys)

-- `headers_[key] = value`
unfoldable pub put_sorted : Bytes → Bytes → List (Bytes × Bytes) → List (Bytes × Bytes)
unfolding less
put_sorted key value [] = (key, value) ∷ []
put_sorted key value ((k, v) ∷ rest) =
    if equal k key
    then (key, value) ∷ rest
    else if less key k
    then (key, value) ∷ (k, v) ∷ rest
    else (k, v) ∷ put_sorted key value rest

unfoldable pub add_response_header : Bytes → Bytes → HttpResponse → HttpResponse
unfolding put_sorted
add_response_header key value r = record r { headers = put_sorted key value r.headers }

abbrev pub set_content_type : Bytes → HttpResponse → HttpResponse
unfolding add_response_header
set_content_type content_type = add_response_header (codes "Content-Type") content_type

abbrev pub crlf : Bytes
crlf = b'\r' ∷ b'\n' ∷ []

-- The length of a StringPiece is an `int`, which `append` takes as a `size_t`.
abbrev pub piece_size : ℕ → ℕ
piece_size n = if ltb (n % 2 ^ 32) (2 ^ 31) then n % 2 ^ 32 else 2 ^ 64 - 2 ^ 32 + n % 2 ^ 32

-- `append(const StringPiece&)`: with a size beyond the text, what is behind the text would be read.
unfoldable pub append_piece : Bytes → Buffer → Result Buffer
append_piece text b =
    let size = piece_size (length text) in
    if leb size (length text)
    then append (take size text) b
    else (do b' ← ensure_writable_bytes size b; fault out_of_bounds)

-- `snprintf(buf, sizeof buf, ...)` with `char buf[32]`.
abbrev pub snprintf_32 : Bytes → Bytes
snprintf_32 text = take 31 text

-- The loop over the headers.
unfoldable pub append_headers : List (Bytes × Bytes) → Buffer → Result Buffer
unfolding append_piece
append_headers [] b = ok b
append_headers ((k, v) ∷ hs) b =
    append_piece k b
    >>= append_piece (codes ": ")
    >>= append_piece v
    >>= append_piece crlf
    >>= append_headers hs

-- What a handler asks of the connection.
pub data Effect : Type 0 where
  sent : Bytes → Effect
  shut_down : Effect

abbrev pub effect_if : Bool → Effect → List Effect
effect_if true e = e ∷ []
effect_if false e = []

abbrev pub is_http10 : Version → Bool
is_http10 http10 = true
is_http10 _ = false

unfoldable pub wants_close : HttpRequest → Bool
wants_close req =
    let connection = get_header (codes "Connection") req.headers in
    equal connection (codes "close")
    || (is_http10 req.version && not (equal connection (codes "Keep-Alive")))

-- What `onMessage` yields: the context, the buffer and the effects.
pub data Handled : Type 0 where
  handled : HttpContext → Buffer → List Effect → Handled
  faulty : Fault → Handled
  no_fuel : Handled

abbrev pub bad_request : List Effect
bad_request = sent (codes "HTTP/1.1 400 Bad Request" ++ (crlf ++ crlf)) ∷ shut_down ∷ []

abbrev pub after_request : List Effect → Buffer → Result (List Effect) → Handled
after_request es b (ok es') = handled new_context b (es ++ es')
after_request es b (fault e) = faulty e

module _ (decimal : ℕ → Bytes) where
  unfoldable pub append_length : HttpResponse → Buffer → Result Buffer
  unfolding append_piece
  append_length r b =
      if r.close_connection
      then append_piece (codes "Connection: close" ++ crlf) b
      else append_piece
          (snprintf_32 (codes "Content-Length: " ++ (decimal (length r.body) ++ crlf))) b
        >>= append_piece (codes "Connection: Keep-Alive" ++ crlf)

  unfoldable pub append_to_buffer : HttpResponse → Buffer → Result Buffer
  unfolding append_headers append_piece append_length
  append_to_buffer r b =
      append_piece (snprintf_32 (codes "HTTP/1.1 " ++ (decimal r.status_code ++ codes " "))) b
      >>= append_piece r.status_message
      >>= append_piece crlf
      >>= append_length r
      >>= append_headers r.headers
      >>= append_piece crlf
      >>= append_piece r.body

  -- `HttpServer::onRequest`; the callback changes the response that it is given.
  unfoldable pub on_request :
      (HttpRequest → HttpResponse → HttpResponse) → HttpRequest → Result (List Effect)
  unfolding wants_close append_to_buffer
  on_request http_callback req = do
    let response = http_callback req (new_response (wants_close req))
    b ← init initial_size
    buf ← append_to_buffer response b
    ok (sent (to_string_piece buf) ∷ effect_if response.close_connection shut_down)

  -- `if (context->gotAll())`
  unfoldable pub answer :
      HttpRequestParseState
      → (HttpRequest → HttpResponse → HttpResponse)
      → HttpContext
      → Buffer
      → List Effect
      → Handled
  unfolding on_request
  answer got_all http_callback c b es = after_request es b (on_request http_callback c.request)
  answer _ http_callback c b es = handled c b es

  unfoldable pub after_parse : (HttpRequest → HttpResponse → HttpResponse) → Parse → Handled
  unfolding answer
  after_parse http_callback (done good c b) =
      answer c.state http_callback c b (if good then [] else bad_request)
  after_parse http_callback (failed e) = faulty e
  after_parse http_callback out_of_fuel = no_fuel

  unfoldable pub on_message :
      ℕ → ℕ → (HttpRequest → HttpResponse → HttpResponse) → HttpContext → Buffer → Handled
  unfolding after_parse
  on_message fuel time http_callback c b = after_parse http_callback (parse_request fuel time c b)

-- The callback of a server that was given none.
abbrev pub default_http_callback : HttpRequest → HttpResponse → HttpResponse
default_http_callback req resp = record resp {
  status_code = k_404_not_found;
  status_message = codes "Not Found";
  close_connection = true;
}
