-- ===== src/Http/Context/RoundTrip.antt =====
-- A request that is written out as text is read back.
use mathlib.Core.List.{append-nil}
use my_cisdi_code.Prelude.{
  ==_of_eq, Bytes, List, [], ap, arith, codes, drop, drop-append, drop-drop, equal, false,
  get_elem?, length, length-append, ok, refl, some, subst, suc, sym, take, take-append, true, zero,
  ℕ, ◌++◌, ◌+◌, ◌<◌, ◌==◌, ◌∙◌, ◌∷◌, ◌≡◌, ◌≢◌, ◌⊎◌,
}
use my_cisdi_code.Http.Request.{
  HttpRequest, Method, Version, add_header, delete, get, head, header_value, http10, http11,
  invalid, is_invalid, is_space, method_of, method_string, new_request, post, put, put_header,
  set_method, skip_spaces, trim_end, unknown,
}
use my_cisdi_code.Http.Context.{
  HttpContext, Parse, done, expect_headers, failed, find, got_all, new_context, out_of_fuel,
  parse_request, process_request_line, process_target, process_version, set_target,
}
use my_cisdi_code.Http.Context.Lines.{
  Agrees, header_round, last_round, parse_request-Agrees, read, read_request, request_line_round,
  split_crlf,
}
use my_cisdi_code.Buffer.{Buffer, to_string_piece}
use my_cisdi_code.Buffer.Invariant.{IsValid}

-- `c` does not stand in the text.
abbrev pub Lacks : ℕ → Bytes → Type 0
Lacks c [] = Unit {0}
Lacks c (x ∷ xs) = (x ≢ c) × Lacks c xs

abbrev pub StartsVisible : Bytes → Type 0
StartsVisible [] = Unit {0}
StartsVisible (c ∷ cs) = is_space c ≡ false

abbrev pub EndsVisible : Bytes → Type 0
EndsVisible [] = Unit {0}
EndsVisible (c ∷ []) = is_space c ≡ false
EndsVisible (c ∷ d ∷ cs) = EndsVisible (d ∷ cs)

-- A header field and its value, as a client writes them.
pub record IsHeader (field value : Bytes) : Type 0 where
  pub no_colon : Lacks b':' field
  pub field_line : Lacks b'\r' field
  pub value_line : Lacks b'\r' value
  pub starts : StartsVisible value
  pub ends : EndsVisible value

abbrev pub AreHeaders : List (Bytes × Bytes) → Type 0
AreHeaders [] = Unit {0}
AreHeaders ((f, v) ∷ hs) = IsHeader f v × AreHeaders hs

-- The path has no blank and no "?", and the query is empty or begins with "?".
pub record IsTarget (path query : Bytes) : Type 0 where
  pub path_blank : Lacks b' ' path
  pub path_mark : Lacks b'?' path
  pub path_line : Lacks b'\r' path
  pub query_blank : Lacks b' ' query
  pub query_line : Lacks b'\r' query
  pub query_mark : (query ≡ []) ⊎ ((rest : Bytes) × (query ≡ b'?' ∷ rest))

abbrev pub crlf : Bytes
crlf = b'\r' ∷ b'\n' ∷ []

abbrev pub version_text : Version → Bytes
version_text http11 = codes "HTTP/1.1"
version_text http10 = codes "HTTP/1.0"
version_text unknown = []

abbrev pub request_line : HttpRequest → Bytes
request_line r =
    method_string r.method ++ (b' ' ∷ ((r.path ++ r.query) ++ (b' ' ∷ version_text r.version)))

abbrev pub header_text : Bytes → Bytes → Bytes
header_text f v = f ++ (b':' ∷ b' ' ∷ v)

abbrev pub headers_text : List (Bytes × Bytes) → Bytes → Bytes
headers_text [] rest = b'\r' ∷ b'\n' ∷ rest
headers_text ((f, v) ∷ hs) rest = header_text f v ++ (b'\r' ∷ b'\n' ∷ headers_text hs rest)

abbrev pub put_headers : List (Bytes × Bytes) → List (Bytes × Bytes) → List (Bytes × Bytes)
put_headers [] acc = acc
put_headers ((f, v) ∷ hs) acc = put_headers hs (put_header f v acc)

Lacks-append : (c : ℕ) (xs ys : Bytes) → Lacks c xs → Lacks c ys → Lacks c (xs ++ ys)
Lacks-append c [] ys h k = k
Lacks-append c (x ∷ xs) ys h k = (h.0, Lacks-append c xs ys h.1 k)

find-Lacks : (c : ℕ) (xs : Bytes) → Lacks c xs → find c xs ≡ length xs
unfolding find
find-Lacks c [] h = refl
find-Lacks c (x ∷ xs) h = ground (arith, find-Lacks c xs h.1)

find-append : (c : ℕ) (xs ys : Bytes) → Lacks c xs → find c (xs ++ (c ∷ ys)) ≡ length xs
unfolding find
find-append c [] ys h = ground arith
find-append c (x ∷ xs) ys h = ground (arith, find-append c xs ys h.1)

split_crlf_line :
    (line rest : Bytes)
    → Lacks b'\r' line
    → split_crlf (line ++ (b'\r' ∷ b'\n' ∷ rest)) ≡ some (line, rest)
unfolding split_crlf
split_crlf_line [] rest h = refl
split_crlf_line (x ∷ []) rest h = ground arith
split_crlf_line (x ∷ y ∷ line) rest h = ground (arith, split_crlf_line (y ∷ line) rest h.1)

skip_spaces_visible : (v : Bytes) → StartsVisible v → skip_spaces v ≡ v
unfolding skip_spaces
skip_spaces_visible [] h = refl
skip_spaces_visible (c ∷ cs) h = rw h

last_visible :
    (x : ℕ) (xs : Bytes)
    → EndsVisible (x ∷ xs)
    → (c : ℕ) × (get_elem? (x ∷ xs) (length xs) ≡ some c) × (is_space c ≡ false)
last_visible x [] h = (x, refl, h)
last_visible x (y ∷ xs) h = last_visible y xs h

trim_end_visible : (v : Bytes) → EndsVisible v → trim_end (length v) v ≡ v
unfolding trim_end
trim_end_visible [] h = refl
trim_end_visible (x ∷ xs) h = let (c, e, t) = last_visible x xs h in rw (e, trim_end, t)

header_value_blank : (v : Bytes) → StartsVisible v → EndsVisible v → header_value (b' ' ∷ v) ≡ v
unfolding header_value skip_spaces
header_value_blank v s e = rw (skip_spaces_visible v s) (trim_end_visible v e)

-- A header line adds its field and its value.
add_header_text :
    (f v : Bytes) (r : HttpRequest)
    → IsHeader f v
    → (find b':' (header_text f v) ≡ length f)
      × (add_header (header_text f v) (length f) r
          ≡ record r { headers = put_header f v r.headers })
unfolding add_header
add_header_text f v r h = (
  find-append b':' f (b' ' ∷ v) h.no_colon,
  rw (
    take-append (length f) f (b':' ∷ b' ' ∷ v) refl,
    sym (drop-drop (length f) 1 (length f + 1) (header_text f v) refl),
    drop-append (length f) f (b':' ∷ b' ' ∷ v) refl,
    header_value_blank v h.starts h.ends,
  ),
)

header_line-Lacks : (f v : Bytes) → IsHeader f v → Lacks b'\r' (header_text f v)
header_line-Lacks f v h =
    Lacks-append b'\r' f (b':' ∷ b' ' ∷ v) h.field_line (omega arith, (omega arith, h.value_line))

-- The rounds on the header lines.
headers_rounds :
    (hs : List (Bytes × Bytes)) (fuel time : ℕ) (c : HttpContext) (rest : Bytes)
    → AreHeaders hs
    → c.state ≡ expect_headers
    → length hs < fuel
    → read_request fuel time c (headers_text hs rest)
      ≡ read true
          (record {
            state = got_all;
            request = record (c.request) { headers = put_headers hs c.request.headers };
          })
          rest
headers_rounds hs zero time c rest h s n = absurd (omega arith)
headers_rounds [] (suc fuel) time c rest h s n =
    last_round fuel time c (headers_text [] rest) [] rest (split_crlf_line [] rest tt) s
      (unfold find in refl)
headers_rounds ((f, v) ∷ hs) (suc fuel) time c rest h s n =
    let (colon, added) = add_header_text f v c.request h.0 in
    header_round fuel time c (headers_text ((f, v) ∷ hs) rest) (header_text f v)
      (headers_text hs rest)
      (split_crlf_line (header_text f v) (headers_text hs rest) (header_line-Lacks f v h.0)) s
      (ground (arith, colon, length-append f (b':' ∷ b' ' ∷ v)))
    ∙ ap (λ r. read_request fuel time (record c { request = r }) (headers_text hs rest))
        (ap (λ k. add_header (header_text f v) k c.request) colon ∙ added)
    ∙ headers_rounds hs fuel time
        (record c { request = record (c.request) { headers = put_header f v c.request.headers } })
        rest h.1 s (omega arith)

Lacks-method : (m : Method) → Lacks b' ' (method_string m) × Lacks b'\r' (method_string m)
Lacks-method invalid = (omega arith, omega arith)
Lacks-method get = (omega arith, omega arith)
Lacks-method post = (omega arith, omega arith)
Lacks-method head = (omega arith, omega arith)
Lacks-method put = (omega arith, omega arith)
Lacks-method delete = (omega arith, omega arith)

-- `setMethod` reads back what `methodString` writes.
pub method_of-method_string : (m : Method) → method_of (method_string m) ≡ m
unfolding method_of equal
method_of-method_string invalid = refl
method_of-method_string get = refl
method_of-method_string post = refl
method_of-method_string head = refl
method_of-method_string put = refl
method_of-method_string delete = refl

-- What the code sees at the first `c`.
cut_at :
    (c : ℕ) (xs ys : Bytes)
    → Lacks c xs
    → ((find c (xs ++ (c ∷ ys)) == length (xs ++ (c ∷ ys))) ≡ false)
      × (take (find c (xs ++ (c ∷ ys))) (xs ++ (c ∷ ys)) ≡ xs)
      × (drop (find c (xs ++ (c ∷ ys)) + 1) (xs ++ (c ∷ ys)) ≡ ys)
cut_at c xs ys h =
    let f = find-append c xs ys h in
    (
      ground (arith, f, length-append xs (c ∷ ys)),
      ap (λ k. take k (xs ++ (c ∷ ys))) f ∙ take-append (length xs) xs (c ∷ ys) refl,
      ap (λ k. drop (k + 1) (xs ++ (c ∷ ys))) f
          ∙ sym (drop-drop (length xs) 1 (length xs + 1) (xs ++ (c ∷ ys)) refl)
          ∙ ap (drop 1) (drop-append (length xs) xs (c ∷ ys) refl),
    )

set_target_text :
    (path query : Bytes) (r : HttpRequest)
    → IsTarget path query
    → r.query ≡ []
    → set_target (path ++ query) r ≡ record r { path = path; query = query }
unfolding set_target
set_target_text path [] r h e =
    rw
      (append-nil path, find-Lacks b'?' path h.path_mark, ==_of_eq (length path) (length path) refl)
      (ap (λ q. record r { path = path; query = q }) e)
set_target_text path (x ∷ query) r h e =
    let mark : x ≡ b'?' = ground arith in
    let (found, before, _) = cut_at b'?' path query h.path_mark in
    let f = find-append b'?' path query h.path_mark in
    let after = drop-append (length path) path (b'?' ∷ query) refl in
    rw (mark, found, before, f, after) refl

process_version_text :
    (v : Version) (r : HttpRequest)
    → v ≢ unknown
    → process_version (version_text v) r ≡ (true, record r { version = v })
unfolding process_version equal
process_version_text unknown r h = absurd (h refl)
process_version_text http10 r h = refl
process_version_text http11 r h = refl

is_invalid-false : (m : Method) → m ≢ invalid → is_invalid m ≡ false
unfolding is_invalid
is_invalid-false invalid h = absurd (h refl)
is_invalid-false get h = refl
is_invalid-false _ h = refl

target_read :
    (path query : Bytes) (v : Version) (r : HttpRequest)
    → IsTarget path query
    → v ≢ unknown
    → r.query ≡ []
    → process_target ((path ++ query) ++ (b' ' ∷ version_text v)) r
      ≡ (true, record r { path = path; query = query; version = v })
unfolding process_target
target_read path query v r t h e =
    let (found, target, version) =
      cut_at b' ' (path ++ query) (version_text v)
        (Lacks-append b' ' path query t.path_blank t.query_blank) in
    rw (found, target, version, set_target_text path query r t e)
      (process_version_text v (record r { path = path; query = query }) h)

-- The request line of `r`, read into a fresh request.
request_line_read :
    (r : HttpRequest)
    → r.method ≢ invalid
    → r.version ≢ unknown
    → IsTarget r.path r.query
    → process_request_line (request_line r) new_request
      ≡ ok (true, record r { receive_time = 0; headers = [] })
unfolding process_request_line set_method is_invalid
request_line_read r m v t =
    let after = (r.path ++ r.query) ++ (b' ' ∷ version_text r.version) in
    let (found, name, target) =
      cut_at b' ' (method_string r.method) after (Lacks-method r.method).0 in
    let known : is_invalid r.method ≡ false = is_invalid-false r.method m in
    rw (found, name, method_of-method_string r.method, known, target)
      (ap ok
        (target_read r.path r.query r.version (record new_request { method = r.method }) t v refl))

Lacks-version : (v : Version) → Lacks b'\r' (version_text v)
Lacks-version unknown = tt
Lacks-version http10 = omega arith
Lacks-version http11 = omega arith

request_line-Lacks : (r : HttpRequest) → IsTarget r.path r.query → Lacks b'\r' (request_line r)
request_line-Lacks r t = Lacks-append b'\r' (method_string r.method) _ (Lacks-method r.method).1 (
  omega arith,
  Lacks-append b'\r' (r.path ++ r.query) _
      (Lacks-append b'\r' r.path r.query t.path_line t.query_line)
      (omega arith, Lacks-version r.version),
)

-- What `request` looks like on the wire, with `rest` behind it.
abbrev pub request_text : HttpRequest → List (Bytes × Bytes) → Bytes → Bytes
request_text r hs rest = request_line r ++ (b'\r' ∷ b'\n' ∷ headers_text hs rest)

Agrees-got_all :
    (p : Parse) (c : HttpContext) (rest : Bytes)
    → Agrees p (read true c rest)
    → (b' : Buffer) × (p ≡ done true c b') × IsValid b' × (to_string_piece b' ≡ rest)
Agrees-got_all (done k c' b') c rest a = (b', (λ i. done (a.0 i) (a.1 i) b'), a.2, a.3)
Agrees-got_all (failed e) c rest a = absurd a
Agrees-got_all out_of_fuel c rest a = absurd a

-- `parseRequest` reads a well-formed request back, whatever follows it in the buffer: it succeeds
-- with `gotAll()`, the request has the method, path, query and version that were written and each
-- header with its value, and the buffer holds just what follows.
pub parse_request-request_text :
    (fuel time : ℕ) (r : HttpRequest) (hs : List (Bytes × Bytes)) (rest : Bytes) (b : Buffer)
    → IsValid b
    → r.method ≢ invalid
    → r.version ≢ unknown
    → IsTarget r.path r.query
    → AreHeaders hs
    → to_string_piece b ≡ request_text r hs rest
    → length hs + 1 < fuel
    → (b' : Buffer) × (parse_request fuel time new_context b
        ≡ done true
            (record {
              state = got_all;
              request = record r { receive_time = time; headers = put_headers hs [] };
            })
            b')
      × IsValid b'
      × (to_string_piece b' ≡ rest)
parse_request-request_text fuel time r hs rest b v m ver t h e n =
    Agrees-got_all (parse_request fuel time new_context b) _ rest (
      subst (Agrees (parse_request fuel time new_context b))
        (ap (read_request fuel time new_context) e ∙ rounds fuel n)
        (parse_request-Agrees fuel time new_context b v))
  where
    line : Lacks b'\r' (request_line r)
    line = request_line-Lacks r t

    rounds :
        (fuel : ℕ)
        → length hs + 1 < fuel
        → read_request fuel time new_context (request_text r hs rest)
          ≡ read true
              (record {
                state = got_all;
                request = record r { receive_time = time; headers = put_headers hs [] };
              })
              rest
    rounds zero n = absurd (omega arith)
    rounds (suc fuel) n =
        request_line_round fuel time new_context (request_text r hs rest) (request_line r)
          (headers_text hs rest) (split_crlf_line (request_line r) (headers_text hs rest) line)
          (record r { receive_time = 0; headers = [] }) refl (request_line_read r m ver t)
        ∙ headers_rounds hs fuel time
            (record {
              state = expect_headers;
              request = record r { receive_time = time; headers = [] };
            })
            rest h refl (omega arith)
