-- ===== src/Http/Request.antt =====
-- muduo/net/http/HttpRequest.h. Text is a list of bytes. The map of headers is an association list
-- with one entry for a field; the order of `std::map` is not kept, since nothing here walks it.
use my_cisdi_code.Prelude.{
  Bool, Bytes, List, Result, [], arith, check, codes, drop, equal, equal_iff, false, get_elem?,
  if◌then◌else◌, leb, length, none, not, ok, refl, some, suc, take, true, zero, ℕ, ◌&&◌, ◌+◌, ◌==◌,
  ◌>>◌, ◌||◌, ◌∷◌, ◌≡◌,
}

pub data Method : Type 0 where
  invalid get post head put delete : Method

pub data Version : Type 0 where
  unknown http10 http11 : Version

pub record HttpRequest : Type 0 where
  pub method : Method
  pub version : Version
  pub path : Bytes
  pub query : Bytes
  pub receive_time : ℕ
  pub headers : List (Bytes × Bytes)

abbrev pub new_request : HttpRequest
new_request = record {
  method = invalid;
  version = unknown;
  path = [];
  query = [];
  receive_time = 0;
  headers = [];
}

-- `methodString`
abbrev pub method_string : Method → Bytes
method_string get = codes "GET"
method_string post = codes "POST"
method_string head = codes "HEAD"
method_string put = codes "PUT"
method_string delete = codes "DELETE"
method_string invalid = codes "UNKNOWN"

-- The comparisons of `setMethod`.
unfoldable pub method_of : Bytes → Method
method_of m =
    if equal m (codes "GET")
    then get
    else if equal m (codes "POST")
    then post
    else if equal m (codes "HEAD")
    then head
    else if equal m (codes "PUT")
    then put
    else if equal m (codes "DELETE")
    then delete
    else invalid

unfoldable pub is_invalid : Method → Bool
is_invalid invalid = true
is_invalid _ = false

unfoldable pub set_method : Bytes → HttpRequest → Result (Bool × HttpRequest)
set_method m r = do
  check (is_invalid r.method)
  ok (not (is_invalid (method_of m)), record r { method = method_of m })

-- `isspace` in the C locale.
abbrev pub is_space : ℕ → Bool
is_space c = (c == b' ') || (leb b'\t' c && leb c b'\r')

-- `while (colon < end && isspace(*colon)) ++colon;`
unfoldable pub skip_spaces : Bytes → Bytes
skip_spaces [] = []
skip_spaces (c ∷ cs) = let rest = skip_spaces cs in if is_space c then rest else c ∷ cs

-- `while (!value.empty() && isspace(value[value.size()-1])) value.resize(value.size()-1);`, with the
-- size of the value.
unfoldable pub trim_end : ℕ → Bytes → Bytes
trim_end zero value = value
trim_end (suc n) value = elim (get_elem? value n) [
  | none ↦ value
  | some c ↦ let shorter = trim_end n (take n value) in if is_space c then shorter else value
]

-- `headers_[field] = value`
unfoldable pub put_header : Bytes → Bytes → List (Bytes × Bytes) → List (Bytes × Bytes)
put_header field value [] = (field, value) ∷ []
put_header field value ((f, v) ∷ rest) =
    if equal f field then (field, value) ∷ rest else (f, v) ∷ put_header field value rest

unfoldable pub header_value : Bytes → Bytes
unfolding skip_spaces trim_end
header_value raw = let skipped = skip_spaces raw in trim_end (length skipped) skipped

-- `addHeader(start, colon, end)`: the line from `start` to `end`, and the offset of the colon.
unfoldable pub add_header : Bytes → ℕ → HttpRequest → HttpRequest
add_header line colon r = record r {
  headers = put_header (take colon line) (header_value (drop (colon + 1) line)) r.headers;
}

-- `getHeader`: the empty text where there is no such field.
unfoldable pub get_header : Bytes → List (Bytes × Bytes) → Bytes
get_header field [] = []
get_header field ((f, v) ∷ rest) = if equal f field then v else get_header field rest

-- A header that was put is found, and the others are as before.
pub get_header-put_header :
    (field value other : Bytes) (headers : List (Bytes × Bytes))
    → get_header other (put_header field value headers)
      ≡ (if equal field other then value else get_header other headers)
unfolding get_header put_header
get_header-put_header field value other [] = refl
get_header-put_header field value other ((f, v) ∷ rest) = ground (
  arith,
  equal_iff f field,
  equal_iff field other,
  equal_iff f other,
  get_header-put_header field value other rest,
)
