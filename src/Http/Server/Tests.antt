-- ===== src/Http/Server/Tests.antt =====
-- The server at concrete inputs.
use my_cisdi_code.Prelude.{
  Bytes, [], arith, codes, equal, inl, length, ok, refl, replicate, true, ℕ, ◌%◌, ◌++◌, ◌+◌, ◌/◌,
  ◌∷◌, ◌≡◌,
}
use my_cisdi_code.Buffer.{Buffer, to_string_piece}
use my_cisdi_code.Buffer.Invariant.{IsValid}
use my_cisdi_code.Http.Request.{HttpRequest, get, get_header, http10, new_request}
use my_cisdi_code.Http.Context.{new_context}
use my_cisdi_code.Http.Context.RoundTrip.{IsTarget}
use my_cisdi_code.Http.Server.{
  append_to_buffer, default_http_callback, handled, new_response, on_message, sent, shut_down,
  wants_close,
}
use my_cisdi_code.Http.Server.Response.{append_to_buffer_lem}
use my_cisdi_code.Http.Server.Answer.{on_message-request_text}

-- Numbers of up to three digits.
abbrev three_digits : ℕ → Bytes
three_digits n = (b'0' + n / 100 % 10) ∷ (b'0' + n / 10 % 10) ∷ (b'0' + n % 10) ∷ []

abbrev holding : Bytes → Buffer
holding xs = record { buffer = replicate 8 0 ++ xs; reader_index = 8; writer_index = 8 + length xs }

abbrev asked : HttpRequest
asked = record new_request { method = get; version = http10; path = codes "/a" }

asked-IsTarget : IsTarget (codes "/a") []
asked-IsTarget = record {
  path_blank = omega arith;
  path_mark = omega arith;
  path_line = omega arith;
  query_blank = omega arith;
  query_line = omega arith;
  query_mark = inl refl;
}

abbrev wire : Bytes
wire = codes "GET /a HTTP/1.0\r\n\r\nmore"

wire-IsValid : IsValid (holding wire)
wire-IsValid = omega arith

abbrev not_found : Bytes
not_found = codes "HTTP/1.1 404 Not Found\r\nConnection: close\r\n\r\n"

on_message-request_text_example :
    (b' : Buffer) × (on_message three_digits 9 7 default_http_callback new_context (holding wire)
      ≡ handled new_context b' (sent not_found ∷ shut_down ∷ []))
    × IsValid b'
    × (to_string_piece b' ≡ codes "more")
unfolding wants_close get_header equal
on_message-request_text_example =
    on_message-request_text three_digits (λ n small. omega arith) default_http_callback 9 7 asked []
      (codes "more") (holding wire) wire-IsValid (λ e. cc) (λ e. cc) asked-IsTarget tt refl
      (omega arith) (omega arith) (omega arith)

append_to_buffer_lem_example :
    let r = default_http_callback asked (new_response true) in
    (b' : Buffer) × (append_to_buffer three_digits r (holding []) ≡ ok b')
    × IsValid b'
    × (to_string_piece b' ≡ not_found)
append_to_buffer_lem_example =
    append_to_buffer_lem three_digits (λ n small. omega arith)
      (default_http_callback asked (new_response true)) (holding []) (omega arith) (omega arith)
      (omega arith) (omega arith)
