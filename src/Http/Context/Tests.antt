-- ===== src/Http/Context/Tests.antt =====
-- The parser at concrete inputs.
use my_cisdi_code.Prelude.{
  Bool, Bytes, List, [], arith, codes, equal, inl, inr, length, refl, true, ◌++◌, ◌+◌, ◌∷◌, ◌≡◌,
}
use my_cisdi_code.Buffer.{Buffer, retrieve, retrieve_until, to_string_piece}
use my_cisdi_code.Buffer.Invariant.{IsValid}
use my_cisdi_code.Buffer.Search.{find_crlf, search_crlf}
use my_cisdi_code.Http.Request.{HttpRequest, get, http11, is_invalid, method_of, put_header}
use my_cisdi_code.Http.Context.{
  HttpContext, done, expect_headers, find, got_all, new_context, out_of_fuel, parse_request,
  process_request_line,
}
use my_cisdi_code.Http.Context.Total.{parse_request_spins, parse_request_total}
use my_cisdi_code.Http.Context.Chunks.{SameParse, parse_request-append}
use my_cisdi_code.Http.Context.RoundTrip.{AreHeaders, IsTarget, parse_request-request_text}

abbrev zeros : Bytes
zeros = 0 ∷ 0 ∷ 0 ∷ 0 ∷ 0 ∷ 0 ∷ 0 ∷ 0 ∷ []

-- A buffer that holds just these bytes.
abbrev holding : Bytes → Buffer
holding xs = record { buffer = zeros ++ xs; reader_index = 8; writer_index = 8 + length xs }

abbrev wanted : HttpRequest
wanted = record {
  method = get;
  version = http11;
  path = codes "/a";
  query = codes "?b";
  receive_time = 0;
  headers = [];
}

abbrev wanted_headers : List (Bytes × Bytes)
wanted_headers = (codes "Host", codes "x") ∷ []

abbrev wire : Bytes
wire = codes "GET /a?b HTTP/1.1\r\nHost: x\r\n\r\nmore"

wire-IsValid : IsValid (holding wire)
wire-IsValid = omega arith

abbrev arrived : HttpContext
arrived = record {
  state = got_all;
  request = record wanted { receive_time = 7; headers = wanted_headers };
}

wanted-IsTarget : IsTarget (codes "/a") (codes "?b")
wanted-IsTarget = record {
  path_blank = omega arith;
  path_mark = omega arith;
  path_line = omega arith;
  query_blank = omega arith;
  query_line = omega arith;
  query_mark = inr (codes "b", refl);
}

wanted-AreHeaders : AreHeaders wanted_headers
wanted-AreHeaders = (
  record {
    no_colon = omega arith;
    field_line = omega arith;
    value_line = omega arith;
    starts = refl;
    ends = refl;
  },
  tt,
)

parse_request-request_text_example :
    (b' : Buffer) × (parse_request 40 7 new_context (holding wire) ≡ done true arrived b')
    × IsValid b'
    × (to_string_piece b' ≡ codes "more")
unfolding put_header
parse_request-request_text_example =
    parse_request-request_text 40 7 wanted wanted_headers (codes "more") (holding wire) wire-IsValid
      (λ e. cc) (λ e. cc) wanted-IsTarget wanted-AreHeaders refl (omega arith)

parse_request_total_example :
    (k : Bool) × (c' : HttpContext) × (b' : Buffer) × (parse_request 40 7 new_context (holding wire)
      ≡ done k c' b')
    × IsValid b'
parse_request_total_example =
    parse_request_total 40 7 new_context (holding wire) wire-IsValid refl (omega arith)

parse_request_spins_example : parse_request 1000 7 arrived (holding wire) ≡ out_of_fuel
parse_request_spins_example = parse_request_spins 1000 7 arrived (holding wire) (inl refl)

-- The first line, and a piece of the second.
abbrev piece : Bytes
piece = codes "GET /a?b HTTP/1.1\r\nHost: x\r"

abbrev halfway : HttpContext
halfway = record { state = expect_headers; request = record wanted { receive_time = 7 } }

abbrev left : Buffer
left = record (holding piece) { reader_index = 27 }

piece_parsed : parse_request 40 7 new_context (holding piece) ≡ done true halfway left
unfolding parse_request find_crlf search_crlf process_request_line find equal method_of is_invalid
    retrieve_until retrieve
piece_parsed = refl

parse_request-append_example :
    SameParse
      (parse_request 40 7 new_context (holding wire))
      (parse_request 40 9 halfway (holding (codes "Host: x\r\n\r\nmore")))
parse_request-append_example =
    parse_request-append 40 40 7 9 new_context halfway (holding piece) left
      (holding (codes "Host: x\r\n\r\nmore")) (holding wire) (codes "\n\r\nmore") (omega arith)
      piece_parsed (λ e. cc) (omega arith) refl wire-IsValid refl (omega arith)
