-- ===== src/RequestParser/Tests.antt =====
-- Runs of src/request_parser.cc on small requests, and the theorems at concrete inputs.
use boost_web_server.Common.{
  ◌≡◌, refl, [], ◌∷◌, ◌++◌, arith, All, Bytes, codes, Fault, int_overflow, ok, err, ◌>>=◌,
}
use boost_web_server.RequestParser.{
  expecting_newline_3, good, bad, is_char, is_ctl, is_tspecial, is_digit, is_not_token, add_digit,
  on_back, consume_method_start, consume_method, consume_uri, consume_slash, consume_major_start,
  consume_major, consume_minor_start, consume_minor, is_empty, consume_header_line_start,
  consume_header_lws, consume_header_name, consume_header_value, consume_last, consume_in, consume,
  Parsed, parse, empty_request, reset,
}
use boost_web_server.RequestParser.Head.{Head, print, IsToken, IsUri, IsValue, IsHead, request_of}
use boost_web_server.RequestParser.Safety.{parse_fault}
use boost_web_server.RequestParser.RoundTrip.{parse-print}
use boost_web_server.RequestParser.Sound.{parse_sound}

-- Names once what a run computes with.
request_code : Unit {0}
unfolding parse consume consume_in is_not_token is_char is_ctl is_tspecial is_digit add_digit
    on_back is_empty reset consume_method_start consume_method consume_uri consume_slash
    consume_major_start consume_major consume_minor_start consume_minor consume_header_line_start
    consume_header_lws consume_header_name consume_header_value consume_last
request_code = tt

abbrev one_header : Head
one_header = record {
  method = codes "GET";
  uri = codes "/a";
  major = codes "1";
  minor = codes "1";
  headers = record { name = codes "Host"; value = codes "x y" } ∷ [];
}

abbrev one_header_text : Bytes
one_header_text = codes "GET /a HTTP/1.1\r\nHost: x y\r\n\r\n"

abbrev one_header_parsed : Bytes → Parsed
one_header_parsed rest = record {
  state = expecting_newline_3;
  req = request_of one_header_text one_header;
  result = good;
  rest = rest;
}

one_header_run :
    parse reset empty_request (one_header_text ++ codes "body")
    ≡ ok (one_header_parsed (codes "body"))
unfolding request_code
one_header_run = refl

-- A blank at the start of a line continues the header before it.
folded_run :
    (parse reset empty_request (codes "GET / HTTP/1.0\r\na: b\r\n  c\r\n\r\n") >>= λ p.
    ok p.req.headers)
    ≡ ok (record { name = codes "a"; value = codes "bc" } ∷ [])
unfolding request_code
folded_run = refl

-- No blank at the start of the first header line.
no_fold_run :
    (parse reset empty_request (codes "GET / HTTP/1.0\r\n a") >>= λ p. ok p.result) ≡ ok bad
unfolding request_code
no_fold_run = refl

-- A version number of ten digits overflows.
overflow_run : parse reset empty_request (codes "GET / HTTP/9999999999") ≡ err int_overflow
unfolding request_code
overflow_run = refl

one_header-IsHead : IsHead one_header
unfolding request_code
one_header-IsHead = record {
  method_token = ((refl, (refl, (refl, tt))), λ e. cc);
  uri_bytes = ((omega arith, refl), ((omega arith, refl), tt));
  major_version = record { digits = (refl, tt); ne_nil = λ e. cc; bound = omega arith };
  minor_version = record { digits = (refl, tt); ne_nil = λ e. cc; bound = omega arith };
  headers_bytes = ((((refl, (refl, (refl, (refl, tt)))), λ e. cc), (refl, (refl, (refl, tt)))), tt);
}

parse-print_example :
    parse reset empty_request (print one_header (codes "body"))
    ≡ ok (one_header_parsed (codes "body"))
parse-print_example = parse-print one_header (codes "body") one_header-IsHead

parse_sound_example :
    IsToken (codes "GET")
    × IsUri (codes "/a")
    × All (λ h. IsToken h.name × IsValue h.value) one_header.headers
    × (one_header_text ++ codes "body" ≡ one_header_text ++ codes "body")
parse_sound_example =
    parse_sound (one_header_text ++ codes "body") (one_header_parsed (codes "body")) one_header_run
      refl

parse_fault_example : ◌≡◌ {A = Fault} int_overflow int_overflow
parse_fault_example =
    parse_fault empty_request (codes "GET / HTTP/9999999999") int_overflow overflow_run
