-- ===== src/RequestParser/RoundTrip.antt =====
-- src/request_parser.cc reads back every well-formed head.
use boost_web_server.Common.{◌≡◌, refl, ◌∙◌, [], ◌∷◌, ◌++◌, append_assoc, arith, Bytes, ok}
use boost_web_server.RequestParser.{
  method_start, method, uri, expecting_newline_3, Request, good, consume_in, parse, empty_request,
  reset,
}
use boost_web_server.RequestParser.Head.{
  Head, print_version, print, decimal, IsToken, IsHead, request_of,
}
use boost_web_server.RequestParser.Pieces.{seen, parse_step, token_ne, read_method, read_uri}
use boost_web_server.RequestParser.VersionPieces.{read_version}
use boost_web_server.RequestParser.HeaderPieces.{read_headers}

read_first :
    (m : Bytes) (r : Request) (rest : Bytes)
    → IsToken m
    → parse method_start r (m ++ (b' ' ∷ rest))
      ≡ parse uri (record (seen r (m ++ b' ' ∷ [])) { method = r.method ++ m }) rest
unfolding consume_in
read_first [] r rest k = absurd (k.1 refl)
read_first (c ∷ m) r rest k =
    let next = record (seen r (c ∷ [])) { method = r.method ++ c ∷ [] } in
    parse_step method_start method r next c _ (ground (arith, token_ne c k.0.0))
    ∙ read_method m next rest k.0.1
    ∙ simp append_assoc

-- A fresh parser reads the text of every well-formed head, whatever follows it: the verdict is
-- `good`, the request holds exactly the parts of the head and its text, and the input behind the
-- head is left unread. Well-formed are a non-empty method of token bytes, a target without blanks
-- and control bytes, version numbers of digits that stay 48 below the largest `int`, and headers
-- with token names and values without control bytes.
pub parse-print :
    (h : Head) (rest : Bytes)
    → IsHead h
    → parse reset empty_request (print h rest)
      ≡ ok (record {
        state = expecting_newline_3;
        req = request_of (print h []) h;
        result = good;
        rest = rest;
      })
unfolding reset
parse-print h rest k =
    let at_uri = record (seen empty_request (h.method ++ b' ' ∷ [])) { method = h.method } in
    let at_version = record (seen at_uri (h.uri ++ b' ' ∷ [])) { uri = h.uri } in
    let at_headers = record (seen at_version (print_version h [])) {
      http_version_major = decimal 0 h.major;
      http_version_minor = decimal 0 h.minor;
    } in
    read_first h.method empty_request _ k.method_token
    ∙ read_uri h.uri at_uri _ k.uri_bytes
    ∙ read_version h at_version _ k.major_version k.minor_version
    ∙ read_headers h.headers at_headers rest k.headers_bytes
    ∙ simp append_assoc
