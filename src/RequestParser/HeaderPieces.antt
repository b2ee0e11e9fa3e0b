-- ===== src/RequestParser/HeaderPieces.antt =====
-- src/request_parser.cc over the header lines of a head.
use boost_web_server.Common.{
  ◌≡◌, refl, ◌∙◌, false, List, [], ◌∷◌, ◌++◌, append-nil, append_assoc, arith, All, Bytes, ok,
}
use boost_web_server.RequestParser.{
  header_line_start, header_name, space_before_header_value, header_value, expecting_newline_2,
  expecting_newline_3, Header, Request, good, is_not_token, on_back, push_name, push_value,
  is_empty, consume_in, consume, parse,
}
use boost_web_server.RequestParser.Head.{crlf, print_header, print_headers, IsToken, IsValue}
use boost_web_server.RequestParser.Pieces.{seen, parse_step, token_ne, value_ne}

-- The request with `h` as its last header.
abbrev with_last : Request → List Header → Header → Request
with_last r hs h = record r { headers = hs ++ h ∷ [] }

pub on_back-concat :
    (f : Header → Header) (hs : List Header) (h : Header)
    → on_back f (hs ++ h ∷ []) ≡ ok (hs ++ f h ∷ [])
unfolding on_back
on_back-concat f [] h = refl
on_back-concat f (g ∷ []) h = refl
on_back-concat f (g ∷ x ∷ hs) h = rw (on_back-concat f (x ∷ hs) h)

read_name :
    (n : Bytes) (r : Request) (hs : List Header) (h : Header) (rest : Bytes)
    → All (λ c. is_not_token c ≡ false) n
    → parse header_name (with_last r hs h) (n ++ (b':' ∷ b' ' ∷ rest))
      ≡ parse header_value
          (with_last (seen r (n ++ b':' ∷ b' ' ∷ [])) hs (record h { name = h.name ++ n }))
          rest
unfolding consume_in
read_name [] r hs h rest _ =
    parse_step header_name space_before_header_value (with_last r hs h) _ b':' _ refl
    ∙ parse_step space_before_header_value header_value _ _ b' ' rest refl
    ∙ simp (append_assoc, append-nil)
read_name (c ∷ n) r hs h rest k =
    let next = with_last (seen r (c ∷ [])) hs (push_name c h) in
    parse_step header_name header_name (with_last r hs h) next c _
      (ground (arith, token_ne c k.0, on_back-concat (push_name c) hs h))
    ∙ read_name n (seen r (c ∷ [])) hs (push_name c h) rest k.1
    ∙ simp append_assoc

read_value :
    (v : Bytes) (r : Request) (hs : List Header) (h : Header) (rest : Bytes)
    → IsValue v
    → parse header_value (with_last r hs h) (v ++ crlf rest)
      ≡ parse header_line_start
          (with_last (seen r (v ++ crlf [])) hs (record h { value = h.value ++ v }))
          rest
unfolding consume_in
read_value [] r hs h rest _ =
    parse_step header_value expecting_newline_2 (with_last r hs h) _ b'\r' _ refl
    ∙ parse_step expecting_newline_2 header_line_start _ _ b'\n' rest refl
    ∙ simp (append_assoc, append-nil)
read_value (c ∷ v) r hs h rest k =
    let next = with_last (seen r (c ∷ [])) hs (push_value c h) in
    parse_step header_value header_value (with_last r hs h) next c _
      (ground (arith, value_ne c k.0, on_back-concat (push_value c) hs h))
    ∙ read_value v (seen r (c ∷ [])) hs (push_value c h) rest k.1
    ∙ simp append_assoc

read_header :
    (n v : Bytes) (r : Request) (rest : Bytes)
    → IsToken n
    → IsValue v
    → parse header_line_start r (n ++ (b':' ∷ b' ' ∷ (v ++ crlf rest)))
      ≡ parse header_line_start
          (with_last
            (seen r (n ++ (b':' ∷ b' ' ∷ (v ++ crlf []))))
            r.headers
            (record { name = n; value = v }))
          rest
unfolding consume_in is_empty
read_header [] v r rest k kv = absurd (k.1 refl)
read_header (c ∷ n) v r rest k kv =
    let fresh : Header = record { name = []; value = [] } in
    let r' = seen r (c ∷ []) in
    parse_step header_line_start header_name r (with_last r' r.headers (push_name c fresh)) c _
      (ground (arith, token_ne c k.0.0, on_back-concat (push_name c) r.headers fresh))
    ∙ read_name n r' r.headers (push_name c fresh) _ k.0.1
    ∙ read_value v (seen r' (n ++ b':' ∷ b' ' ∷ [])) r.headers _ rest kv
    ∙ simp append_assoc

-- The header lines and the empty line behind them end in the verdict `good`.
pub read_headers :
    (hs : List Header) (r : Request) (rest : Bytes)
    → All (λ x. IsToken x.name × IsValue x.value) hs
    → parse header_line_start r (print_headers hs rest)
      ≡ ok (record {
        state = expecting_newline_3;
        req = record (seen r (print_headers hs [])) { headers = r.headers ++ hs };
        result = good;
        rest = rest;
      })
unfolding consume_in
read_headers [] r rest _ =
    parse_step header_line_start expecting_newline_3 r _ b'\r' _ refl
    ∙ (unfold parse consume in simp (append_assoc, append-nil))
read_headers (h ∷ hs) r rest k =
    let text = print_header h [] in
    read_header h.name h.value r _ k.0.0 k.0.1
    ∙ read_headers hs (with_last (seen r text) r.headers h) rest k.1
    ∙ simp append_assoc
