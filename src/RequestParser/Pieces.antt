-- ===== src/RequestParser/Pieces.antt =====
-- src/request_parser.cc over the pieces of a request line. Each lemma runs the parser over one
-- piece of the text, with any `rest` behind it.
use boost_web_server.Common.{
  ℕ, ◌+◌, ◌-◌, ◌*◌, ◌≤◌, ◌<◌, ◌≡◌, refl, ◌∙◌, ◌≢◌, true, false, [], ◌∷◌, ◌++◌, append-nil,
  append_assoc, arith, All, Bytes, ok,
}
use boost_web_server.RequestParser.{
  State, method, uri, http_version_h, http_version_major, http_version_minor_start,
  http_version_minor, expecting_newline_1, header_line_start, Request, is_char, is_ctl, is_tspecial,
  is_digit, is_not_token, go_on, add_digit, consume_in, consume, parse,
}
use boost_web_server.RequestParser.Head.{crlf, decimal, IsUri}

-- The request with one more piece of text in `original_req`.
abbrev pub seen : Request → Bytes → Request
seen r s = record r { original_req = r.original_req ++ s }

pub parse_step :
    (s t : State) (r q : Request) (c : ℕ) (cs : Bytes)
    → consume_in s (seen r (c ∷ [])) c ≡ go_on t q
    → parse s r (c ∷ cs) ≡ parse t q cs
unfolding parse consume
parse_step s t r q c cs e = rw e

-- A token byte is none of the bytes that end a token.
pub token_ne :
    (c : ℕ) → is_not_token c ≡ false → (c ≢ b' ') × (c ≢ b':') × (c ≢ b'\r') × (c ≢ b'\t')
unfolding is_not_token is_tspecial is_ctl is_char
token_ne c h = (λ e. ground arith, λ e. ground arith, λ e. ground arith, λ e. ground arith)

pub value_ne : (c : ℕ) → is_ctl c ≡ false → c ≢ b'\r'
unfolding is_ctl
value_ne c h e = ground arith

pub digit_ne : (c : ℕ) → is_digit c ≡ true → (c ≢ b'.') × (c ≢ b'\r')
unfolding is_digit
digit_ne c h = (λ e. ground arith, λ e. ground arith)

pub read_method :
    (m : Bytes) (r : Request) (rest : Bytes)
    → All (λ c. is_not_token c ≡ false) m
    → parse method r (m ++ (b' ' ∷ rest))
      ≡ parse uri (record (seen r (m ++ b' ' ∷ [])) { method = r.method ++ m }) rest
unfolding consume_in
read_method [] r rest h =
    parse_step method uri r (seen r (b' ' ∷ [])) b' ' rest refl ∙ rw append-nil
read_method (c ∷ m) r rest h =
    let next = record (seen r (c ∷ [])) { method = r.method ++ c ∷ [] } in
    parse_step method method r next c _ (ground (arith, token_ne c h.0))
    ∙ read_method m next rest h.1
    ∙ simp append_assoc

pub read_uri :
    (u : Bytes) (r : Request) (rest : Bytes)
    → IsUri u
    → parse uri r (u ++ (b' ' ∷ rest))
      ≡ parse http_version_h (record (seen r (u ++ b' ' ∷ [])) { uri = r.uri ++ u }) rest
unfolding consume_in
read_uri [] r rest h =
    parse_step uri http_version_h r (seen r (b' ' ∷ [])) b' ' rest refl ∙ rw append-nil
read_uri (c ∷ u) r rest h =
    let next = record (seen r (c ∷ [])) { uri = r.uri ++ c ∷ [] } in
    parse_step uri uri r next c _ (ground arith) ∙ read_uri u next rest h.1 ∙ simp append_assoc

-- The digits read so far bound the sum that the next digit makes.
pub decimal_mono : (ds : Bytes) (n : ℕ) → n ≤ decimal n ds
decimal_mono [] n = omega arith
decimal_mono (d ∷ ds) n = omega (arith, decimal_mono ds (n * 10 + (d - b'0')))

pub add_digit_lem :
    (n c : ℕ)
    → is_digit c ≡ true
    → n * 10 + (c - b'0') + b'0' < 0x80000000
    → add_digit n c ≡ ok (n * 10 + (c - b'0'))
unfolding add_digit is_digit
add_digit_lem n c h b = ground arith

pub read_major :
    (ds : Bytes) (r : Request) (rest : Bytes)
    → All (λ c. is_digit c ≡ true) ds
    → decimal r.http_version_major ds + b'0' < 0x80000000
    → parse http_version_major r (ds ++ (b'.' ∷ rest))
      ≡ parse http_version_minor_start
          (record (seen r (ds ++ b'.' ∷ [])) {
            http_version_major = decimal r.http_version_major ds;
          })
          rest
unfolding consume_in
read_major [] r rest h b =
    parse_step http_version_major http_version_minor_start r (seen r (b'.' ∷ [])) b'.' rest refl
read_major (c ∷ ds) r rest h b =
    let n = r.http_version_major * 10 + (c - b'0') in
    let next = record (seen r (c ∷ [])) { http_version_major = n } in
    parse_step http_version_major http_version_major r next c _ (
      ground (
        arith,
        digit_ne c h.0,
        add_digit_lem r.http_version_major c h.0 (omega (arith, decimal_mono ds n)),
      ))
    ∙ read_major ds next rest h.1 b
    ∙ simp append_assoc

pub read_minor :
    (ds : Bytes) (r : Request) (rest : Bytes)
    → All (λ c. is_digit c ≡ true) ds
    → decimal r.http_version_minor ds + b'0' < 0x80000000
    → parse http_version_minor r (ds ++ crlf rest)
      ≡ parse header_line_start
          (record (seen r (ds ++ crlf [])) { http_version_minor = decimal r.http_version_minor ds })
          rest
unfolding consume_in
read_minor [] r rest h b =
    parse_step http_version_minor expecting_newline_1 r (seen r (b'\r' ∷ [])) b'\r' _ refl
    ∙ parse_step expecting_newline_1 header_line_start _ _ b'\n' rest refl
    ∙ simp append_assoc
read_minor (c ∷ ds) r rest h b =
    let n = r.http_version_minor * 10 + (c - b'0') in
    let next = record (seen r (c ∷ [])) { http_version_minor = n } in
    parse_step http_version_minor http_version_minor r next c _ (
      ground (
        arith,
        digit_ne c h.0,
        add_digit_lem r.http_version_minor c h.0 (omega (arith, decimal_mono ds n)),
      ))
    ∙ read_minor ds next rest h.1 b
    ∙ simp append_assoc
