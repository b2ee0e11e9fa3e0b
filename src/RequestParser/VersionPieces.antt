-- ===== src/RequestParser/VersionPieces.antt =====
-- src/request_parser.cc over the version of a head.
use boost_web_server.Common.{
  ◌+◌, ◌-◌, ◌*◌, ◌<◌, ◌≡◌, refl, ◌∙◌, ◌≢◌, true, [], ◌∷◌, ◌++◌, append_assoc, arith, All, Bytes,
  codes,
}
use boost_web_server.RequestParser.{
  http_version_h, http_version_t_1, http_version_t_2, http_version_p, http_version_slash,
  http_version_major_start, http_version_major, http_version_minor_start, http_version_minor,
  header_line_start, Request, is_digit, consume_in, parse,
}
use boost_web_server.RequestParser.Head.{Head, crlf, print_version, decimal, IsVersion}
use boost_web_server.RequestParser.Pieces.{
  seen, parse_step, decimal_mono, add_digit_lem, read_major, read_minor,
}

read_major_start :
    (ds : Bytes) (r : Request) (rest : Bytes)
    → ds ≢ []
    → All (λ c. is_digit c ≡ true) ds
    → decimal r.http_version_major ds + b'0' < 0x80000000
    → parse http_version_major_start r (ds ++ (b'.' ∷ rest))
      ≡ parse http_version_minor_start
          (record (seen r (ds ++ b'.' ∷ [])) {
            http_version_major = decimal r.http_version_major ds;
          })
          rest
unfolding consume_in
read_major_start [] r rest ne h b = absurd (ne refl)
read_major_start (c ∷ ds) r rest ne h b =
    let n = r.http_version_major * 10 + (c - b'0') in
    let next = record (seen r (c ∷ [])) { http_version_major = n } in
    parse_step http_version_major_start http_version_major r next c _
      (ground (arith, add_digit_lem r.http_version_major c h.0 (omega (arith, decimal_mono ds n))))
    ∙ read_major ds next rest h.1 b
    ∙ simp append_assoc

read_minor_start :
    (ds : Bytes) (r : Request) (rest : Bytes)
    → ds ≢ []
    → All (λ c. is_digit c ≡ true) ds
    → decimal r.http_version_minor ds + b'0' < 0x80000000
    → parse http_version_minor_start r (ds ++ crlf rest)
      ≡ parse header_line_start
          (record (seen r (ds ++ crlf [])) { http_version_minor = decimal r.http_version_minor ds })
          rest
unfolding consume_in
read_minor_start [] r rest ne h b = absurd (ne refl)
read_minor_start (c ∷ ds) r rest ne h b =
    let n = r.http_version_minor * 10 + (c - b'0') in
    let next = record (seen r (c ∷ [])) { http_version_minor = n } in
    parse_step http_version_minor_start http_version_minor r next c _
      (ground (arith, add_digit_lem r.http_version_minor c h.0 (omega (arith, decimal_mono ds n))))
    ∙ read_minor ds next rest h.1 b
    ∙ simp append_assoc

read_http :
    (r : Request) (rest : Bytes)
    → parse http_version_h r (b'H' ∷ b'T' ∷ b'T' ∷ b'P' ∷ b'/' ∷ rest)
      ≡ parse http_version_major_start
          (record (seen r (codes "HTTP/")) { http_version_major = 0; http_version_minor = 0 })
          rest
unfolding consume_in
read_http r rest =
    parse_step http_version_h http_version_t_1 r _ b'H' _ refl
    ∙ parse_step http_version_t_1 http_version_t_2 _ _ b'T' _ refl
    ∙ parse_step http_version_t_2 http_version_p _ _ b'T' _ refl
    ∙ parse_step http_version_p http_version_slash _ _ b'P' _ refl
    ∙ parse_step http_version_slash http_version_major_start _ _ b'/' _ refl
    ∙ simp append_assoc

pub read_version :
    (h : Head) (r : Request) (rest : Bytes)
    → IsVersion h.major
    → IsVersion h.minor
    → parse http_version_h r (print_version h rest)
      ≡ parse header_line_start
          (record (seen r (print_version h [])) {
            http_version_major = decimal 0 h.major;
            http_version_minor = decimal 0 h.minor;
          })
          rest
read_version h r rest a b =
    let zero_version = record (seen r (codes "HTTP/")) {
      http_version_major = 0;
      http_version_minor = 0;
    } in
    let at_minor = record (seen zero_version (h.major ++ b'.' ∷ [])) {
      http_version_major = decimal 0 h.major;
    } in
    read_http r _
    ∙ read_major_start h.major zero_version _ a.ne_nil a.digits a.bound
    ∙ read_minor_start h.minor at_minor rest b.ne_nil b.digits b.bound
    ∙ simp append_assoc
