-- ===== src/RequestParser/Head.antt =====
-- The request heads that src/request_parser.cc is meant to read, with their text.
use boost_web_server.Common.{
  ℕ, ◌+◌, ◌-◌, ◌*◌, ◌<◌, ◌≡◌, ◌≢◌, true, false, List, [], ◌∷◌, ◌++◌, All, Bytes,
}
use boost_web_server.RequestParser.{Header, Request, is_ctl, is_digit, is_not_token}

-- The parts of a head as they are written; the version numbers are their digits.
pub record Head : Type 0 where
  pub method : Bytes
  pub uri : Bytes
  pub major : Bytes
  pub minor : Bytes
  pub headers : List Header

abbrev pub crlf : Bytes → Bytes
crlf rest = b'\r' ∷ b'\n' ∷ rest

abbrev pub print_header : Header → Bytes → Bytes
print_header h rest = h.name ++ (b':' ∷ b' ' ∷ (h.value ++ crlf rest))

abbrev pub print_headers : List Header → Bytes → Bytes
print_headers [] rest = crlf rest
print_headers (h ∷ hs) rest = print_header h (print_headers hs rest)

abbrev pub print_version : Head → Bytes → Bytes
print_version h rest =
    b'H' ∷ b'T' ∷ b'T' ∷ b'P' ∷ b'/' ∷ (h.major ++ (b'.' ∷ (h.minor ++ crlf rest)))

-- The text of a head, with `rest` behind it.
abbrev pub print : Head → Bytes → Bytes
print h rest =
    h.method ++ (b' ' ∷ (h.uri ++ (b' ' ∷ print_version h (print_headers h.headers rest))))

-- The value of a sequence of decimal digits, read onto `n`.
abbrev pub decimal : ℕ → Bytes → ℕ
decimal n [] = n
decimal n (d ∷ ds) = decimal (n * 10 + (d - b'0')) ds

abbrev pub IsToken : Bytes → Type 0
IsToken s = All (λ c. is_not_token c ≡ false) s × (s ≢ [])

abbrev pub IsUri : Bytes → Type 0
IsUri s = All (λ c. (c ≢ b' ') × (is_ctl c ≡ false)) s

abbrev pub IsValue : Bytes → Type 0
IsValue s = All (λ c. is_ctl c ≡ false) s

-- A version number that the parser's arithmetic on `int` reaches without an overflow.
pub record IsVersion (ds : Bytes) : Type 0 where
  pub digits : All (λ c. is_digit c ≡ true) ds
  pub ne_nil : ds ≢ []
  pub bound : decimal 0 ds + b'0' < 0x80000000

pub record IsHead (h : Head) : Type 0 where
  pub method_token : IsToken h.method
  pub uri_bytes : IsUri h.uri
  pub major_version : IsVersion h.major
  pub minor_version : IsVersion h.minor
  pub headers_bytes : All (λ x. IsToken x.name × IsValue x.value) h.headers

-- The request that a head stands for, after the bytes `original`.
abbrev pub request_of : Bytes → Head → Request
request_of original h = record {
  original_req = original;
  method = h.method;
  uri = h.uri;
  http_version_major = decimal 0 h.major;
  http_version_minor = decimal 0 h.minor;
  headers = h.headers;
}
