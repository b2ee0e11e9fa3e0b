-- ===== src/RequestParser.antt =====
-- src/request_parser.cc, include/request_parser.h, include/request.h and include/header.h: the
-- incremental parser of a request head. The object's one field, `state_`, and the request that it
-- fills are passed explicitly. A `char` is its byte value: every test of the source gives the same
-- answer on it whether `char` is signed or not.
mod Clean
pub mod Head
mod HeaderPieces
mod Pieces
mod VersionPieces
pub mod RoundTrip
pub mod Safety
pub mod Sound
mod Tests
use boost_web_server.Common.{
  ℕ, ◌+◌, ◌-◌, ◌*◌, Bool, true, false, not, ◌&&◌, ◌||◌, List, [], ◌∷◌, ◌++◌, ltb, leb, ◌==◌,
  if◌then◌else◌, Bytes, Result, ok, err, ◌>>=◌, int_overflow, empty_back,
}

pub data State : Type 0 where
  method_start method uri : State
  http_version_h http_version_t_1 http_version_t_2 http_version_p http_version_slash : State
  http_version_major_start http_version_major : State
  http_version_minor_start http_version_minor : State
  expecting_newline_1 header_line_start header_lws header_name : State
  space_before_header_value header_value expecting_newline_2 expecting_newline_3 : State

pub record Header : Type 0 where
  pub name : Bytes
  pub value : Bytes

pub record Request : Type 0 where
  pub original_req : Bytes
  pub method : Bytes
  pub uri : Bytes
  pub http_version_major : ℕ
  pub http_version_minor : ℕ
  pub headers : List Header

pub data ParseResult : Type 0 where
  good bad indeterminate : ParseResult

-- What one call of `consume` leaves behind and returns.
pub record Consumed : Type 0 where
  pub state : State
  pub req : Request
  pub result : ParseResult

unfoldable pub is_char : ℕ → Bool
is_char c = leb c 127

unfoldable pub is_ctl : ℕ → Bool
is_ctl c = leb c 31 || c == 127

unfoldable pub is_tspecial : ℕ → Bool
is_tspecial c =
    c == b'('
    || c == b')'
    || c == b'<'
    || c == b'>'
    || c == b'@'
    || c == b','
    || c == b';'
    || c == b':'
    || c == b'\\'
    || c == b'"'
    || c == b'/'
    || c == b'['
    || c == b']'
    || c == b'?'
    || c == b'='
    || c == b'{'
    || c == b'}'
    || c == b' '
    || c == b'\t'

unfoldable pub is_digit : ℕ → Bool
is_digit c = leb b'0' c && leb c b'9'

-- `!is_char(input) || is_ctl(input) || is_tspecial(input)`
unfoldable pub is_not_token : ℕ → Bool
is_not_token c = not (is_char c) || is_ctl c || is_tspecial c

abbrev pub go_on : State → Request → Result Consumed
go_on s r = ok (record { state = s; req = r; result = indeterminate })

-- A refusal leaves the state as it is.
abbrev pub refuse : State → Request → Result Consumed
refuse s r = ok (record { state = s; req = r; result = bad })

-- `n * 10 + input - '0'` on `int`, from left to right; a signed overflow is undefined.
unfoldable pub add_digit : ℕ → ℕ → Result ℕ
add_digit n c =
    let sum = n * 10 + c in if ltb sum 0x80000000 then ok (sum - b'0') else err int_overflow

-- A change of `headers.back()`, undefined on an empty vector.
unfoldable pub on_back : (Header → Header) → List Header → Result (List Header)
on_back f [] = err empty_back
on_back f (h ∷ []) = ok (f h ∷ [])
on_back f (h ∷ g ∷ hs) = do rest ← on_back f (g ∷ hs); ok (h ∷ rest)

abbrev pub push_name : ℕ → Header → Header
push_name c h = record h { name = h.name ++ c ∷ [] }

abbrev pub push_value : ℕ → Header → Header
push_value c h = record h { value = h.value ++ c ∷ [] }

unfoldable pub consume_method_start : Request → ℕ → Result Consumed
consume_method_start r c =
    if is_not_token c
    then refuse method_start r
    else go_on method (record r { method = r.method ++ c ∷ [] })

unfoldable pub consume_method : Request → ℕ → Result Consumed
consume_method r c =
    if c == b' '
    then go_on uri r
    else if is_not_token c
    then refuse method r
    else go_on method (record r { method = r.method ++ c ∷ [] })

unfoldable pub consume_uri : Request → ℕ → Result Consumed
consume_uri r c =
    if c == b' '
    then go_on http_version_h r
    else if is_ctl c
    then refuse uri r
    else go_on uri (record r { uri = r.uri ++ c ∷ [] })

-- The states that want one given byte.
abbrev pub expect : ℕ → State → State → Request → ℕ → Result Consumed
expect wanted here next r c = if c == wanted then go_on next r else refuse here r

unfoldable pub consume_slash : Request → ℕ → Result Consumed
consume_slash r c =
    if c == b'/'
    then go_on http_version_major_start
        (record r { http_version_major = 0; http_version_minor = 0 })
    else refuse http_version_slash r

abbrev push_major : Request → ℕ → Result Consumed
push_major r c = do
  n ← add_digit r.http_version_major c
  go_on http_version_major (record r { http_version_major = n })

abbrev push_minor : Request → ℕ → Result Consumed
push_minor r c = do
  n ← add_digit r.http_version_minor c
  go_on http_version_minor (record r { http_version_minor = n })

unfoldable pub consume_major_start : Request → ℕ → Result Consumed
consume_major_start r c = if is_digit c then push_major r c else refuse http_version_major_start r

unfoldable pub consume_major : Request → ℕ → Result Consumed
consume_major r c =
    if c == b'.'
    then go_on http_version_minor_start r
    else if is_digit c
    then push_major r c
    else refuse http_version_major r

unfoldable pub consume_minor_start : Request → ℕ → Result Consumed
consume_minor_start r c = if is_digit c then push_minor r c else refuse http_version_minor_start r

unfoldable pub consume_minor : Request → ℕ → Result Consumed
consume_minor r c =
    if c == b'\r'
    then go_on expecting_newline_1 r
    else if is_digit c
    then push_minor r c
    else refuse http_version_minor r

unfoldable pub is_empty : List Header → Bool
is_empty [] = true
is_empty (_ ∷ _) = false

abbrev on_headers : (Header → Header) → State → Request → Result Consumed
on_headers f next r = do hs ← on_back f r.headers; go_on next (record r { headers = hs })

unfoldable pub consume_header_line_start : Request → ℕ → Result Consumed
consume_header_line_start r c =
    if c == b'\r'
    then go_on expecting_newline_3 r
    else if not (is_empty r.headers) && (c == b' ' || c == b'\t')
    then go_on header_lws r
    else if is_not_token c
    then refuse header_line_start r
    else on_headers (push_name c) header_name
        (record r { headers = r.headers ++ record { name = []; value = [] } ∷ [] })

unfoldable pub consume_header_lws : Request → ℕ → Result Consumed
consume_header_lws r c =
    if c == b'\r'
    then go_on expecting_newline_2 r
    else if c == b' ' || c == b'\t'
    then go_on header_lws r
    else if is_ctl c
    then refuse header_lws r
    else on_headers (push_value c) header_value r

unfoldable pub consume_header_name : Request → ℕ → Result Consumed
consume_header_name r c =
    if c == b':'
    then go_on space_before_header_value r
    else if is_not_token c
    then refuse header_name r
    else on_headers (push_name c) header_name r

unfoldable pub consume_header_value : Request → ℕ → Result Consumed
consume_header_value r c =
    if c == b'\r'
    then go_on expecting_newline_2 r
    else if is_ctl c
    then refuse header_value r
    else on_headers (push_value c) header_value r

unfoldable pub consume_last : Request → ℕ → Result Consumed
consume_last r c =
    ok (record { state = expecting_newline_3; req = r; result = if c == b'\n' then good else bad })

-- The `switch` of `consume`, on the request that already holds the byte in `original_req`.
unfoldable pub consume_in : State → Request → ℕ → Result Consumed
unfolding consume_method_start consume_method consume_uri consume_slash consume_major_start
    consume_major consume_minor_start consume_minor consume_header_line_start consume_header_lws
    consume_header_name consume_header_value consume_last
consume_in method_start r c = consume_method_start r c
consume_in method r c = consume_method r c
consume_in uri r c = consume_uri r c
consume_in http_version_h r c = expect b'H' http_version_h http_version_t_1 r c
consume_in http_version_t_1 r c = expect b'T' http_version_t_1 http_version_t_2 r c
consume_in http_version_t_2 r c = expect b'T' http_version_t_2 http_version_p r c
consume_in http_version_p r c = expect b'P' http_version_p http_version_slash r c
consume_in http_version_slash r c = consume_slash r c
consume_in http_version_major_start r c = consume_major_start r c
consume_in http_version_major r c = consume_major r c
consume_in http_version_minor_start r c = consume_minor_start r c
consume_in http_version_minor r c = consume_minor r c
consume_in expecting_newline_1 r c = expect b'\n' expecting_newline_1 header_line_start r c
consume_in header_line_start r c = consume_header_line_start r c
consume_in header_lws r c = consume_header_lws r c
consume_in header_name r c = consume_header_name r c
consume_in space_before_header_value r c = expect b' ' space_before_header_value header_value r c
consume_in header_value r c = consume_header_value r c
consume_in expecting_newline_2 r c = expect b'\n' expecting_newline_2 header_line_start r c
consume_in expecting_newline_3 r c = consume_last r c

unfoldable pub consume : State → Request → ℕ → Result Consumed
consume s r c = consume_in s (record r { original_req = r.original_req ++ c ∷ [] }) c

-- What `parse` returns, with the state and the request that it leaves; `rest` is the input from
-- the returned iterator on.
pub record Parsed : Type 0 where
  pub state : State
  pub req : Request
  pub result : ParseResult
  pub rest : Bytes

abbrev pub finish : Consumed → Bytes → Parsed
finish d cs = record { state = d.state; req = d.req; result = d.result; rest = cs }

unfoldable pub parse : State → Request → Bytes → Result Parsed
parse s r [] = ok (record { state = s; req = r; result = indeterminate; rest = [] })
parse s r (c ∷ cs) = do
  d ← consume s r c
  elim d.result [
    | indeterminate ↦ parse d.state d.req cs
    | good ↦ ok (finish d cs)
    | bad ↦ ok (finish d cs)
  ]

-- A request before any byte is read, and the state of a fresh or reset parser.
abbrev pub empty_request : Request
empty_request = record {
  original_req = [];
  method = [];
  uri = [];
  http_version_major = 0;
  http_version_minor = 0;
  headers = [];
}

unfoldable pub reset : State
reset = method_start
