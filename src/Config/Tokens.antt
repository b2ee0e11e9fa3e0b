-- ===== src/Config/Tokens.antt =====
-- `NginxConfigParser::ParseToken` of src/config_parser.cc. The stream is the list of the bytes
-- that are left in it; a stream at its end is no longer `good()` after one more `get()`, and then
-- every later call answers `TOKEN_TYPE_EOF`, as on the empty list.
use boost_web_server.Common.{ℕ, Bool, ◌||◌, [], ◌∷◌, ◌++◌, ◌==◌, if◌then◌else◌, Bytes}

pub data TokenType : Type 0 where
  start normal start_block end_block comment statement_end eof error : TokenType

pub data TokenParserState : Type 0 where
  initial_whitespace single_quote double_quote token_type_comment token_type_normal :
      TokenParserState
  escape_single_quote escape_double_quote : TokenParserState

-- The token's type, its text, and the stream behind it.
pub record Token : Type 0 where
  pub type : TokenType
  pub value : Bytes
  pub rest : Bytes

-- One round of the loop either returns or goes on with the next byte.
pub data Scan : Type 0 where
  return : Token → Scan
  continue : TokenParserState → Bytes → Scan

abbrev pub token : TokenType → Bytes → Bytes → Scan
token t v rest = return (record { type = t; value = v; rest = rest })

unfoldable pub is_blank : ℕ → Bool
is_blank c = c == b' ' || c == b'\t' || c == b'\n' || c == b'\r'

-- The bytes that end an unquoted token, and that may follow a closing quote.
unfoldable pub is_end : ℕ → Bool
is_end c = c == b' ' || c == b'\t' || c == b'\n' || c == b';' || c == b'{' || c == b'}'

-- `case TOKEN_STATE_INITIAL_WHITESPACE`
unfoldable pub scan_whitespace : Bytes → ℕ → Bytes → Scan
scan_whitespace v c cs =
    if c == b'{'
    then token start_block (c ∷ []) cs
    else if c == b'}'
    then token end_block (c ∷ []) cs
    else if c == b'#'
    then continue token_type_comment (c ∷ [])
    else if c == b'"'
    then continue double_quote (c ∷ [])
    else if c == b'\''
    then continue single_quote (c ∷ [])
    else if c == b';'
    then token statement_end (c ∷ []) cs
    else if is_blank c
    then continue initial_whitespace v
    else continue token_type_normal (v ++ c ∷ [])

-- Behind a closing quote: the next byte is put back if it may follow, and otherwise it is gone.
-- At the end of the stream `get()` gives a byte that may not follow.
unfoldable pub scan_closed : Bytes → Bytes → Scan
scan_closed v [] = token error v []
scan_closed v (next_c ∷ cs) =
    if is_end next_c then token normal v (next_c ∷ cs) else token error v cs

-- The two quote states differ in the quote and in the state of an escape; the backslash that
-- begins an escape is appended and removed again.
unfoldable pub scan_quote : ℕ → TokenParserState → TokenParserState → Bytes → ℕ → Bytes → Scan
scan_quote quote here escape v c cs =
    if c == quote
    then scan_closed (v ++ c ∷ []) cs
    else if c == b'\\'
    then continue escape v
    else continue here (v ++ c ∷ [])

unfoldable pub scan_comment : Bytes → ℕ → Bytes → Scan
scan_comment v c cs =
    if c == b'\n' || c == b'\r'
    then token comment v cs
    else continue token_type_comment (v ++ c ∷ [])

unfoldable pub scan_normal : Bytes → ℕ → Bytes → Scan
scan_normal v c cs =
    if is_end c then token normal v (c ∷ cs) else continue token_type_normal (v ++ c ∷ [])

-- The `switch` of the loop, on the byte `c` with `cs` left in the stream.
unfoldable pub scan : TokenParserState → Bytes → ℕ → Bytes → Scan
unfolding scan_whitespace scan_quote scan_closed scan_comment scan_normal
scan initial_whitespace v c cs = scan_whitespace v c cs
scan single_quote v c cs = scan_quote b'\'' single_quote escape_single_quote v c cs
scan double_quote v c cs = scan_quote b'"' double_quote escape_double_quote v c cs
scan token_type_comment v c cs = scan_comment v c cs
scan token_type_normal v c cs = scan_normal v c cs
scan escape_single_quote v c cs = continue single_quote (v ++ c ∷ [])
scan escape_double_quote v c cs = continue double_quote (v ++ c ∷ [])

-- The end of the file.
unfoldable pub type_at_end : TokenParserState → TokenType
type_at_end single_quote = error
type_at_end double_quote = error
type_at_end _ = eof

unfoldable pub parse_token : TokenParserState → Bytes → Bytes → Token
unfolding type_at_end
parse_token state v [] = record { type = type_at_end state; value = v; rest = [] }
parse_token state v (c ∷ cs) = elim (scan state v c cs) [
  | return t ↦ t
  | continue state' v' ↦ parse_token state' v' cs
]

-- `ParseToken(config_file, &token)` with a fresh `token`.
abbrev pub next_token : Bytes → Token
next_token input = parse_token initial_whitespace [] input
