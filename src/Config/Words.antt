-- ===== src/Config/Words.antt =====
-- The words that `ParseToken` of src/config_parser.cc reads back as they are written.
use boost_web_server.Common.{
  ℕ, ◌≡◌, refl, ◌∙◌, ◌≢◌, Bool, true, false, not, ◌||◌, [], ◌∷◌, ◌++◌, append-nil, append_assoc,
  arith, ◌==◌, All, Bytes,
}
use boost_web_server.Config.Tokens.{
  normal, TokenParserState, initial_whitespace, single_quote, double_quote, token_type_normal,
  escape_single_quote, escape_double_quote, Token, is_blank, is_end, scan_closed, scan_quote, scan,
  parse_token, next_token,
}
use boost_web_server.Config.Lengths.{parse_token-return, parse_token-continue}

-- A byte that begins an unquoted token.
abbrev pub begins : ℕ → Bool
begins c =
    not (c == b'{' || c == b'}' || c == b'#' || c == b'"' || c == b'\'' || c == b';' || is_blank c)

-- An unquoted word, or a quoted one with no backslash and no quote inside; the token keeps its
-- quotes.
pub data IsWord : Bytes → Type 0 where
  plain : {c : ℕ} {cs : Bytes} → begins c ≡ true → All (λ d. is_end d ≡ false) cs → IsWord (c ∷ cs)
  in_single :
      (body : Bytes) {w : Bytes}
      → w ≡ b'\'' ∷ (body ++ b'\'' ∷ [])
      → All (λ d. (d ≢ b'\'') × (d ≢ b'\\')) body
      → IsWord w
  in_double :
      (body : Bytes) {w : Bytes}
      → w ≡ b'"' ∷ (body ++ b'"' ∷ [])
      → All (λ d. (d ≢ b'"') × (d ≢ b'\\')) body
      → IsWord w

abbrev pub normal_token : Bytes → Bytes → Token
normal_token v rest = record { type = normal; value = v; rest = rest }

read_normal :
    (cs v : Bytes) (d : ℕ) (rest : Bytes)
    → All (λ c. is_end c ≡ false) cs
    → is_end d ≡ true
    → parse_token token_type_normal v (cs ++ (d ∷ rest)) ≡ normal_token (v ++ cs) (d ∷ rest)
unfolding scan
read_normal [] v d rest h e =
    parse_token-return token_type_normal v d rest (normal_token v (d ∷ rest)) (rw e) ∙ rw append-nil
read_normal (c ∷ cs) v d rest h e =
    parse_token-continue token_type_normal token_type_normal v (v ++ c ∷ []) c _ (rw h.0)
    ∙ read_normal cs (v ++ c ∷ []) d rest h.1 e
    ∙ simp append_assoc

-- Both kinds of quotes, by the equation for their state.
module _ (quote : ℕ) (here escape : TokenParserState)
    (state_lem : (v : Bytes) (c : ℕ) (cs : Bytes)
      → scan here v c cs ≡ scan_quote quote here escape v c cs) where
  read_quoted :
      (body v : Bytes) (d : ℕ) (rest : Bytes)
      → All (λ c. (c ≢ quote) × (c ≢ b'\\')) body
      → is_end d ≡ true
      → parse_token here v (body ++ (quote ∷ d ∷ rest))
        ≡ normal_token (v ++ (body ++ quote ∷ [])) (d ∷ rest)
  unfolding scan_quote scan_closed
  read_quoted [] v d rest h e =
      parse_token-return here v quote (d ∷ rest) (normal_token (v ++ quote ∷ []) (d ∷ rest))
        (state_lem v quote (d ∷ rest) ∙ ground arith)
  read_quoted (c ∷ body) v d rest h e =
      parse_token-continue here here v (v ++ c ∷ []) c _ (state_lem v c _ ∙ ground arith)
      ∙ read_quoted body (v ++ c ∷ []) d rest h.1 e
      ∙ simp append_assoc

-- A word with an end byte behind it is one token.
pub next_token_word :
    {w : Bytes} (d : ℕ) (rest : Bytes)
    → IsWord w
    → is_end d ≡ true
    → next_token (w ++ (d ∷ rest)) ≡ normal_token w (d ∷ rest)
unfolding scan
next_token_word d rest (plain {c} {cs} b h) e =
    parse_token-continue initial_whitespace token_type_normal [] (c ∷ []) c _ (ground arith)
    ∙ read_normal cs (c ∷ []) d rest h e
next_token_word d rest (in_single body w h) e = rw w (
    simp append_assoc (
      parse_token-continue initial_whitespace single_quote [] (b'\'' ∷ []) b'\'' _ refl
      ∙ read_quoted b'\'' single_quote escape_single_quote (λ v c cs. refl) body (b'\'' ∷ []) d rest
          h e))
next_token_word d rest (in_double body w h) e = rw w (
    simp append_assoc (
      parse_token-continue initial_whitespace double_quote [] (b'"' ∷ []) b'"' _ refl
      ∙ read_quoted b'"' double_quote escape_double_quote (λ v c cs. refl) body (b'"' ∷ []) d rest h
          e))

pub next_token_blank :
    (c : ℕ) (cs : Bytes) → is_blank c ≡ true → next_token (c ∷ cs) ≡ next_token cs
unfolding scan is_blank
next_token_blank c cs h =
    parse_token-continue initial_whitespace initial_whitespace [] [] c cs (ground arith)
