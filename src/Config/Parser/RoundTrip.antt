-- ===== src/Config/Parser/RoundTrip.antt =====
-- `Parse` of src/config_parser.cc reads back what `ToString` prints.
use boost_web_server.Common.{
  ℕ, suc, ◌≡◌, refl, ◌∙◌, ◌≢◌, true, Option, none, some, List, [], ◌∷◌, ◌++◌, append-nil,
  append_assoc, Bytes, ok,
}
use boost_web_server.Config.Tokens.{
  TokenType, start, start_block, end_block, statement_end, is_end, parse_token,
}
use boost_web_server.Config.Tree.{NginxConfig, nil, cons, statement, block, indent, join, to_string}
use boost_web_server.Config.Parser.{ConfigStack, root, nested, step, parse}
use boost_web_server.Config.Parser.Fuel.{run, parse-run, run_step}
use boost_web_server.Config.Parser.Printable.{
  IsTokens, IsPrintable, empty, more, unbraced, braced, ◌+++◌, single, +++_nil, +++_assoc, with_top,
}
use boost_web_server.Config.Parser.Statements.{
  run_space, run_newline, run-indent, IsFresh, at_start, at_end, at_open, at_close, all_tokens,
  run_semicolon, run_open, MayClose, behind_statement, behind_open, behind_close, run_close,
}

-- The last token of the text of a configuration, behind the token `last`.
abbrev last_token : TokenType → NginxConfig → TokenType
last_token last nil = last
last_token last (cons (statement ts) c) = last_token statement_end c
last_token last (cons (block ts child) c) = last_token end_block c

last_token-IsFresh :
    {last : TokenType} (c : NginxConfig) → IsFresh last → IsFresh (last_token last c)
last_token-IsFresh nil f = f
last_token-IsFresh (cons (statement ts) c) f = last_token-IsFresh c at_end
last_token-IsFresh (cons (block ts child) c) f = last_token-IsFresh c at_close

last_token-MayClose :
    {last : TokenType} (c : NginxConfig) → MayClose last → MayClose (last_token last c)
last_token-MayClose nil f = f
last_token-MayClose (cons (statement ts) c) f = last_token-MayClose c behind_statement
last_token-MayClose (cons (block ts child) c) f = last_token-MayClose c behind_close

module _ {last : TokenType} (ts : List Bytes) (c : NginxConfig) (b : Option ConfigStack)
    (tail : Bytes) (f : IsFresh last) (k : IsTokens ts) where
  run_statement :
      (depth : ℕ)
      → run last (with_top c b) (indent depth ++ (join ts ++ (b';' ∷ b'\n' ∷ tail)))
        ≡ run statement_end (with_top (c +++ single (statement ts)) b) tail
  run_statement depth =
      run-indent depth _ _ _
      ∙ all_tokens ts c b b';' _ f k (unfold is_end in refl)
      ∙ run_semicolon _ _
      ∙ run_newline _ _ tail

  run_header :
      (depth : ℕ)
      → run last (with_top c b) (indent depth ++ (join ts ++ (b' ' ∷ b'{' ∷ b'\n' ∷ tail)))
        ≡ run start_block (nested nil (with_top (c +++ single (block ts nil)) b)) tail
  run_header depth =
      run-indent depth _ _ _
      ∙ all_tokens ts c b b' ' _ f k (unfold is_end in refl)
      ∙ run_space _ _ _
      ∙ run_open ts c b _
      ∙ run_newline _ _ tail

run_footer :
    {last : TokenType} (child : NginxConfig) (ts : List Bytes) (c : NginxConfig)
    (b : Option ConfigStack) (depth : ℕ) (tail : Bytes)
    → MayClose last
    → IsPrintable child
    → run last
        (nested child (with_top (c +++ single (block ts nil)) b))
        (indent depth ++ (b'}' ∷ b'\n' ∷ tail))
      ≡ run end_block (with_top (c +++ single (block ts child)) b) tail
run_footer child ts c b depth tail m p =
    run-indent depth _ _ _ ∙ run_close child ts c b _ m p ∙ run_newline _ _ tail

run-to_string :
    {last : TokenType} {c : NginxConfig} (depth : ℕ) (before : NginxConfig) (b : Option ConfigStack)
    (rest : Bytes)
    → IsFresh last
    → IsPrintable c
    → run last (with_top before b) (to_string c depth ++ rest)
      ≡ run (last_token last c) (with_top (before +++ c) b) rest
unfolding to_string
run-to_string depth before b rest f empty = rw +++_nil
run-to_string depth before b rest f (more {s = statement ts} {c} (unbraced k) p) =
    simp append_assoc (
      run_statement ts before b _ f k depth
      ∙ run-to_string depth (before +++ single (statement ts)) b rest at_end p
      ∙ rw +++_assoc)
run-to_string depth before b rest f (more {s = block ts child} {c} (braced k q) p) =
    let outer = with_top (before +++ single (block ts nil)) b in
    simp append_assoc (
      run_header ts before b _ f k depth
      ∙ run-to_string (suc depth) nil (some outer) _ at_open q
      ∙ run_footer child ts before b depth _ (last_token-MayClose child behind_open) q
      ∙ run-to_string depth (before +++ single (block ts child)) b rest at_close p
      ∙ rw +++_assoc)

run_end :
    {last : TokenType} (c : NginxConfig)
    → IsFresh last
    → last ≢ start_block
    → run last (root c) [] ≡ some (ok (record { valid = true; config = c }))
unfolding step parse_token
run_end c at_start h = run_step start (root c) []
run_end c at_end h = run_step statement_end (root c) []
run_end c at_close h = run_step end_block (root c) []
run_end c at_open h = absurd (h refl)

last_token-ne :
    (c : NginxConfig) (last : TokenType) → last ≢ start_block → last_token last c ≢ start_block
last_token-ne nil last h = h
last_token-ne (cons (statement ts) c) last h = last_token-ne c statement_end (λ e. cc)
last_token-ne (cons (block ts child) c) last h = last_token-ne c end_block (λ e. cc)

-- `Parse` accepts the text that `ToString` prints, at any indentation, and builds the same
-- configuration from it, if every statement has a token and every token is a word: an unquoted
-- one without blanks, semicolons and braces that begins with no quote and no `#`, or a quoted one
-- with neither its quote nor a backslash inside.
pub parse-to_string :
    (c : NginxConfig) (depth : ℕ)
    → IsPrintable c
    → parse (to_string c depth) ≡ some (ok (record { valid = true; config = c }))
parse-to_string c depth p =
    parse-run (to_string c depth)
    ∙ rw (← append-nil (to_string c depth)) (run-to_string depth nil none [] at_start p)
    ∙ run_end c (last_token-IsFresh c at_start) (last_token-ne c start (λ e. cc))
