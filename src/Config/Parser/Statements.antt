-- ===== src/Config/Parser/Statements.antt =====
-- `Parse` of src/config_parser.cc over one statement, with any text behind it.
use boost_web_server.Common.{
  ℕ, zero, suc, ◌≡◌, refl, sym, ◌∙◌, ◌≢◌, true, Option, List, [], ◌∷◌, ◌++◌, append_assoc, All,
  Bytes, ok,
}
use boost_web_server.Config.Tokens.{
  TokenType, start, normal, start_block, end_block, statement_end, initial_whitespace, Token,
  is_blank, is_end, scan, next_token,
}
use boost_web_server.Config.Tree.{NginxConfig, nil, statement, block, indent, join}
use boost_web_server.Config.Words.{IsWord, next_token_word, next_token_blank}
use boost_web_server.Config.Parser.{
  ConfigStack, nested, add_statement, push_to_statement, reset_child, on_last, top, accept, step,
}
use boost_web_server.Config.Parser.Fuel.{run, run_step}
use boost_web_server.Config.Parser.Printable.{
  IsTokens, IsPrintable, ◌+++◌, single, add_statement_lem, on_last-single, with_top, top-with_top,
  set_top-with_top, pop-nested, check_listen_lem,
}
use boost_web_server.Config.Lengths.{parse_token-return}

run_accept :
    (last : TokenType) (stack stack' : ConfigStack) (input : Bytes) {t : Token}
    → next_token input ≡ t
    → step last stack t.type t.value ≡ ok (accept stack')
    → run last stack input ≡ run t.type stack' t.rest
run_accept last stack stack' input e h = run_step last stack input ∙ rw e (rw h)

pub run_blank :
    (last : TokenType) (stack : ConfigStack) (c : ℕ) (cs : Bytes)
    → is_blank c ≡ true
    → run last stack (c ∷ cs) ≡ run last stack cs
run_blank last stack c cs h =
    run_step last stack (c ∷ cs) ∙ rw (next_token_blank c cs h) (sym (run_step last stack cs))

pub run_space :
    (last : TokenType) (stack : ConfigStack) (cs : Bytes)
    → run last stack (b' ' ∷ cs) ≡ run last stack cs
run_space last stack cs = run_blank last stack b' ' cs (unfold is_blank in refl)

pub run_newline :
    (last : TokenType) (stack : ConfigStack) (cs : Bytes)
    → run last stack (b'\n' ∷ cs) ≡ run last stack cs
run_newline last stack cs = run_blank last stack b'\n' cs (unfold is_blank in refl)

pub run-indent :
    (depth : ℕ) (last : TokenType) (stack : ConfigStack) (cs : Bytes)
    → run last stack (indent depth ++ cs) ≡ run last stack cs
unfolding indent
run-indent zero last stack cs = refl
run-indent (suc depth) last stack cs =
    run_space last stack _ ∙ run_space last stack _ ∙ run-indent depth last stack cs

-- Behind these tokens a new statement begins.
pub data IsFresh : TokenType → Type 0 where
  at_start : IsFresh start
  at_end : IsFresh statement_end
  at_open : IsFresh start_block
  at_close : IsFresh end_block

begin_statement :
    (t : Bytes) (c : NginxConfig)
    → on_last (push_to_statement t) (add_statement c) ≡ ok (c +++ single (statement (t ∷ [])))
unfolding push_to_statement
begin_statement t c =
    rw (add_statement_lem c) (on_last-single (push_to_statement t) c (statement []))

first_token :
    {last : TokenType} (t : Bytes) (c : NginxConfig) (b : Option ConfigStack)
    → IsFresh last
    → step last (with_top c b) normal t
      ≡ ok (accept (with_top (c +++ single (statement (t ∷ []))) b))
unfolding step
first_token t c b at_start = rw (top-with_top c b, begin_statement t c, set_top-with_top c _ b)
first_token t c b _ = rw (top-with_top c b, begin_statement t c, set_top-with_top c _ b)

later_token :
    (t : Bytes) (ts : List Bytes) (c : NginxConfig) (b : Option ConfigStack)
    → step normal (with_top (c +++ single (statement ts)) b) normal t
      ≡ ok (accept (with_top (c +++ single (statement (ts ++ t ∷ []))) b))
unfolding step push_to_statement
later_token t ts c b = rw (
  top-with_top (c +++ single (statement ts)) b,
  on_last-single (push_to_statement t) c (statement ts),
  set_top-with_top (c +++ single (statement ts)) _ b,
)

-- The tokens of a statement behind its first one.
later_tokens :
    (us ts : List Bytes) (c : NginxConfig) (b : Option ConfigStack) (d : ℕ) (rest : Bytes)
    → All IsWord us
    → us ≢ []
    → is_end d ≡ true
    → run normal (with_top (c +++ single (statement ts)) b) (b' ' ∷ (join us ++ (d ∷ rest)))
      ≡ run normal (with_top (c +++ single (statement (ts ++ us))) b) (d ∷ rest)
unfolding join
later_tokens [] ts c b d rest w ne e = absurd (ne refl)
later_tokens (u ∷ []) ts c b d rest w ne e =
    run_space normal _ _
    ∙ run_accept normal _ _ _ (next_token_word d rest w.0 e) (later_token u ts c b)
later_tokens (u ∷ v ∷ us) ts c b d rest w ne e =
    run_space normal _ _
    ∙ rw append_assoc (
        run_accept normal _ _ _ (next_token_word b' ' _ w.0 (unfold is_end in refl))
          (later_token u ts c b))
    ∙ later_tokens (v ∷ us) (ts ++ u ∷ []) c b d rest w.1 (λ p. cc) e
    ∙ simp append_assoc

-- The tokens of a statement behind a token with which a new statement begins.
pub all_tokens :
    {last : TokenType} (ts : List Bytes) (c : NginxConfig) (b : Option ConfigStack) (d : ℕ)
    (rest : Bytes)
    → IsFresh last
    → IsTokens ts
    → is_end d ≡ true
    → run last (with_top c b) (join ts ++ (d ∷ rest))
      ≡ run normal (with_top (c +++ single (statement ts)) b) (d ∷ rest)
unfolding join
all_tokens [] c b d rest f k e = absurd (k.1 refl)
all_tokens (t ∷ []) c b d rest f k e =
    run_accept _ _ _ _ (next_token_word d rest k.0.0 e) (first_token t c b f)
all_tokens (t ∷ u ∷ ts) c b d rest f k e =
    rw append_assoc (
      run_accept _ _ _ _ (next_token_word b' ' _ k.0.0 (unfold is_end in refl))
        (first_token t c b f))
    ∙ later_tokens (u ∷ ts) (t ∷ []) c b d rest k.0.1 (λ p. cc) e

pub run_semicolon :
    (stack : ConfigStack) (rest : Bytes)
    → run normal stack (b';' ∷ rest) ≡ run statement_end stack rest
unfolding step scan
run_semicolon stack rest =
    run_accept normal stack stack (b';' ∷ rest)
      (parse_token-return initial_whitespace [] b';' rest _ refl) refl

pub run_open :
    (ts : List Bytes) (c : NginxConfig) (b : Option ConfigStack) (rest : Bytes)
    → run normal (with_top (c +++ single (statement ts)) b) (b'{' ∷ rest)
      ≡ run start_block (nested nil (with_top (c +++ single (block ts nil)) b)) rest
unfolding step scan
run_open ts c b rest =
    run_accept normal _ (nested nil (with_top (c +++ single (block ts nil)) b)) (b'{' ∷ rest)
      (parse_token-return initial_whitespace [] b'{' rest _ refl)
      (rw (
        top-with_top (c +++ single (statement ts)) b,
        on_last-single (reset_child nil) c (statement ts),
        set_top-with_top (c +++ single (statement ts)) _ b,
      ))

pub data MayClose : TokenType → Type 0 where
  behind_statement : MayClose statement_end
  behind_open : MayClose start_block
  behind_close : MayClose end_block

close_step :
    {last : TokenType} (child : NginxConfig) (ts : List Bytes) (c : NginxConfig)
    (b : Option ConfigStack) (t : Bytes)
    → MayClose last
    → IsPrintable child
    → step last (nested child (with_top (c +++ single (block ts nil)) b)) end_block t
      ≡ ok (accept (with_top (c +++ single (block ts child)) b))
unfolding step top
close_step child ts c b t behind_statement p =
    rw (check_listen_lem p, pop-nested child c (block ts nil) b)
close_step child ts c b t _ p = rw (check_listen_lem p, pop-nested child c (block ts nil) b)

pub run_close :
    {last : TokenType} (child : NginxConfig) (ts : List Bytes) (c : NginxConfig)
    (b : Option ConfigStack) (rest : Bytes)
    → MayClose last
    → IsPrintable child
    → run last (nested child (with_top (c +++ single (block ts nil)) b)) (b'}' ∷ rest)
      ≡ run end_block (with_top (c +++ single (block ts child)) b) rest
unfolding scan
run_close child ts c b rest m p =
    run_accept _ _ _ (b'}' ∷ rest) (parse_token-return initial_whitespace [] b'}' rest _ refl)
      (close_step child ts c b _ m p)
