-- ===== src/Config/Parser.antt =====
-- `NginxConfigParser::Parse` of src/config_parser.cc. The stack of pointers into the tree is the
-- stack of the configurations that are still open: a block under construction is attached to the
-- last statement of its parent when it is popped.
pub mod Fuel
mod Stacks
pub mod Faults
pub mod Printable
pub mod RoundTrip
mod Statements
use boost_web_server.Common.{
  ℕ, zero, suc, Bool, true, false, not, ◌&&◌, Option, none, some, [], ◌∷◌, ◌++◌, ◌==◌,
  if◌then◌else◌, length, Bytes, codes, ◌=s=◌, empty_back, empty_stack, bad_index, Result, ok, err,
  ◌>>=◌,
}
use boost_web_server.Config.Tokens.{
  TokenType, start, normal, start_block, end_block, comment, statement_end, eof, error, Token,
  next_token,
}
use boost_web_server.Config.Tree.{
  NginxConfig, nil, cons, NginxConfigStatement, statement, block, tokens_,
}

-- `emptied` is the stack after the pop of the outermost configuration, which it remembers.
pub data ConfigStack : Type 0 where
  emptied : NginxConfig → ConfigStack
  root : NginxConfig → ConfigStack
  nested : NginxConfig → ConfigStack → ConfigStack

-- `statements_.emplace_back(new NginxConfigStatement)`
unfoldable pub add_statement : NginxConfig → NginxConfig
add_statement nil = cons (statement []) nil
add_statement (cons s c) = cons s (add_statement c)

unfoldable pub push_to_statement : Bytes → NginxConfigStatement → NginxConfigStatement
push_to_statement t (statement ts) = statement (ts ++ t ∷ [])
push_to_statement t (block ts child) = block (ts ++ t ∷ []) child

abbrev pub reset_child : NginxConfig → NginxConfigStatement → NginxConfigStatement
reset_child child s = block (tokens_ s) child

-- A change of `statements_.back()`, undefined on an empty vector.
unfoldable pub on_last :
    (NginxConfigStatement → NginxConfigStatement) → NginxConfig → Result NginxConfig
on_last f nil = err empty_back
on_last f (cons s nil) = ok (cons (f s) nil)
on_last f (cons s (cons t c)) = do rest ← on_last f (cons t c); ok (cons s rest)

-- `config_stack.top()`, and a change of what it points to.
unfoldable pub top : ConfigStack → Result NginxConfig
top (emptied c) = err empty_stack
top (root c) = ok c
top (nested c below) = ok c

unfoldable pub set_top : NginxConfig → ConfigStack → ConfigStack
set_top c (emptied d) = emptied d
set_top c (root d) = root c
set_top c (nested d below) = nested c below

-- What a closed block becomes part of.
unfoldable pub attach : NginxConfig → ConfigStack → Result ConfigStack
attach child (emptied c) = err empty_stack
attach child (root c) = do d ← on_last (reset_child child) c; ok (root d)
attach child (nested c below) = do d ← on_last (reset_child child) c; ok (nested d below)

-- `config_stack.pop()`
unfoldable pub pop : ConfigStack → Result ConfigStack
unfolding attach
pop (emptied c) = err empty_stack
pop (root c) = ok (emptied c)
pop (nested c below) = attach c below

-- The tree under the caller's pointer `config`, blocks that are still open included.
unfoldable pub close_onto : NginxConfig → ConfigStack → Result NginxConfig
close_onto child (emptied c) = err empty_stack
close_onto child (root c) = on_last (reset_child child) c
close_onto child (nested c below) = do d ← on_last (reset_child child) c; close_onto d below

unfoldable pub out_config : ConfigStack → Result NginxConfig
unfolding close_onto
out_config (emptied c) = ok c
out_config (root c) = ok c
out_config (nested c below) = close_onto c below

-- The return value of `Parse`, and the configuration behind its pointer.
pub record ParseOutcome : Type 0 where
  pub valid : Bool
  pub config : NginxConfig

-- One round of the loop returns, or goes on; `skip` is the `continue` behind a comment, which
-- leaves `last_token_type` as it is.
pub data Round : Type 0 where
  leave : ParseOutcome → Round
  skip : Round
  accept : ConfigStack → Round

-- `break`: the configuration stays as far as it was built.
unfoldable pub fail : ConfigStack → Result Round
unfolding out_config
fail stack = do c ← out_config stack; ok (leave (record { valid = false; config = c }))

-- `case TOKEN_TYPE_NORMAL`, on the last token's type
unfoldable pub on_normal : TokenType → Bytes → ConfigStack → Result Round
on_normal last t stack = do
  c ← top stack
  d ← on_last (push_to_statement t) (elim last [ normal ↦ c | _ ↦ add_statement c ])
  ok (accept (set_top d stack))

unfoldable pub on_start_block : ConfigStack → Result Round
on_start_block stack = do
  c ← top stack
  d ← on_last (reset_child nil) c
  ok (accept (nested nil (set_top d stack)))

-- The loop over the block's statements at `}`: it reads every statement's first token, up to a
-- `listen` statement without exactly one argument, and changes nothing.
unfoldable pub check_listen : NginxConfig → Result (Unit {0})
check_listen nil = ok tt
check_listen (cons s c) =
    let rest = check_listen c in
    elim (tokens_ s) [
      | [] ↦ err bad_index
      | t ∷ ts ↦ if t =s= codes "listen" && not (length (tokens_ s) == 2) then ok tt else rest
    ]

unfoldable pub on_end_block : ConfigStack → Result Round
on_end_block stack = do c ← top stack; _ ← check_listen c; below ← pop stack; ok (accept below)

-- `config_stack.pop(); if (config_stack.size() > 0) break; return true;`
unfoldable pub on_eof : ConfigStack → Result Round
on_eof (emptied c) = err empty_stack
on_eof (root c) = ok (leave (record { valid = true; config = c }))
on_eof (nested c below) = fail (nested c below)

abbrev pub may_start : TokenType → Bool
may_start comment = false
may_start eof = false
may_start error = false
may_start _ = true

-- The body of the loop, on the last token's type and the token that was read.
unfoldable pub step : TokenType → ConfigStack → TokenType → Bytes → Result Round
unfolding fail on_normal on_start_block on_end_block on_eof
step last stack error t = fail stack
step last stack comment t = ok skip
step last stack start t = fail stack
step last stack normal t = if may_start last then on_normal last t stack else fail stack
step last stack statement_end t = elim last [ normal ↦ ok (accept stack) | _ ↦ fail stack ]
step last stack start_block t = elim last [ normal ↦ on_start_block stack | _ ↦ fail stack ]
step last stack end_block t = elim last [
  | start_block ↦ on_end_block stack
  | statement_end ↦ on_end_block stack
  | end_block ↦ on_end_block stack
  | _ ↦ fail stack
]
step last stack eof t = elim last [
  | statement_end ↦ on_eof stack
  | end_block ↦ on_eof stack
  | start ↦ on_eof stack
  | _ ↦ fail stack
]

-- What follows a round, with the rest of the loop as a function.
abbrev pub after :
    (TokenType → ConfigStack → Bytes → Option (Result ParseOutcome))
    → TokenType
    → ConfigStack
    → Token
    → Result Round
    → Option (Result ParseOutcome)
after again last stack t (err e) = some (err e)
after again last stack t (ok (leave outcome)) = some (ok outcome)
after again last stack t (ok skip) = again last stack t.rest
after again last stack t (ok (accept stack')) = again t.type stack' t.rest

-- The loop; `none` means that the fuel ran out.
unfoldable pub loop : ℕ → TokenType → ConfigStack → Bytes → Option (Result ParseOutcome)
loop zero last stack input = none
loop (suc fuel) last stack input =
    let t = next_token input in after (loop fuel) last stack t (step last stack t.type t.value)

-- Every token but the last takes at least one byte.
unfoldable pub parse : Bytes → Option (Result ParseOutcome)
unfolding loop
parse input = loop (suc (length input)) start (root nil) input
