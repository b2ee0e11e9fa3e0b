-- ===== src/Config/Parser/Printable.antt =====
-- The configurations that `Parse` of src/config_parser.cc reads back from their `ToString`, and
-- the operations of the parser on a stack with a known top.
use boost_web_server.Common.{
  ◌≡◌, refl, ap, ◌≢◌, Option, none, some, List, [], arith, All, Bytes, ok,
}
use boost_web_server.Config.Tree.{
  NginxConfig, nil, cons, NginxConfigStatement, statement, block, tokens_,
}
use boost_web_server.Config.Words.{IsWord}
use boost_web_server.Config.Parser.{
  ConfigStack, root, nested, add_statement, reset_child, on_last, top, set_top, pop, check_listen,
}

abbrev pub IsTokens : List Bytes → Type 0
IsTokens ts = All IsWord ts × (ts ≢ [])

-- Every statement has at least one token, and every token is a word.
mutual
  pub data IsPrintable : NginxConfig → Type 0 where
    empty : IsPrintable nil
    more :
        {s : NginxConfigStatement} {c : NginxConfig}
        → IsPrintableStatement s
        → IsPrintable c
        → IsPrintable (cons s c)

  pub data IsPrintableStatement : NginxConfigStatement → Type 0 where
    unbraced : {ts : List Bytes} → IsTokens ts → IsPrintableStatement (statement ts)
    braced :
        {ts : List Bytes} {child : NginxConfig}
        → IsTokens ts
        → IsPrintable child
        → IsPrintableStatement (block ts child)

infixl 65 ◌+++◌
abbrev pub ◌+++◌ : NginxConfig → NginxConfig → NginxConfig
nil +++ d = d
cons s c +++ d = cons s (c +++ d)

abbrev pub single : NginxConfigStatement → NginxConfig
single s = cons s nil

pub +++_nil : (c : NginxConfig) → c +++ nil ≡ c
+++_nil nil = refl
+++_nil (cons s c) = ap (cons s) (+++_nil c)

pub +++_assoc : (c d e : NginxConfig) → (c +++ d) +++ e ≡ c +++ (d +++ e)
+++_assoc nil d e = refl
+++_assoc (cons s c) d e = ap (cons s) (+++_assoc c d e)

pub add_statement_lem : (c : NginxConfig) → add_statement c ≡ c +++ single (statement [])
unfolding add_statement
add_statement_lem nil = refl
add_statement_lem (cons s c) = ap (cons s) (add_statement_lem c)

pub on_last-single :
    (f : NginxConfigStatement → NginxConfigStatement) (c : NginxConfig) (s : NginxConfigStatement)
    → on_last f (c +++ single s) ≡ ok (c +++ single (f s))
unfolding on_last
on_last-single f nil s = refl
on_last-single f (cons x nil) s = refl
on_last-single f (cons x (cons y c)) s = rw (on_last-single f (cons y c) s)

-- A stack with `c` on top of the open configurations `below`, if any.
abbrev pub with_top : NginxConfig → Option ConfigStack → ConfigStack
with_top c none = root c
with_top c (some below) = nested c below

pub top-with_top : (c : NginxConfig) (b : Option ConfigStack) → top (with_top c b) ≡ ok c
unfolding top
top-with_top c none = refl
top-with_top c (some below) = refl

pub set_top-with_top :
    (c d : NginxConfig) (b : Option ConfigStack) → set_top d (with_top c b) ≡ with_top d b
unfolding set_top
set_top-with_top c d none = refl
set_top-with_top c d (some below) = refl

pub pop-nested :
    (child c : NginxConfig) (s : NginxConfigStatement) (b : Option ConfigStack)
    → pop (nested child (with_top (c +++ single s) b))
      ≡ ok (with_top (c +++ single (block (tokens_ s) child)) b)
unfolding pop
pop-nested child c s none = rw (on_last-single (reset_child child) c s)
pop-nested child c s (some below) = rw (on_last-single (reset_child child) c s)

pub check_listen_cons :
    (s : NginxConfigStatement) (c : NginxConfig)
    → tokens_ s ≢ []
    → check_listen c ≡ ok tt
    → check_listen (cons s c) ≡ ok tt
unfolding check_listen
check_listen_cons s c h e = ground arith

pub check_listen_lem : {c : NginxConfig} → IsPrintable c → check_listen c ≡ ok tt
check_listen_lem empty = unfold check_listen in refl
check_listen_lem (more {s = statement ts} {c} (unbraced h) p) =
    check_listen_cons (statement ts) c h.1 (check_listen_lem p)
check_listen_lem (more {s = block ts d} {c} (braced h q) p) =
    check_listen_cons (block ts d) c h.1 (check_listen_lem p)
