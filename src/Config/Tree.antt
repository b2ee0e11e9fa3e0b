-- ===== src/Config/Tree.antt =====
-- `NginxConfig` and `NginxConfigStatement` of include/config_parser.h, and their `ToString`. The
-- vector of statements is a list type of its own, and a statement whose `child_block_` is null
-- has a constructor of its own.
use boost_web_server.Common.{ℕ, zero, suc, List, [], ◌∷◌, ◌++◌, Bytes}

mutual
  pub data NginxConfig : Type 0 where
    nil : NginxConfig
    cons : NginxConfigStatement → NginxConfig → NginxConfig

  pub data NginxConfigStatement : Type 0 where
    statement : List Bytes → NginxConfigStatement
    block : List Bytes → NginxConfig → NginxConfigStatement

abbrev pub tokens_ : NginxConfigStatement → List Bytes
tokens_ (statement ts) = ts
tokens_ (block ts child) = ts

unfoldable pub indent : ℕ → Bytes
indent zero = []
indent (suc depth) = b' ' ∷ b' ' ∷ indent depth

-- The tokens with a blank before each but the first.
unfoldable pub join : List Bytes → Bytes
join [] = []
join (t ∷ []) = t
join (t ∷ u ∷ ts) = t ++ (b' ' ∷ join (u ∷ ts))

unfoldable mutual
  unfolding indent join

  pub to_string : NginxConfig → ℕ → Bytes
  to_string nil depth = []
  to_string (cons s c) depth = statement_to_string s depth ++ to_string c depth

  pub statement_to_string : NginxConfigStatement → ℕ → Bytes
  statement_to_string (statement ts) depth = indent depth ++ (join ts ++ (b';' ∷ b'\n' ∷ []))
  statement_to_string (block ts child) depth =
      indent depth
      ++ (join ts
          ++ (b' '
              ∷ b'{'
              ∷ b'\n'
              ∷ (to_string child (suc depth) ++ (indent depth ++ (b'}' ∷ b'\n' ∷ [])))))
