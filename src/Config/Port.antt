-- ===== src/Config/Port.antt =====
-- `NginxConfig::get_listen_port` of src/config_parser.cc.
pub mod Laws
use boost_web_server.Common.{
  Bool, true, false, ◌||◌, Option, none, some, List, [], ◌∷◌, ltb, if◌then◌else◌, Bytes, codes,
  ◌=s=◌, ℤ, pos, negsuc, stoi, invalid_argument, Result, ok, err, ◌>>=◌,
}
use boost_web_server.Config.Tree.{NginxConfig, nil, cons, NginxConfigStatement, statement, block}

-- The check behind the loop.
unfoldable pub check_port : ℤ → Result ℤ
check_port (negsuc n) = err invalid_argument
check_port (pos n) = if ltb n 1 || ltb 65535 n then err invalid_argument else ok (pos n)

-- A `listen` statement with one argument, and the argument.
unfoldable pub listen_argument : List Bytes → Option Bytes
listen_argument (name ∷ value ∷ []) = if name =s= codes "listen" then some value else none
listen_argument _ = none

-- The value of `port` behind a statement, and whether the loop is left.
pub record PortRound : Type 0 where
  pub port : ℤ
  pub found : Bool

-- The loop over the statements, from a value of `port`. A block calls the whole function on its
-- statements, check included.
unfoldable mutual
  unfolding check_port listen_argument

  pub listen_loop : ℤ → NginxConfig → Result ℤ
  listen_loop port nil = ok port
  listen_loop port (cons s c) = do
    r ← listen_statement port s
    if r.found then ok r.port else listen_loop r.port c

  pub listen_statement : ℤ → NginxConfigStatement → Result PortRound
  listen_statement port (statement ts) = elim (listen_argument ts) [
    | none ↦ ok (record { port = port; found = false })
    | some value ↦ stoi value >>= λ p. ok (record { port = p; found = true })
  ]
  listen_statement port (block ts child) = do
    p ← listen_loop (negsuc 0) child
    q ← check_port p
    ok (record { port = q; found = false })

unfoldable pub get_listen_port : NginxConfig → Result ℤ
unfolding listen_loop check_port
get_listen_port c = do p ← listen_loop (negsuc 0) c; check_port p
