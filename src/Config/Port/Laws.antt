-- ===== src/Config/Port/Laws.antt =====
-- Which port `get_listen_port` of src/config_parser.cc gives.
use boost_web_server.Common.{
  ℕ, ◌≤◌, ◌≡◌, refl, ◌∙◌, ◌⊎◌, inl, inr, none, List, [], ◌∷◌, arith, Bytes, codes, ℤ, pos, negsuc,
  stoi, invalid_argument, Result, ok, err, ◌>>=◌, >>=-eq-ok, Result-cases, ◌=s=◌,
}
use boost_web_server.Config.Tree.{NginxConfig, nil, cons, statement, block}
use boost_web_server.Config.Port.{check_port, listen_argument, listen_loop, get_listen_port}
use boost_web_server.Config.Parser.Printable.{◌+++◌}

-- A port that is returned lies from 1 to 65535.
pub get_listen_port_bounds :
    (c : NginxConfig) (p : ℤ)
    → get_listen_port c ≡ ok p
    → (n : ℕ) × (p ≡ pos n) × (1 ≤ n) × (n ≤ 65535)
unfolding get_listen_port
get_listen_port_bounds c p h =
    let (q, _, checked) = >>=-eq-ok (listen_loop (negsuc 0) c) check_port h in in_range q checked
  where
    in_range : (q : ℤ) → check_port q ≡ ok p → (n : ℕ) × (p ≡ pos n) × (1 ≤ n) × (n ≤ 65535)
    in_range (negsuc n) e = cc
    in_range (pos n) e = (n, ground arith, ground arith, ground arith)

-- Statements before which no `listen` stands: none is a `listen` with one argument, and none has
-- a block.
pub data IsPlain : NginxConfig → Type 0 where
  empty : IsPlain nil
  other :
      {ts : List Bytes} {c : NginxConfig}
      → listen_argument ts ≡ none
      → IsPlain c
      → IsPlain (cons (statement ts) c)

-- A configuration without a `listen` of one argument, those inside its blocks included.
pub data NoListen : NginxConfig → Type 0 where
  empty : NoListen nil
  other :
      {ts : List Bytes} {c : NginxConfig}
      → listen_argument ts ≡ none
      → NoListen c
      → NoListen (cons (statement ts) c)
  inner :
      {ts : List Bytes} {child c : NginxConfig}
      → NoListen child
      → NoListen c
      → NoListen (cons (block ts child) c)

listen_loop-other :
    (port : ℤ) (ts : List Bytes) (c : NginxConfig)
    → listen_argument ts ≡ none
    → listen_loop port (cons (statement ts) c) ≡ listen_loop port c
unfolding listen_loop
listen_loop-other port ts c h = ground arith

listen_loop-IsPlain :
    {before : NginxConfig} (port : ℤ) (c : NginxConfig)
    → IsPlain before
    → listen_loop port (before +++ c) ≡ listen_loop port c
listen_loop-IsPlain port c empty = refl
listen_loop-IsPlain port c (other {ts} {c = d} h p) =
    listen_loop-other port ts (d +++ c) h ∙ listen_loop-IsPlain port c p

-- The first `listen` statement decides, if only plain statements stand before it: its argument is
-- converted and checked, and what follows it is not looked at.
pub get_listen_port_first :
    {before : NginxConfig} (value : Bytes) (after : NginxConfig)
    → IsPlain before
    → get_listen_port (before +++ cons (statement (codes "listen" ∷ value ∷ [])) after)
      ≡ (stoi value >>= check_port)
unfolding get_listen_port listen_loop ◌=s=◌
get_listen_port_first value after p =
    rw (listen_loop-IsPlain (negsuc 0) _ p)
      (elim (Result-cases (stoi value)) [ inl (q, e) ↦ rw e | inr (x, e) ↦ rw e ])

-- Without a `listen` statement the loop keeps the value -1, or a block has thrown.
abbrev IsUnset : Result ℤ → Type 0
IsUnset m = (m ≡ ok (negsuc 0)) ⊎ (m ≡ err invalid_argument)

unset_check : (m : Result ℤ) → IsUnset m → (m >>= check_port) ≡ err invalid_argument
unfolding check_port
unset_check m (inl e) = rw e
unset_check m (inr e) = rw e

listen_loop-block :
    (port : ℤ) (ts : List Bytes) (child c : NginxConfig)
    → IsUnset (listen_loop (negsuc 0) child)
    → listen_loop port (cons (block ts child) c) ≡ err invalid_argument
unfolding listen_loop check_port
listen_loop-block port ts child c (inl e) = rw e
listen_loop-block port ts child c (inr e) = rw e

listen_loop-IsUnset : {c : NginxConfig} → NoListen c → IsUnset (listen_loop (negsuc 0) c)
listen_loop-IsUnset empty = inl (unfold listen_loop in refl)
listen_loop-IsUnset (other {ts} {c} h n) =
    rw (listen_loop-other (negsuc 0) ts c h) (listen_loop-IsUnset n)
listen_loop-IsUnset (inner {ts} {child} {c} n m) =
    inr (listen_loop-block (negsuc 0) ts child c (listen_loop-IsUnset n))

-- Without a `listen` statement of one argument the function throws `invalid_argument`.
pub get_listen_port-NoListen :
    {c : NginxConfig} → NoListen c → get_listen_port c ≡ err invalid_argument
unfolding get_listen_port
get_listen_port-NoListen {c} n = unset_check (listen_loop (negsuc 0) c) (listen_loop-IsUnset n)

-- A block without a `listen` statement inside, behind plain statements none of which is a `listen`
-- statement of one argument, makes the function throw `invalid_argument`, whatever follows the block.
pub get_listen_port_behind_block :
    {before child : NginxConfig} (ts : List Bytes) (after : NginxConfig)
    → IsPlain before
    → NoListen child
    → get_listen_port (before +++ cons (block ts child) after) ≡ err invalid_argument
unfolding get_listen_port
get_listen_port_behind_block {child} ts after p n = rw (
  listen_loop-IsPlain (negsuc 0) (cons (block ts child) after) p,
  listen_loop-block (negsuc 0) ts child after (listen_loop-IsUnset n),
)
