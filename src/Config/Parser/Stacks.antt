-- ===== src/Config/Parser/Stacks.antt =====
-- The stacks that `Parse` of src/config_parser.cc builds: what they are relied on for.
use boost_web_server.Common.{◌≡◌, refl, ◌≢◌, [], Bytes, concat-ne, empty_stack, Result, ok, err}
use boost_web_server.Config.Tree.{
  NginxConfig, nil, cons, NginxConfigStatement, statement, block, tokens_,
}
use boost_web_server.Config.Parser.{
  ConfigStack, emptied, root, nested, add_statement, push_to_statement, reset_child, on_last, top,
  set_top, close_onto, check_listen,
}
use boost_web_server.Config.Parser.Printable.{check_listen_cons}

abbrev pub IsNamed : NginxConfigStatement → Type 0
IsNamed s = tokens_ s ≢ []

-- Every statement has a token; those of closed blocks are not looked at again.
abbrev pub Named : NginxConfig → Type 0
Named nil = Unit
Named (cons s c) = IsNamed s × Named c

-- There is a last statement, which is as `Q` says, and the others have a token.
abbrev pub Ends : (NginxConfigStatement → Type 0) → NginxConfig → Type 0
Ends Q nil = ⊥
Ends Q (cons s nil) = Q s
Ends Q (cons s (cons t c)) = IsNamed s × Ends Q (cons t c)

-- A configuration whose block can be attached.
abbrev pub HasLast : ConfigStack → Type 0
HasLast (emptied c) = Unit
HasLast (root c) = c ≢ nil
HasLast (nested c below) = c ≢ nil

abbrev pub IsSound : ConfigStack → Type 0
IsSound (emptied c) = Unit
IsSound (root c) = Named c
IsSound (nested c below) = Named c × HasLast below × IsSound below

abbrev pub OnlyEmpty {ℓ} : {A : Type ℓ} → Result A → Type 0
OnlyEmpty (ok a) = Unit
OnlyEmpty (err e) = e ≡ empty_stack

pub Named-Ends : (c : NginxConfig) → Named c → c ≢ nil → Ends IsNamed c
Named-Ends nil h ne = ne refl
Named-Ends (cons s nil) h ne = h.0
Named-Ends (cons s (cons t c)) h ne = (h.0, Named-Ends (cons t c) h.1 (λ e. cc))

pub add_statement-Ends : (c : NginxConfig) → Named c → Ends (λ s. Unit) (add_statement c)
unfolding add_statement
add_statement-Ends nil h = tt
add_statement-Ends (cons s nil) h = (h.0, tt)
add_statement-Ends (cons s (cons t c)) h = (h.0, add_statement-Ends (cons t c) h.1)

pub on_last-Named :
    (Q : NginxConfigStatement → Type 0) (f : NginxConfigStatement → NginxConfigStatement)
    (c : NginxConfig)
    → ((s : NginxConfigStatement) → Q s → IsNamed (f s))
    → Ends Q c
    → (d : NginxConfig) × (on_last f c ≡ ok d) × Named d × (d ≢ nil)
unfolding on_last
on_last-Named Q f nil h e = absurd e
on_last-Named Q f (cons s nil) h e = (cons (f s) nil, refl, (h s e, tt), λ same. cc)
on_last-Named Q f (cons s (cons t c)) h e =
    let (d, run, named, _) = on_last-Named Q f (cons t c) h e.1 in
    (cons s d, rw (run, on_last), (e.0, named), λ same. cc)

pub push-IsNamed : (t : Bytes) (s : NginxConfigStatement) → IsNamed (push_to_statement t s)
unfolding push_to_statement
push-IsNamed t (statement ts) = concat-ne ts t
push-IsNamed t (block ts child) = concat-ne ts t

-- The last statement gets a block.
pub reset-Named :
    (child c : NginxConfig)
    → Named c
    → c ≢ nil
    → (d : NginxConfig) × (on_last (reset_child child) c ≡ ok d) × Named d × (d ≢ nil)
reset-Named child c h ne =
    on_last-Named IsNamed (reset_child child) c (λ s n. n) (Named-Ends c h ne)

pub close_onto-OnlyEmpty :
    (child : NginxConfig) (stack : ConfigStack)
    → HasLast stack
    → IsSound stack
    → OnlyEmpty (close_onto child stack)
unfolding close_onto
close_onto-OnlyEmpty child (emptied c) l h = refl
close_onto-OnlyEmpty child (root c) l h = let (d, run, _, _) = reset-Named child c h l in rw run tt
close_onto-OnlyEmpty child (nested c below) l h =
    let (d, run, _, _) = reset-Named child c h.0 l in
    rw (run, close_onto) (close_onto-OnlyEmpty d below h.1 h.2)

pub check_listen-Named : (c : NginxConfig) → Named c → check_listen c ≡ ok tt
unfolding check_listen
check_listen-Named nil h = refl
check_listen-Named (cons s c) h = check_listen_cons s c h.0 (check_listen-Named c h.1)

-- A changed top of the stack.
pub set_top-IsSound :
    (c d : NginxConfig) (stack : ConfigStack)
    → top stack ≡ ok c
    → IsSound stack
    → Named d
    → d ≢ nil
    → IsSound (set_top d stack) × HasLast (set_top d stack)
unfolding top set_top
set_top-IsSound c d (emptied b) e h n ne = cc
set_top-IsSound c d (root b) e h n ne = (n, ne)
set_top-IsSound c d (nested b below) e h n ne = ((n, h.1, h.2), ne)

pub top-Named : (c : NginxConfig) (stack : ConfigStack) → top stack ≡ ok c → IsSound stack → Named c
unfolding top
top-Named c (emptied b) e h = cc
top-Named c (root b) e h = let same : b ≡ c = cc in rw (← same) h
top-Named c (nested b below) e h = let same : b ≡ c = cc in rw (← same) h.0

pub top-ne : (c : NginxConfig) (stack : ConfigStack) → top stack ≡ ok c → HasLast stack → c ≢ nil
unfolding top
top-ne c (emptied b) e l = cc
top-ne c (root b) e l = let same : b ≡ c = cc in rw (← same) l
top-ne c (nested b below) e l = let same : b ≡ c = cc in rw (← same) l
