-- ===== src/Config/Parser/Faults.antt =====
-- What undefined behaviour `Parse` of src/config_parser.cc can meet.
use boost_web_server.Common.{
  ℕ, zero, suc, ◌≡◌, refl, inl, inr, false, Option, some, Bool-cases, length, Bytes, Fault,
  empty_stack, Result, ok, err, ◌>>=◌,
}
use boost_web_server.Config.Tokens.{
  TokenType, start, normal, start_block, end_block, comment, statement_end, eof, error, Token,
  next_token,
}
use boost_web_server.Config.Tree.{NginxConfig, nil, NginxConfigStatement}
use boost_web_server.Config.Parser.{
  ConfigStack, emptied, root, nested, add_statement, push_to_statement, on_last, top, set_top,
  attach, pop, close_onto, out_config, ParseOutcome, Round, leave, skip, accept, fail, on_normal,
  on_start_block, on_end_block, on_eof, may_start, step, after, loop, parse,
}
use boost_web_server.Config.Parser.Stacks.{
  IsNamed, Ends, HasLast, IsSound, OnlyEmpty, Named-Ends, add_statement-Ends, on_last-Named,
  push-IsNamed, reset-Named, close_onto-OnlyEmpty, check_listen-Named, set_top-IsSound, top-Named,
  top-ne,
}
use boost_web_server.Config.Parser.Fuel.{run}

-- What holds at the start of a round, by the last token's type.
abbrev IsReady : TokenType → ConfigStack → Type 0
IsReady last stack = IsSound stack × (last ≡ normal → HasLast stack)

abbrev IsSafe : TokenType → Result Round → Type 0
IsSafe next (err e) = e ≡ empty_stack
IsSafe next (ok (leave outcome)) = Unit
IsSafe next (ok skip) = Unit
IsSafe next (ok (accept stack)) = IsReady next stack

fail-IsSafe : (next : TokenType) (stack : ConfigStack) → IsSound stack → IsSafe next (fail stack)
unfolding fail out_config
fail-IsSafe next (emptied c) h = tt
fail-IsSafe next (root c) h = tt
fail-IsSafe next (nested c below) h = go (close_onto c below) (close_onto-OnlyEmpty c below h.1 h.2)
  where
    go :
        (m : Result NginxConfig)
        → OnlyEmpty m
        → IsSafe next (m >>= λ d. ok (leave (record { valid = false; config = d })))
    go (ok d) k = tt
    go (err e) k = k

-- A round that looks at the top first.
with_top-IsSafe :
    (next : TokenType) (stack : ConfigStack) (go : NginxConfig → Result Round)
    → ((c : NginxConfig) → top stack ≡ ok c → IsSafe next (go c))
    → IsSafe next (top stack >>= go)
unfolding top
with_top-IsSafe next (emptied c) go h = refl
with_top-IsSafe next (root c) go h = h c refl
with_top-IsSafe next (nested c below) go h = h c refl

pushed-IsSafe :
    (t : Bytes) (c b : NginxConfig) (stack : ConfigStack) (Q : NginxConfigStatement → Type 0)
    → top stack ≡ ok c
    → IsSound stack
    → Ends Q b
    → IsSafe normal (on_last (push_to_statement t) b >>= λ d. ok (accept (set_top d stack)))
pushed-IsSafe t c b stack Q e h ends =
    let (d, run, named, ne) =
      on_last-Named Q (push_to_statement t) b (λ s q. push-IsNamed t s) ends in
    let (sound, last) = set_top-IsSound c d stack e h named ne in rw run (sound, λ same. last)

on_normal-IsSafe :
    (last : TokenType) (t : Bytes) (stack : ConfigStack)
    → IsReady last stack
    → IsSafe normal (on_normal last t stack)
unfolding on_normal
on_normal-IsSafe normal t stack (h, l) = with_top-IsSafe normal stack _ (λ c e.
    pushed-IsSafe t c c stack IsNamed e h
      (Named-Ends c (top-Named c stack e h) (top-ne c stack e (l refl))))
on_normal-IsSafe _ t stack (h, l) = with_top-IsSafe normal stack _ (λ c e.
    pushed-IsSafe t c (add_statement c) stack (λ s. Unit) e h
      (add_statement-Ends c (top-Named c stack e h)))

on_start_block-IsSafe :
    (stack : ConfigStack) → IsReady normal stack → IsSafe start_block (on_start_block stack)
unfolding on_start_block
on_start_block-IsSafe stack (h, l) = with_top-IsSafe start_block stack _ (λ c e.
    let (d, run, named, ne) =
      reset-Named nil c (top-Named c stack e h) (top-ne c stack e (l refl)) in
    let (sound, last) = set_top-IsSound c d stack e h named ne in
    rw run ((tt, last, sound), λ same. cc))

pop-IsSafe :
    (stack : ConfigStack)
    → IsSound stack
    → IsSafe end_block (pop stack >>= λ below. ok (accept below))
unfolding pop attach
pop-IsSafe (emptied c) h = refl
pop-IsSafe (root c) h = (tt, λ same. cc)
pop-IsSafe (nested c (emptied b)) h = refl
pop-IsSafe (nested c (root b)) h =
    let (d, run, named, ne) = reset-Named c b h.2 h.1 in rw run (named, λ same. cc)
pop-IsSafe (nested c (nested b below)) h =
    let (d, run, named, ne) = reset-Named c b h.2.0 h.1 in
    rw run ((named, h.2.1, h.2.2), λ same. cc)

on_end_block-IsSafe : (stack : ConfigStack) → IsSound stack → IsSafe end_block (on_end_block stack)
unfolding on_end_block
on_end_block-IsSafe stack h =
    with_top-IsSafe end_block stack _
      (λ c e. rw (check_listen-Named c (top-Named c stack e h)) (pop-IsSafe stack h))

on_eof-IsSafe : (stack : ConfigStack) → IsSound stack → IsSafe eof (on_eof stack)
unfolding on_eof
on_eof-IsSafe (emptied c) h = refl
on_eof-IsSafe (root c) h = tt
on_eof-IsSafe (nested c below) h = fail-IsSafe eof (nested c below) h

step-IsSafe :
    (last next : TokenType) (stack : ConfigStack) (t : Bytes)
    → IsReady last stack
    → IsSafe next (step last stack next t)
unfolding step
step-IsSafe last error stack t r = fail-IsSafe error stack r.0
step-IsSafe last comment stack t r = tt
step-IsSafe last start stack t r = fail-IsSafe start stack r.0
step-IsSafe last normal stack t r = elim (Bool-cases (may_start last)) [
  | inl may ↦ rw (may, step) (on_normal-IsSafe last t stack r)
  | inr may_not ↦ rw (may_not, step) (fail-IsSafe normal stack r.0)
]
step-IsSafe normal statement_end stack t r = (r.0, λ same. cc)
step-IsSafe _ statement_end stack t r = fail-IsSafe statement_end stack r.0
step-IsSafe normal start_block stack t r = on_start_block-IsSafe stack r
step-IsSafe _ start_block stack t r = fail-IsSafe start_block stack r.0
step-IsSafe start_block end_block stack t r = on_end_block-IsSafe stack r.0
step-IsSafe statement_end end_block stack t r = on_end_block-IsSafe stack r.0
step-IsSafe end_block end_block stack t r = on_end_block-IsSafe stack r.0
step-IsSafe _ end_block stack t r = fail-IsSafe end_block stack r.0
step-IsSafe statement_end eof stack t r = on_eof-IsSafe stack r.0
step-IsSafe end_block eof stack t r = on_eof-IsSafe stack r.0
step-IsSafe start eof stack t r = on_eof-IsSafe stack r.0
step-IsSafe _ eof stack t r = fail-IsSafe eof stack r.0

after-fault :
    (again : TokenType → ConfigStack → Bytes → Option (Result ParseOutcome)) (last : TokenType)
    (stack : ConfigStack) (t : Token) (m : Result Round) (e : Fault)
    → IsReady last stack
    → IsSafe t.type m
    → ((l : TokenType) (s : ConfigStack)
        → IsReady l s
        → again l s t.rest ≡ some (err e)
        → e ≡ empty_stack)
    → after again last stack t m ≡ some (err e)
    → e ≡ empty_stack
after-fault again last stack t (err d) e r safe rec f = let same : d ≡ e = cc in rw (← same) safe
after-fault again last stack t (ok (leave outcome)) e r safe rec f = cc
after-fault again last stack t (ok skip) e r safe rec f = rec last stack r f
after-fault again last stack t (ok (accept s)) e r safe rec f = rec t.type s safe f

loop-fault :
    (fuel : ℕ) (last : TokenType) (stack : ConfigStack) (input : Bytes) (e : Fault)
    → IsReady last stack
    → loop fuel last stack input ≡ some (err e)
    → e ≡ empty_stack
unfolding loop
loop-fault zero last stack input e r found = cc
loop-fault (suc fuel) last stack input e r found =
    let t = next_token input in
    after-fault (loop fuel) last stack t (step last stack t.type t.value) e r
      (step-IsSafe last t.type stack t.value r)
      (λ l s ready f. loop-fault fuel l s t.rest e ready f) found

-- The only undefined behaviour that `Parse` can meet is a use of the empty stack: it never looks at
-- the last statement of an empty configuration, nor at the first token of a statement without one.
pub parse_fault_empty_stack :
    (input : Bytes) (e : Fault) → parse input ≡ some (err e) → e ≡ empty_stack
unfolding parse
parse_fault_empty_stack input e found =
    loop-fault (suc (length input)) start (root nil) input e (tt, λ same. cc) found
