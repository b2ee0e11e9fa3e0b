-- ===== src/Config/Parser/Fuel.antt =====
-- The loop of `Parse` in src/config_parser.cc ends: every token but the last takes a byte.
use boost_web_server.Common.{
  ℕ, zero, suc, ◌<◌, ◌≡◌, refl, sym, ◌∙◌, ◌⊎◌, inl, inr, Option, some, [], ◌∷◌, arith, length,
  Bytes, Result, ok, err, Result-cases,
}
use boost_web_server.Config.Tokens.{
  TokenType, start, end_block, statement_end, eof, Token, parse_token, next_token,
}
use boost_web_server.Config.Parser.{
  ConfigStack, emptied, root, nested, out_config, ParseOutcome, Round, leave, skip, accept, fail,
  on_eof, step, after, loop, parse,
}
use boost_web_server.Config.Tree.{nil}
use boost_web_server.Config.Lengths.{next_token-length}

-- A round that leaves the loop.
abbrev Stops : Result Round → Type 0
Stops (ok skip) = ⊥
Stops (ok (accept _)) = ⊥
Stops _ = Unit

fail-Stops : (stack : ConfigStack) → Stops (fail stack)
unfolding fail
fail-Stops stack = elim (Result-cases (out_config stack)) [
  | inl (c, e) ↦ rw e tt
  | inr (x, e) ↦ rw e tt
]

on_eof-Stops : (stack : ConfigStack) → Stops (on_eof stack)
unfolding on_eof
on_eof-Stops (emptied c) = tt
on_eof-Stops (root c) = tt
on_eof-Stops (nested c below) = fail-Stops (nested c below)

-- The end of the file leaves the loop, whatever came before.
step_eof-Stops :
    (last : TokenType) (stack : ConfigStack) (t : Bytes) → Stops (step last stack eof t)
unfolding step
step_eof-Stops start stack t = on_eof-Stops stack
step_eof-Stops statement_end stack t = on_eof-Stops stack
step_eof-Stops end_block stack t = on_eof-Stops stack
step_eof-Stops _ stack t = fail-Stops stack

abbrev Loop : Type 0
Loop = TokenType → ConfigStack → Bytes → Option (Result ParseOutcome)

after-Stops :
    (a b : Loop) (last : TokenType) (stack : ConfigStack) (t : Token) (m : Result Round)
    → Stops m
    → after a last stack t m ≡ after b last stack t m
after-Stops a b last stack t (err e) h = refl
after-Stops a b last stack t (ok (leave outcome)) h = refl
after-Stops a b last stack t (ok skip) h = absurd h
after-Stops a b last stack t (ok (accept _)) h = absurd h

after_ext :
    (a b : Loop) (last : TokenType) (stack : ConfigStack) (t : Token) (m : Result Round)
    → ((l : TokenType) (s : ConfigStack) → a l s t.rest ≡ b l s t.rest)
    → after a last stack t m ≡ after b last stack t m
after_ext a b last stack t (err e) h = refl
after_ext a b last stack t (ok (leave outcome)) h = refl
after_ext a b last stack t (ok skip) h = h last stack
after_ext a b last stack t (ok (accept stack')) h = h t.type stack'

loop_end :
    (f : ℕ) (b : Loop) (last : TokenType) (stack : ConfigStack)
    → loop (suc f) last stack [] ≡ after b last stack (next_token []) (step last stack eof [])
unfolding loop parse_token
loop_end f b last stack =
    after-Stops (loop f) b last stack (next_token []) (step last stack eof [])
      (step_eof-Stops last stack [])

-- With more fuel than bytes, the loop gives one result, whatever the fuel.
pub loop_fuel :
    (f g : ℕ) (last : TokenType) (stack : ConfigStack) (input : Bytes)
    → length input < f
    → length input < g
    → loop f last stack input ≡ loop g last stack input
unfolding loop
loop_fuel zero g last stack input h k = absurd (omega arith)
loop_fuel (suc f) zero last stack input h k = absurd (omega arith)
loop_fuel (suc f) (suc g) last stack [] h k =
    loop_end f (loop g) last stack ∙ sym (loop_end g (loop g) last stack)
loop_fuel (suc f) (suc g) last stack (c ∷ cs) h k =
    let t = next_token (c ∷ cs) in
    let shorter = next_token-length c cs in
    let same : (l : TokenType) (s : ConfigStack) → loop f l s t.rest ≡ loop g l s t.rest =
      (λ l s. loop_fuel f g l s t.rest (omega arith) (omega arith)) in
    unfold loop in after_ext (loop f) (loop g) last stack t (step last stack t.type t.value) same

-- The loop with enough fuel.
unfoldable pub run : TokenType → ConfigStack → Bytes → Option (Result ParseOutcome)
run last stack input = loop (suc (length input)) last stack input

pub parse-run : (input : Bytes) → parse input ≡ run start (root nil) input
unfolding parse run
parse-run input = refl

-- One round of the loop, with no fuel in sight.
pub run_step :
    (last : TokenType) (stack : ConfigStack) (input : Bytes)
    → run last stack input
      ≡ after run last stack
          (next_token input)
          (step last stack (next_token input).type (next_token input).value)
run_step last stack [] =
    unfold run loop parse_token in
    after-Stops (loop 0) run last stack (next_token []) (step last stack eof [])
      (step_eof-Stops last stack [])
run_step last stack (c ∷ cs) =
    let t = next_token (c ∷ cs) in
    let shorter = next_token-length c cs in
    let same : (l : TokenType) (s : ConfigStack)
        → loop (suc (length cs)) l s t.rest ≡ run l s t.rest =
      (λ l s.
        unfold run in
        loop_fuel (suc (length cs)) (suc (length t.rest)) l s t.rest (omega arith) (omega arith)) in
    unfold run loop in
    after_ext (loop (suc (length cs))) run last stack t (step last stack t.type t.value) same

after_total :
    (again : Loop) (last : TokenType) (stack : ConfigStack) (t : Token) (m : Result Round)
    → (Stops m
        ⊎ ((l : TokenType) (s : ConfigStack)
            → (r : Result ParseOutcome) × (again l s t.rest ≡ some r)))
    → (r : Result ParseOutcome) × (after again last stack t m ≡ some r)
after_total again last stack t (err e) h = (err e, refl)
after_total again last stack t (ok (leave outcome)) h = (ok outcome, refl)
after_total again last stack t (ok skip) (inl h) = absurd h
after_total again last stack t (ok skip) (inr h) = h last stack
after_total again last stack t (ok (accept s)) (inl h) = absurd h
after_total again last stack t (ok (accept s)) (inr h) = h t.type s

loop_total :
    (f : ℕ) (last : TokenType) (stack : ConfigStack) (input : Bytes)
    → length input < f
    → (r : Result ParseOutcome) × (loop f last stack input ≡ some r)
unfolding loop
loop_total zero last stack input h = absurd (omega arith)
loop_total (suc f) last stack [] h =
    let stops = step_eof-Stops last stack [] in
    rw (loop_end f (loop f) last stack)
      (after_total (loop f) last stack (next_token []) (step last stack eof []) (inl stops))
loop_total (suc f) last stack (c ∷ cs) h =
    let t = next_token (c ∷ cs) in
    let shorter = next_token-length c cs in
    unfold loop in
    after_total (loop f) last stack t (step last stack t.type t.value)
      (inr (λ l s. loop_total f l s t.rest (omega arith)))

-- `Parse` comes to an end on every input: the fuel of one round for each byte and one more is
-- enough.
pub parse_total : (input : Bytes) → (r : Result ParseOutcome) × (parse input ≡ some r)
unfolding parse
parse_total input = loop_total (suc (length input)) start (root nil) input (omega arith)
