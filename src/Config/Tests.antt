-- ===== src/Config/Tests.antt =====
-- Runs of src/config_parser.cc on small files, and the theorems at concrete inputs.
use boost_web_server.Common.{
  ◌≡◌, refl, true, some, [], ◌∷◌, arith, codes, empty_stack, Result, ok, err, ◌=s=◌,
}
use boost_web_server.Common.{◌=s=◌}
use boost_web_server.Config.Parser.Faults.{parse_fault_empty_stack}
use boost_web_server.Config.Words.{IsWord, plain, in_double}
use boost_web_server.Config.Parser.Printable.{IsPrintable, empty, more, unbraced, braced}
use boost_web_server.Config.Parser.Fuel.{parse_total}
use boost_web_server.Config.Parser.RoundTrip.{parse-to_string}
use boost_web_server.Config.Parser.{
  add_statement, push_to_statement, on_last, top, set_top, pop, ParseOutcome, check_listen, step,
  parse,
}
use boost_web_server.Config.Tokens.{is_blank, is_end, scan, parse_token}
use boost_web_server.Config.Tree.{NginxConfig, nil, cons, statement, block, to_string}

-- Names once what a run computes with.
config_code : Unit {0}
unfolding parse_token scan is_blank is_end parse step check_listen top set_top pop on_last
    add_statement push_to_statement to_string ◌=s=◌
config_code = tt

abbrev two_statements : NginxConfig
two_statements = cons (statement (codes "listen" ∷ codes "80" ∷ [])) (
    cons
      (block (codes "location" ∷ codes "/echo" ∷ codes "EchoHandler" ∷ [])
        (cons (statement (codes "root" ∷ codes "x" ∷ [])) nil))
      nil)

parse_run :
    parse (codes "listen 80; # port\nlocation /echo EchoHandler {\n root x; }")
    ≡ some (ok (record { valid = true; config = two_statements }))
unfolding config_code
parse_run = refl

to_string_run :
    to_string two_statements 0 ≡ codes "listen 80;\nlocation /echo EchoHandler {\n  root x;\n}\n"
unfolding config_code
to_string_run = refl

-- One closing brace too many empties the stack, and the next use of it is undefined.
extra_brace : parse (codes "a b; } ") ≡ some (err empty_stack)
unfolding config_code
extra_brace = refl

-- A statement cut off by the end of the file behind a complete one is dropped without an error.
dropped_tail :
    parse (codes "a b; c")
    ≡ some
        (ok (record { valid = true; config = cons (statement (codes "a" ∷ codes "b" ∷ [])) nil }))
unfolding config_code
dropped_tail = refl

-- The theorems at concrete inputs.
IsWord-listen : IsWord (codes "listen")
unfolding config_code
IsWord-listen = plain refl (refl, (refl, (refl, (refl, (refl, tt)))))

quoted : IsWord (codes "\"a; b\"")
unfolding config_code
quoted = in_double (codes "a; b") refl (
  (omega arith, omega arith),
  ((omega arith, omega arith), ((omega arith, omega arith), ((omega arith, omega arith), tt))),
)

abbrev nested_config : NginxConfig
nested_config =
    cons (statement (codes "listen" ∷ codes "\"a; b\"" ∷ []))
      (cons (block (codes "listen" ∷ []) (cons (statement (codes "listen" ∷ [])) nil)) nil)

nested_config-IsPrintable : IsPrintable nested_config
nested_config-IsPrintable = more (unbraced ((IsWord-listen, (quoted, tt)), λ e. cc)) (
    more
      (braced ((IsWord-listen, tt), λ e. cc) (more (unbraced ((IsWord-listen, tt), λ e. cc)) empty))
      empty)

parse-to_string_example :
    parse (to_string nested_config 3) ≡ some (ok (record { valid = true; config = nested_config }))
parse-to_string_example = parse-to_string nested_config 3 nested_config-IsPrintable

parse_total_example : (r : Result ParseOutcome) × (parse (codes "a 'b") ≡ some r)
parse_total_example = parse_total (codes "a 'b")

parse_fault_empty_stack_example : empty_stack ≡ empty_stack
parse_fault_empty_stack_example = parse_fault_empty_stack (codes "a b; } ") empty_stack extra_brace
