-- ===== src/Config/Lengths.antt =====
-- The loop of `ParseToken` in src/config_parser.cc, a byte at a time: what is left of the stream.
use boost_web_server.Common.{ℕ, suc, ◌≤◌, ◌≡◌, refl, ◌⊎◌, inl, inr, [], ◌∷◌, arith, length, Bytes}
use boost_web_server.Config.Tokens.{
  TokenParserState, initial_whitespace, single_quote, double_quote, token_type_normal, Token, Scan,
  return, continue, scan, parse_token, next_token,
}

abbrev IsWithin : TokenParserState → Bytes → Scan → Type 0
IsWithin token_type_normal cs (return t) = length t.rest ≤ suc (length cs)
IsWithin _ cs (return t) = length t.rest ≤ length cs
IsWithin _ cs (continue _ _) = Unit

scan-IsWithin :
    (s : TokenParserState) (v : Bytes) (c : ℕ) (cs : Bytes) → IsWithin s cs (scan s v c cs)
unfolding scan
scan-IsWithin single_quote v c [] = ground arith
scan-IsWithin single_quote v c (d ∷ cs) = ground arith
scan-IsWithin double_quote v c [] = ground arith
scan-IsWithin double_quote v c (d ∷ cs) = ground arith
scan-IsWithin _ v c cs = ground arith

Scan-cases :
    (m : Scan)
    → ((t : Token) × (m ≡ return t)) ⊎ ((s : TokenParserState) × (v : Bytes) × (m ≡ continue s v))
Scan-cases (return t) = inl (t, refl)
Scan-cases (continue s v) = inr (s, v, refl)

length-return :
    (s : TokenParserState) (cs : Bytes) (t : Token)
    → IsWithin s cs (return t)
    → length t.rest ≤ suc (length cs)
length-return token_type_normal cs t h = h
length-return _ cs t h = omega arith

pub parse_token-return :
    (s : TokenParserState) (v : Bytes) (c : ℕ) (cs : Bytes) (t : Token)
    → scan s v c cs ≡ return t
    → parse_token s v (c ∷ cs) ≡ t
unfolding parse_token
parse_token-return s v c cs t e = rw (e, parse_token)

pub parse_token-continue :
    (s s' : TokenParserState) (v v' : Bytes) (c : ℕ) (cs : Bytes)
    → scan s v c cs ≡ continue s' v'
    → parse_token s v (c ∷ cs) ≡ parse_token s' v' cs
unfolding parse_token
parse_token-continue s s' v v' c cs e = rw (e, parse_token)

parse_token-length :
    (s : TokenParserState) (v input : Bytes) → length (parse_token s v input).rest ≤ length input
parse_token-length s v [] = unfold parse_token in omega arith
parse_token-length s v (c ∷ cs) = elim (Scan-cases (scan s v c cs)) [
  | inl (t, e) ↦
      rw (parse_token-return s v c cs t e) (length-return s cs t (rw e at (scan-IsWithin s v c cs)))
  | inr (s', v', e) ↦
      rw (parse_token-continue s s' v v' c cs e) (omega (arith, parse_token-length s' v' cs))
]

pub next_token-length : (c : ℕ) (cs : Bytes) → length (next_token (c ∷ cs)).rest ≤ length cs
next_token-length c cs = elim (Scan-cases (scan initial_whitespace [] c cs)) [
  | inl (t, e) ↦
      rw (parse_token-return initial_whitespace [] c cs t e)
        (rw e at (scan-IsWithin initial_whitespace [] c cs))
  | inr (s', v', e) ↦
      rw (parse_token-continue initial_whitespace s' [] v' c cs e) (parse_token-length s' v' cs)
]
