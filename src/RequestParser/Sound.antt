-- ===== src/RequestParser/Sound.antt =====
-- What src/request_parser.cc guarantees of the request that it fills.
use boost_web_server.Common.{
  ℕ, ◌≡◌, refl, ◌∙◌, inl, inr, [], ◌∷◌, ◌++◌, append_assoc, arith, All, Bytes, Result, ok, err,
  Result-cases,
}
use boost_web_server.RequestParser.{
  State, method_start, expecting_newline_3, Request, good, bad, indeterminate, Consumed, consume_in,
  consume, Parsed, finish, parse, empty_request, reset,
}
use boost_web_server.RequestParser.Head.{IsToken, IsUri, IsValue}
use boost_web_server.RequestParser.Clean.{HasMethod, IsClean, IsKept, consume_in-IsKept}

abbrev IsKeptParsed : Request → Bytes → Result Parsed → Type 0
IsKeptParsed r cs (ok p) =
    IsClean p.state p.req × (p.req.original_req ++ p.rest ≡ r.original_req ++ cs)
IsKeptParsed r cs (err _) = Unit

IsKeptParsed-trans :
    (q r : Request) (cs ds : Bytes) (m : Result Parsed)
    → IsKeptParsed q cs m
    → q.original_req ++ cs ≡ r.original_req ++ ds
    → IsKeptParsed r ds m
IsKeptParsed-trans q r cs ds (ok p) (clean, text) e = (clean, text ∙ e)
IsKeptParsed-trans q r cs ds (err x) k e = tt

parse-IsKeptParsed :
    (s : State) (r : Request) (cs : Bytes) → IsClean s r → IsKeptParsed r cs (parse s r cs)
unfolding parse consume
parse-IsKeptParsed s r [] k = (k, refl)
parse-IsKeptParsed s r (c ∷ cs) k =
    let r' = record r { original_req = r.original_req ++ c ∷ [] } in
    let k' : IsClean s r' = record {
      method_bytes = k.method_bytes;
      method_ne_nil = k.method_ne_nil;
      uri_bytes = k.uri_bytes;
      headers_bytes = k.headers_bytes;
    } in
    let kept = consume_in-IsKept s r' c k' in
    elim (Result-cases (consume_in s r' c)) [
      | inl (d, x) ↦
          let (clean, same) = let at_d : IsKept r' (ok d) = rw x at kept in at_d in
          let text : d.req.original_req ++ cs ≡ r.original_req ++ (c ∷ cs) =
            simp (same, append_assoc) in
          let later = parse-IsKeptParsed d.state d.req cs clean in
          rw x
            (elim d.result
              as (λ v. IsKeptParsed r (c ∷ cs) (elim v [
                | indeterminate ↦ parse d.state d.req cs
                | good ↦ ok (finish d cs)
                | bad ↦ ok (finish d cs)
              ])) [
                | indeterminate ↦
                    IsKeptParsed-trans d.req r cs (c ∷ cs) (parse d.state d.req cs) later text
                | good ↦ (clean, text)
                | bad ↦ (clean, text)
              ])
      | inr (e, x) ↦ rw x tt
    ]

abbrev IsLast : Result Consumed → Type 0
IsLast (ok d) = d.result ≡ good → d.state ≡ expecting_newline_3
IsLast (err _) = Unit

consume_in-IsLast : (s : State) (r : Request) (c : ℕ) → IsLast (consume_in s r c)
unfolding consume_in
consume_in-IsLast method_start r c = ground arith
consume_in-IsLast _ r c = ground arith

good_last :
    (s : State) (r : Request) (cs : Bytes) (p : Parsed)
    → parse s r cs ≡ ok p
    → p.result ≡ good
    → p.state ≡ expecting_newline_3
unfolding parse consume
good_last s r [] p e g = cc
good_last s r (c ∷ cs) p e g =
    let r' = record r { original_req = r.original_req ++ c ∷ [] } in
    let last = consume_in-IsLast s r' c in
    elim (Result-cases (consume_in s r' c)) [
      | inl (d, x) ↦
          let at_d : d.result ≡ good → d.state ≡ expecting_newline_3 = rw x at last in
          ground (arith, good_last d.state d.req cs p)
      | inr (f, x) ↦ ground arith
    ]

-- When a fresh parser answers `good`, the method is a non-empty token, the target has no blank
-- and no control byte, every header has a token name and a value without control bytes, and the
-- bytes in `original_req` with the unread ones behind them are the input.
pub parse_sound :
    (cs : Bytes) (p : Parsed)
    → parse reset empty_request cs ≡ ok p
    → p.result ≡ good
    → IsToken p.req.method
      × IsUri p.req.uri
      × All (λ h. IsToken h.name × IsValue h.value) p.req.headers
      × (p.req.original_req ++ p.rest ≡ cs)
unfolding reset
parse_sound cs p e g =
    let start : IsClean method_start empty_request = record {
      method_bytes = tt;
      method_ne_nil = tt;
      uri_bytes = tt;
      headers_bytes = tt;
    } in
    let kept : IsKeptParsed empty_request cs (ok p) =
      rw e at (parse-IsKeptParsed method_start empty_request cs start) in
    let last = good_last method_start empty_request cs p e g in
    let method_ne : HasMethod expecting_newline_3 p.req.method = rw last at kept.0.method_ne_nil in
    ((kept.0.method_bytes, method_ne), kept.0.uri_bytes, kept.0.headers_bytes, kept.1)
