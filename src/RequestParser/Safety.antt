-- ===== src/RequestParser/Safety.antt =====
-- The undefined behaviour that src/request_parser.cc could meet: `headers.back()` on an empty
-- vector, and an overflow of the version numbers.
use boost_web_server.Common.{
  ℕ, List, [], ◌∷◌, ◌++◌, ◌≡◌, ◌≢◌, refl, arith, Bytes, Result, ok, err, Fault, int_overflow,
  Result-cases, inl, inr,
}
use boost_web_server.RequestParser.{
  State, method_start, header_line_start, header_lws, header_name, space_before_header_value,
  header_value, expecting_newline_2, Header, Request, Consumed, on_back, is_empty, add_digit,
  push_name, push_value, finish, Parsed, reset, consume_in, consume, parse, good, bad,
  indeterminate,
}

-- The states in which a header has been started.
abbrev pub HasHeader : State → List Header → Type 0
HasHeader header_lws hs = hs ≢ []
HasHeader header_name hs = hs ≢ []
HasHeader space_before_header_value hs = hs ≢ []
HasHeader header_value hs = hs ≢ []
HasHeader expecting_newline_2 hs = hs ≢ []
HasHeader _ hs = Unit

abbrev IsSafe : Result Consumed → Type 0
IsSafe (ok d) = HasHeader d.state d.req.headers
IsSafe (err e) = e ≡ int_overflow

on_back_total :
    (f : Header → Header) (hs : List Header)
    → hs ≢ []
    → (gs : List Header) × (on_back f hs ≡ ok gs) × (gs ≢ [])
unfolding on_back
on_back_total f [] h = absurd (h refl)
on_back_total f (h ∷ []) _ = (f h ∷ [], refl, λ e. cc)
on_back_total f (h ∷ g ∷ hs) _ =
    let (gs, e, _) = on_back_total f (g ∷ hs) (λ e. cc) in (h ∷ gs, rw e, λ p. cc)

concat-ne-nil : (hs : List Header) (h : Header) → hs ++ h ∷ [] ≢ []
concat-ne-nil [] h e = cc
concat-ne-nil (x ∷ hs) h e = cc

-- The states that change the last header need the totality of `on_back`, the others need nothing.
consume_in-IsSafe :
    (s : State) (r : Request) (c : ℕ) → HasHeader s r.headers → IsSafe (consume_in s r c)
unfolding consume_in is_empty add_digit
consume_in-IsSafe header_line_start r c h =
    let fresh : Header = record { name = []; value = [] } in
    let (gs, e, ne) =
      on_back_total (push_name c) (r.headers ++ fresh ∷ []) (concat-ne-nil r.headers fresh) in
    ground arith
consume_in-IsSafe header_lws r c h =
    let (gs, e, ne) = on_back_total (push_value c) r.headers h in ground arith
consume_in-IsSafe header_name r c h =
    let (gs, e, ne) = on_back_total (push_name c) r.headers h in ground arith
consume_in-IsSafe header_value r c h =
    let (gs, e, ne) = on_back_total (push_value c) r.headers h in ground arith
consume_in-IsSafe _ r c h = ground arith

abbrev IsSafeParsed : Result Parsed → Type 0
IsSafeParsed (ok p) = HasHeader p.state p.req.headers
IsSafeParsed (err e) = e ≡ int_overflow

parse-IsSafeParsed :
    (s : State) (r : Request) (cs : Bytes) → HasHeader s r.headers → IsSafeParsed (parse s r cs)
unfolding parse consume
parse-IsSafeParsed s r [] h = h
parse-IsSafeParsed s r (c ∷ cs) h =
    let r' = record r { original_req = r.original_req ++ c ∷ [] } in
    let safe = consume_in-IsSafe s r' c h in
    elim (Result-cases (consume_in s r' c)) [
      | inl (d, x) ↦
          let kept : HasHeader d.state d.req.headers = rw x at safe in
          rw x
            (elim d.result
              as (λ v. IsSafeParsed (elim v [
                | indeterminate ↦ parse d.state d.req cs
                | good ↦ ok (finish d cs)
                | bad ↦ ok (finish d cs)
              ])) [
                | indeterminate ↦ parse-IsSafeParsed d.state d.req cs kept
                | good ↦ kept
                | bad ↦ kept
              ])
      | inr (e, x) ↦ rw x (rw x at safe)
    ]

-- Whatever the input, a fresh parser never takes the last header of an empty list: the only
-- undefined behaviour that it can meet is an overflow of a version number.
pub parse_fault :
    (r : Request) (cs : Bytes) (e : Fault) → parse reset r cs ≡ err e → e ≡ int_overflow
unfolding reset
parse_fault r cs e h = rw h at (parse-IsSafeParsed method_start r cs tt)
