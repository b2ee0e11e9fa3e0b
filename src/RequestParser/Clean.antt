-- ===== src/RequestParser/Clean.antt =====
-- One step of src/request_parser.cc keeps the request clean.
use boost_web_server.Common.{
  ℕ, ◌≡◌, refl, ◌≢◌, inl, inr, false, List, [], ◌∷◌, ◌++◌, arith, Bool-cases, All, All-concat,
  Bytes, Result, ok, err, ◌>>=◌, >>=-eq-ok, Result-cases,
}
use boost_web_server.RequestParser.{
  State, method_start, method, uri, header_line_start, header_lws, header_name, header_value,
  Header, Request, Consumed, is_ctl, is_not_token, go_on, on_back, push_name, push_value, is_empty,
  consume_in,
}
use boost_web_server.RequestParser.HeaderPieces.{on_back-concat}
use boost_web_server.RequestParser.Head.{IsToken, IsUri, IsValue}

abbrev pub IsHeader : Header → Type 0
IsHeader h = IsToken h.name × IsValue h.value

-- A method has been started in every state but the first.
abbrev pub HasMethod : State → Bytes → Type 0
HasMethod method_start m = Unit
HasMethod _ m = m ≢ []

pub record IsClean (s : State) (r : Request) : Type 0 where
  pub method_bytes : All (λ c. is_not_token c ≡ false) r.method
  pub method_ne_nil : HasMethod s r.method
  pub uri_bytes : IsUri r.uri
  pub headers_bytes : All (λ h. IsToken h.name × IsValue h.value) r.headers

-- One step keeps the request clean, and the bytes in `original_req`.
abbrev pub IsKept : Request → Result Consumed → Type 0
IsKept r (ok d) = IsClean d.state d.req × (d.req.original_req ≡ r.original_req)
IsKept r (err _) = Unit

on_back-All :
    (P : Header → Type 0) (f : Header → Header) (hs : List Header) {gs : List Header}
    → ((h : Header) → P h → P (f h))
    → All P hs
    → on_back f hs ≡ ok gs
    → All P gs
unfolding on_back
on_back-All P f [] keep a e = cc
on_back-All P f (h ∷ []) {gs} keep a e =
    let same : gs ≡ f h ∷ [] = ground arith in rw same (keep h a.0, tt)
on_back-All P f (h ∷ g ∷ hs) {gs} keep a e =
    let (rest, e', last) = >>=-eq-ok (on_back f (g ∷ hs)) (λ t. ok (h ∷ t)) e in
    let same : gs ≡ h ∷ rest = ground arith in rw same (a.0, on_back-All P f (g ∷ hs) keep a.1 e')

push_name-IsHeader :
    (c : ℕ) → is_not_token c ≡ false → (h : Header) → IsHeader h → IsHeader (push_name c h)
push_name-IsHeader c k h a = ((All-concat _ h.name a.0.0 k, concat_ne h.name), a.1)
  where
    concat_ne : (s : Bytes) → s ++ c ∷ [] ≢ []
    concat_ne [] e = cc
    concat_ne (x ∷ s) e = cc

push_value-IsHeader :
    (c : ℕ) → is_ctl c ≡ false → (h : Header) → IsHeader h → IsHeader (push_value c h)
push_value-IsHeader c k h a = (a.0, All-concat _ h.value a.1 k)

-- A change of the last header by a byte that it may hold.
on_back-IsKept :
    (f : Header → Header) (t : State) (r : Request)
    → ((h : Header) → IsHeader h → IsHeader (f h))
    → All IsHeader r.headers
    → ((gs : List Header) → All IsHeader gs → IsClean t (record r { headers = gs }))
    → IsKept r (on_back f r.headers >>= λ gs. go_on t (record r { headers = gs }))
on_back-IsKept f t r keep a clean = elim (Result-cases (on_back f r.headers)) [
  | inl (gs, e) ↦ rw e (clean gs (on_back-All IsHeader f r.headers keep a e), refl)
  | inr (x, e) ↦ rw e tt
]

module _ (r : Request) (c : ℕ) where
  header_line_start-IsKept :
      IsClean header_line_start r → IsKept r (consume_in header_line_start r c)
  unfolding consume_in is_empty
  header_line_start-IsKept k = elim (Bool-cases (is_not_token c)) [
    | inl other ↦ ground arith
    | inr token ↦
        let fresh : Header = record { name = []; value = [] } in
        let h : IsHeader (push_name c fresh) = (((token, tt), λ e. cc), tt) in
        ground (
          arith,
          on_back-concat (push_name c) r.headers fresh,
          All-concat IsHeader r.headers {x = push_name c fresh} k.headers_bytes h,
        )
  ]

  header_lws-IsKept : IsClean header_lws r → IsKept r (consume_in header_lws r c)
  unfolding consume_in
  header_lws-IsKept k = elim (Bool-cases (is_ctl c)) [
    | inl other ↦ ground arith
    | inr plain ↦
        let kept =
          on_back-IsKept (push_value c) header_value r (push_value-IsHeader c plain) k.headers_bytes
            (λ gs a. record {
              method_bytes = k.method_bytes;
              method_ne_nil = k.method_ne_nil;
              uri_bytes = k.uri_bytes;
              headers_bytes = a;
            }) in
        ground arith
  ]

  header_name-IsKept : IsClean header_name r → IsKept r (consume_in header_name r c)
  unfolding consume_in
  header_name-IsKept k = elim (Bool-cases (is_not_token c)) [
    | inl other ↦ ground arith
    | inr token ↦
        let kept =
          on_back-IsKept (push_name c) header_name r (push_name-IsHeader c token) k.headers_bytes
            (λ gs a. record {
              method_bytes = k.method_bytes;
              method_ne_nil = k.method_ne_nil;
              uri_bytes = k.uri_bytes;
              headers_bytes = a;
            }) in
        ground arith
  ]

  header_value-IsKept : IsClean header_value r → IsKept r (consume_in header_value r c)
  unfolding consume_in
  header_value-IsKept k = elim (Bool-cases (is_ctl c)) [
    | inl other ↦ ground arith
    | inr plain ↦
        let kept =
          on_back-IsKept (push_value c) header_value r (push_value-IsHeader c plain) k.headers_bytes
            (λ gs a. record {
              method_bytes = k.method_bytes;
              method_ne_nil = k.method_ne_nil;
              uri_bytes = k.uri_bytes;
              headers_bytes = a;
            }) in
        ground arith
  ]

concat_ne : (s : Bytes) (c : ℕ) → s ++ c ∷ [] ≢ []
concat_ne [] c e = cc
concat_ne (x ∷ s) c e = cc

pub consume_in-IsKept :
    (s : State) (r : Request) (c : ℕ) → IsClean s r → IsKept r (consume_in s r c)
unfolding consume_in
consume_in-IsKept method_start r c k = ground (
  arith,
  concat_ne r.method c,
  All-concat (λ c. is_not_token c ≡ false) r.method {x = c} k.method_bytes,
)
consume_in-IsKept method r c k = ground (
  arith,
  concat_ne r.method c,
  All-concat (λ c. is_not_token c ≡ false) r.method {x = c} k.method_bytes,
)
consume_in-IsKept uri r c k =
    ground (arith, All-concat (λ c. (c ≢ b' ') × (is_ctl c ≡ false)) r.uri {x = c} k.uri_bytes)
consume_in-IsKept header_line_start r c k = header_line_start-IsKept r c k
consume_in-IsKept header_lws r c k = header_lws-IsKept r c k
consume_in-IsKept header_name r c k = header_name-IsKept r c k
consume_in-IsKept header_value r c k = header_value-IsKept r c k
consume_in-IsKept _ r c k = ground arith
