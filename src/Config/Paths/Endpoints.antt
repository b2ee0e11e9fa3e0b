-- ===== src/Config/Paths/Endpoints.antt =====
-- The endpoints that `get_paths` of src/config_parser.cc gives to the static handler.
use boost_web_server.Common.{
  ◌≡◌, refl, ◌≢◌, inl, inr, List, [], ◌∷◌, ◌++◌, arith, if◌then◌else◌, Bool-cases, Option-cases,
  All, All-concat, Bytes, ◌=s=◌, find_last_not_of, Result, ok, ◌>>=◌, >>=-eq-ok,
}
use boost_web_server.Config.Tree.{NginxConfig, nil, cons, NginxConfigStatement, tokens_}
use boost_web_server.Config.Paths.{
  EndpointType, static_, echo, api, health, sleep_, auth, console, ConfigPath, default_path,
  k_url_path_keyword, k_resource_path_keyword, token_at, child_statements, trim_slashes, take_root,
  root_loop, plain_path, pair?, auth_pair, auth_loop, console_path, push_path, console_step,
  console_loop, HandlerName, static_handler, echo_handler, api_handler, health_handler,
  sleep_handler, authentication_handler, console_handler, unknown, handler_name, add_paths,
  location_paths, get_paths,
}
use boost_web_server.Config.Paths.Trim.{trim_slashes-trim_slashes}

-- A static path has an endpoint without trailing slashes, or one of slashes alone.
abbrev pub IsTrimmed : ConfigPath → Type 0
IsTrimmed p = p.type ≡ static_ → trim_slashes p.endpoint ≡ p.endpoint

abbrev Trimmed : Bytes → Type 0
Trimmed s = trim_slashes s ≡ s

-- What a branch leaves as the endpoint is trimmed.
Trimmed-of_eq :
    (location : Bytes) {endpoint : Bytes} → trim_slashes location ≡ endpoint → Trimmed endpoint
Trimmed-of_eq location e = rw (← e) (trim_slashes-trim_slashes location)

take_root-Trimmed :
    (kind : EndpointType) (s c : NginxConfigStatement) (p q : ConfigPath)
    → take_root kind s c p ≡ ok q
    → Trimmed q.endpoint
take_root-Trimmed kind s c p q e =
    let (location, _, e') = >>=-eq-ok (token_at (tokens_ s) 1) _ e in
    let (value, _, last) = >>=-eq-ok (token_at (tokens_ c) 1) _ e' in
    Trimmed-of_eq location (ground arith)

root_step-Trimmed :
    (kind : EndpointType) (s c : NginxConfigStatement) (p q : ConfigPath) (name : Bytes)
    → Trimmed p.endpoint
    → (if name =s= k_resource_path_keyword then take_root kind s c p else ok p) ≡ ok q
    → Trimmed q.endpoint
root_step-Trimmed kind s c p q name h e = elim (Bool-cases (name =s= k_resource_path_keyword)) [
  | inl is_root ↦ take_root-Trimmed kind s c p q (rw is_root at e)
  | inr is_other ↦
      let kept : ◌≡◌ {A = Result ConfigPath} (ok p) (ok q) = rw is_other at e in
      let same : p ≡ q = cc in rw (← same) h
]

root_loop-Trimmed :
    (kind : EndpointType) (s : NginxConfigStatement) (c : NginxConfig) (p q : ConfigPath)
    → Trimmed p.endpoint
    → root_loop kind s c p ≡ ok q
    → Trimmed q.endpoint
unfolding root_loop
root_loop-Trimmed kind s nil p q h e = let same : p ≡ q = cc in rw (← same) h
root_loop-Trimmed kind s (cons c cs) p q h e =
    let (name, _, e') = >>=-eq-ok (token_at (tokens_ c) 0) _ e in
    let (next, stepped, e'') =
      >>=-eq-ok (if name =s= k_resource_path_keyword then take_root kind s c p else ok p) _ e' in
    root_loop-Trimmed kind s cs next q (root_step-Trimmed kind s c p next name h stepped) e''

plain_path-Trimmed :
    (kind : EndpointType) (s : NginxConfigStatement) (q : ConfigPath)
    → plain_path kind s ≡ ok q
    → Trimmed q.endpoint
unfolding plain_path
plain_path-Trimmed kind s q e =
    let (location, _, last) = >>=-eq-ok (token_at (tokens_ s) 1) _ e in
    Trimmed-of_eq location (ground arith)

-- A path that is added, if it is trimmed.
push-IsTrimmed :
    (paths paths' : List ConfigPath) (m : Result ConfigPath)
    → All IsTrimmed paths
    → ((q : ConfigPath) → m ≡ ok q → IsTrimmed q)
    → push_path paths m ≡ ok paths'
    → All IsTrimmed paths'
push-IsTrimmed paths paths' m h k e =
    let (q, got, last) = >>=-eq-ok m _ e in
    let same : paths ++ q ∷ [] ≡ paths' = cc in rw (← same) (All-concat IsTrimmed paths h (k q got))

-- The authentication and the console branch make no static path.
auth_pair-type :
    (s : NginxConfigStatement) (kv : Bytes × Bytes) (p q : ConfigPath)
    → auth_pair s kv p ≡ ok q
    → q.type ≢ static_
unfolding auth_pair
auth_pair-type s (key, value) p q e =
    let (location, _, last) = >>=-eq-ok (token_at (tokens_ s) 1) _ e in
    let made : auth ≡ q.type = ground arith in rw (← made) (λ same. cc)

auth_loop-type :
    (s : NginxConfigStatement) (c : NginxConfig) (p q : ConfigPath)
    → p.type ≢ static_
    → auth_loop s c p ≡ ok q
    → q.type ≢ static_
unfolding auth_loop
auth_loop-type s nil p q h e = let same : p ≡ q = cc in rw (← same) h
auth_loop-type s (cons c cs) p q h e = elim (Option-cases (pair? (tokens_ c))) [
  | inl got ↦ auth_loop-type s cs p q h (rw (got, auth_loop) at e)
  | inr (kv, got) ↦
      let e' : (auth_pair s kv p >>= auth_loop s cs) ≡ ok q = rw (got, auth_loop) at e in
      let (next, made, e'') = >>=-eq-ok (auth_pair s kv p) (auth_loop s cs) e' in
      auth_loop-type s cs next q (auth_pair-type s kv p next made) e''
]

console_path-type :
    (s : NginxConfigStatement) (kv : Bytes × Bytes) (q : ConfigPath)
    → console_path s kv ≡ ok q
    → q.type ≢ static_
unfolding console_path
console_path-type s (key, value) q e =
    let (location, _, last) = >>=-eq-ok (token_at (tokens_ s) 1) _ e in
    let made : console ≡ q.type = ground arith in rw (← made) (λ same. cc)

console_loop-IsTrimmed :
    (s : NginxConfigStatement) (c : NginxConfig) (paths paths' : List ConfigPath)
    → All IsTrimmed paths
    → console_loop s c paths ≡ ok paths'
    → All IsTrimmed paths'
unfolding console_loop console_step
console_loop-IsTrimmed s nil paths paths' h e = let same : paths ≡ paths' = cc in rw (← same) h
console_loop-IsTrimmed s (cons c cs) paths paths' h e = elim (Option-cases (pair? (tokens_ c))) [
  | inl got ↦ console_loop-IsTrimmed s cs paths paths' h (rw (got, console_loop, console_step) at e)
  | inr (kv, got) ↦
      let e' : (push_path paths (console_path s kv) >>= console_loop s cs) ≡ ok paths' =
        rw (got, console_loop, console_step) at e in
      let (next, made, e'') =
        >>=-eq-ok (push_path paths (console_path s kv)) (console_loop s cs) e' in
      console_loop-IsTrimmed s cs next paths'
        (push-IsTrimmed paths next (console_path s kv) h
          (λ q g t. absurd (console_path-type s kv q g t)) made)
        e''
]

-- A branch with a block.
in_block :
    (s : NginxConfigStatement) (go : NginxConfig → Result (List ConfigPath))
    (paths' : List ConfigPath)
    → (child_statements s >>= go) ≡ ok paths'
    → (child : NginxConfig) × (go child ≡ ok paths')
in_block s go paths' e = let (child, _, e') = >>=-eq-ok (child_statements s) go e in (child, e')

static_root :
    (kind : EndpointType) (s : NginxConfigStatement) (c : NginxConfig) (q : ConfigPath)
    → root_loop kind s c default_path ≡ ok q
    → IsTrimmed q
unfolding trim_slashes
static_root kind s c q e t =
    root_loop-Trimmed kind s c default_path q (unfold find_last_not_of in refl) e

add_paths-IsTrimmed :
    (name : HandlerName) (s : NginxConfigStatement) (paths paths' : List ConfigPath)
    → All IsTrimmed paths
    → add_paths name s paths ≡ ok paths'
    → All IsTrimmed paths'
unfolding add_paths
add_paths-IsTrimmed static_handler s paths paths' h e =
    let (child, e') = in_block s _ paths' e in
    push-IsTrimmed paths paths' (root_loop static_ s child default_path) h
      (static_root static_ s child) e'
add_paths-IsTrimmed echo_handler s paths paths' h e =
    push-IsTrimmed paths paths' (plain_path echo s) h (λ q g t. plain_path-Trimmed echo s q g) e
add_paths-IsTrimmed api_handler s paths paths' h e =
    let (child, e') = in_block s _ paths' e in
    push-IsTrimmed paths paths' (root_loop api s child default_path) h (static_root api s child) e'
add_paths-IsTrimmed health_handler s paths paths' h e =
    push-IsTrimmed paths paths' (plain_path health s) h (λ q g t. plain_path-Trimmed health s q g) e
add_paths-IsTrimmed sleep_handler s paths paths' h e =
    push-IsTrimmed paths paths' (plain_path sleep_ s) h (λ q g t. plain_path-Trimmed sleep_ s q g) e
add_paths-IsTrimmed authentication_handler s paths paths' h e =
    let (child, e') = in_block s _ paths' e in
    push-IsTrimmed paths paths' (auth_loop s child (record default_path { type = auth })) h
      (λ q g t.
        absurd (auth_loop-type s child (record default_path { type = auth }) q (λ same. cc) g t))
      e'
add_paths-IsTrimmed console_handler s paths paths' h e =
    let (child, e') = in_block s _ paths' e in console_loop-IsTrimmed s child paths paths' h e'
add_paths-IsTrimmed unknown s paths paths' h e = let same : paths ≡ paths' = cc in rw (← same) h

location_paths-IsTrimmed :
    (keyword : Bytes) (s : NginxConfigStatement) (paths paths' : List ConfigPath)
    → All IsTrimmed paths
    → location_paths keyword s paths ≡ ok paths'
    → All IsTrimmed paths'
unfolding location_paths
location_paths-IsTrimmed keyword s paths paths' h e =
    elim (Bool-cases (keyword =s= k_url_path_keyword)) [
      | inl is_location ↦
          let e' : (token_at (tokens_ s) 2 >>= λ t. add_paths (handler_name t) s paths)
              ≡ ok paths' =
            rw (is_location, location_paths) at e in
          let (t, _, made) = >>=-eq-ok (token_at (tokens_ s) 2) _ e' in
          add_paths-IsTrimmed (handler_name t) s paths paths' h made
      | inr is_other ↦
          let kept : ◌≡◌ {A = Result (List ConfigPath)} (ok paths) (ok paths') =
            rw (is_other, location_paths) at e in
          let same : paths ≡ paths' = cc in rw (← same) h
    ]

-- The paths of a configuration are trimmed.
pub get_paths-IsTrimmed :
    (c : NginxConfig) (paths paths' : List ConfigPath)
    → All IsTrimmed paths
    → get_paths c paths ≡ ok paths'
    → All IsTrimmed paths'
unfolding get_paths
get_paths-IsTrimmed nil paths paths' h e = let same : paths ≡ paths' = cc in rw (← same) h
get_paths-IsTrimmed (cons s c) paths paths' h e =
    let (keyword, _, e') = >>=-eq-ok (token_at (tokens_ s) 0) _ e in
    let (next, made, e'') = >>=-eq-ok (location_paths keyword s paths) _ e' in
    get_paths-IsTrimmed c next paths' (location_paths-IsTrimmed keyword s paths next h made) e''
