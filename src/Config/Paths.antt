-- ===== src/Config/Paths.antt =====
-- `get_paths`, `get_root` and `get_auth_path_map` of src/config_parser.cc, with `path` and
-- `endpoint_type` of include/config_parser.h and the names of include/constants.h.
pub mod Laws
pub mod Trim
pub mod Endpoints
use boost_web_server.Common.{
  ℕ, zero, suc, Bool, true, false, not, ◌&&◌, ◌||◌, Option, none, some, List, [], ◌∷◌, ◌++◌,
  if◌then◌else◌, take, Bytes, codes, ◌=s=◌, find_last_not_of, Map, map_set, map_index, bad_index,
  null_pointer, Result, ok, err, ◌>>=◌,
}
use boost_web_server.Config.Tree.{
  NginxConfig, nil, cons, NginxConfigStatement, statement, block, tokens_,
}

pub data EndpointType : Type 0 where
  static_ echo api health sleep_ profile auth console invalid : EndpointType

-- `struct path`
pub record ConfigPath : Type 0 where
  pub type : EndpointType
  pub endpoint : Bytes
  pub root : Bytes
  pub config_key_to_path_map : Map Bytes

abbrev pub default_path : ConfigPath
default_path = record { type = echo; endpoint = []; root = []; config_key_to_path_map = [] }

abbrev pub k_url_path_keyword : Bytes
k_url_path_keyword = codes "location"

abbrev pub k_resource_path_keyword : Bytes
k_resource_path_keyword = codes "root"

-- `tokens_[i]`, undefined out of range.
unfoldable pub token_at : List Bytes → ℕ → Result Bytes
token_at [] i = err bad_index
token_at (t ∷ ts) zero = ok t
token_at (t ∷ ts) (suc i) = token_at ts i

-- `child_block_->statements_`, undefined on a null pointer.
unfoldable pub child_statements : NginxConfigStatement → Result NginxConfig
child_statements (statement ts) = err null_pointer
child_statements (block ts child) = ok child

-- The endpoint without its trailing slashes, or as it is if it has nothing else.
unfoldable pub trim_slashes : Bytes → Bytes
unfolding find_last_not_of
trim_slashes s = elim (find_last_not_of b'/' s) [ none ↦ s | some i ↦ take (suc i) s ]

-- The body of the loop of the static and of the API branch, behind its test.
abbrev pub take_root :
    EndpointType → NginxConfigStatement → NginxConfigStatement → ConfigPath → Result ConfigPath
take_root kind s c p = do
  location ← token_at (tokens_ s) 1
  value ← token_at (tokens_ c) 1
  ok (record p { type = kind; endpoint = trim_slashes location; root = value })

-- The loop of the static and of the API branch over the block's statements.
unfoldable pub root_loop :
    EndpointType → NginxConfigStatement → NginxConfig → ConfigPath → Result ConfigPath
root_loop kind s nil p = ok p
root_loop kind s (cons c cs) p = do
  name ← token_at (tokens_ c) 0
  next ← (if name =s= k_resource_path_keyword then take_root kind s c p else ok p)
  root_loop kind s cs next

-- The echo, the health and the sleep branch.
unfoldable pub plain_path : EndpointType → NginxConfigStatement → Result ConfigPath
plain_path kind s = do
  location ← token_at (tokens_ s) 1
  ok (record default_path { type = kind; endpoint = trim_slashes location })

-- A key and its value, from a statement of two tokens.
abbrev pub pair? : List Bytes → Option (Bytes × Bytes)
pair? (key ∷ value ∷ []) = some (key, value)
pair? _ = none

-- The body of the loop of the authentication branch.
unfoldable pub auth_pair : NginxConfigStatement → Bytes × Bytes → ConfigPath → Result ConfigPath
auth_pair s (key, value) p = do
  location ← token_at (tokens_ s) 1
  let m = map_index [] (codes "root") (map_set key value p.config_key_to_path_map)
  ok (record {
    type = auth;
    endpoint = trim_slashes location;
    root = m.0;
    config_key_to_path_map = m.1;
  })

unfoldable pub auth_loop : NginxConfigStatement → NginxConfig → ConfigPath → Result ConfigPath
unfolding auth_pair
auth_loop s nil p = ok p
auth_loop s (cons c cs) p = do
  next ← elim (pair? (tokens_ c)) [ none ↦ ok p | some kv ↦ auth_pair s kv p ]
  auth_loop s cs next

-- The console branch: a path for each statement of two tokens. Its endpoint is not trimmed.
unfoldable pub console_path : NginxConfigStatement → Bytes × Bytes → Result ConfigPath
console_path s (key, value) = do
  location ← token_at (tokens_ s) 1
  let m = map_index [] (codes "root") (map_set key value [])
  ok (record { type = console; endpoint = location; root = m.0; config_key_to_path_map = m.1 })

abbrev pub push_path : List ConfigPath → Result ConfigPath → Result (List ConfigPath)
push_path paths m = m >>= λ p. ok (paths ++ p ∷ [])

unfoldable pub console_step :
    NginxConfigStatement → Option (Bytes × Bytes) → List ConfigPath → Result (List ConfigPath)
unfolding console_path
console_step s none paths = ok paths
console_step s (some kv) paths = push_path paths (console_path s kv)

unfoldable pub console_loop :
    NginxConfigStatement → NginxConfig → List ConfigPath → Result (List ConfigPath)
unfolding console_step
console_loop s nil paths = ok paths
console_loop s (cons c cs) paths = do
  next ← console_step s (pair? (tokens_ c)) paths
  console_loop s cs next

-- The branches on `tokens_[2]`.
pub data HandlerName : Type 0 where
  static_handler echo_handler api_handler health_handler sleep_handler : HandlerName
  authentication_handler console_handler unknown : HandlerName

unfoldable pub handler_name : Bytes → HandlerName
handler_name t =
    if t =s= codes "StaticHandler"
    then static_handler
    else if t =s= codes "EchoHandler"
    then echo_handler
    else if t =s= codes "APIHandler"
    then api_handler
    else if t =s= codes "HealthHandler"
    then health_handler
    else if t =s= codes "SleepHandler"
    then sleep_handler
    else if t =s= codes "AuthenticationHandler"
    then authentication_handler
    else if t =s= codes "ApiConsoleHandler"
    then console_handler
    else unknown

unfoldable pub add_paths :
    HandlerName → NginxConfigStatement → List ConfigPath → Result (List ConfigPath)
unfolding root_loop plain_path auth_loop console_loop
add_paths static_handler s paths = do
  child ← child_statements s
  push_path paths (root_loop static_ s child default_path)
add_paths echo_handler s paths = push_path paths (plain_path echo s)
add_paths api_handler s paths = do
  child ← child_statements s
  push_path paths (root_loop api s child default_path)
add_paths health_handler s paths = push_path paths (plain_path health s)
add_paths sleep_handler s paths = push_path paths (plain_path sleep_ s)
add_paths authentication_handler s paths = do
  child ← child_statements s
  push_path paths (auth_loop s child (record default_path { type = auth }))
add_paths console_handler s paths = do child ← child_statements s; console_loop s child paths
add_paths unknown s paths = ok paths

-- The body of the loop, on the statement's first token.
unfoldable pub location_paths :
    Bytes → NginxConfigStatement → List ConfigPath → Result (List ConfigPath)
location_paths keyword s paths =
    if keyword =s= k_url_path_keyword
    then (token_at (tokens_ s) 2 >>= λ t. add_paths (handler_name t) s paths)
    else ok paths

-- `get_paths` from the content of the member `paths`, to which it appends and which it returns.
unfoldable pub get_paths : NginxConfig → List ConfigPath → Result (List ConfigPath)
get_paths nil paths = ok paths
get_paths (cons s c) paths = do
  keyword ← token_at (tokens_ s) 0
  next ← location_paths keyword s paths
  get_paths c next

abbrev is_static : EndpointType → Bool
is_static static_ = true
is_static _ = false

abbrev is_api : EndpointType → Bool
is_api api = true
is_api _ = false

abbrev pub is_auth : EndpointType → Bool
is_auth auth = true
is_auth _ = false

-- `get_root`, over the member `paths`
unfoldable pub get_root : List ConfigPath → Bytes → Bytes
get_root [] location = []
get_root (p ∷ ps) location =
    if not (p.endpoint =s= location) && (not (is_static p.type) || not (is_api p.type))
    then get_root ps location
    else p.root

-- `get_auth_path_map`, over the member `paths`
unfoldable pub get_auth_path_map : List ConfigPath → Bytes → Map Bytes
get_auth_path_map [] location = []
get_auth_path_map (p ∷ ps) location =
    if not (p.endpoint =s= location) && not (is_auth p.type)
    then get_auth_path_map ps location
    else p.config_key_to_path_map
