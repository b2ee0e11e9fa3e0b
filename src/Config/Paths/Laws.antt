-- ===== src/Config/Paths/Laws.antt =====
-- The paths that src/config_parser.cc makes of a configuration, and the queries on them.
use boost_web_server.Common.{
  ℕ, zero, suc, ◌≡◌, refl, sym, ap, ◌∙◌, ◌≢◌, inl, inr, Option, none, some, List, [], ◌∷◌, ◌++◌,
  append-nil, append_assoc, arith, Bool-cases, length, take, All, Bytes, ◌=s=◌, =s=_iff,
  find_last_not_of, Result, ok, err, ◌>>=◌, Result-cases,
}
use boost_web_server.Config.Tree.{
  NginxConfig, nil, cons, NginxConfigStatement, statement, block, tokens_,
}
use boost_web_server.Config.Paths.{
  static_, echo, api, health, sleep_, auth, ConfigPath, default_path, k_url_path_keyword, token_at,
  child_statements, trim_slashes, root_loop, plain_path, pair?, auth_loop, console_path, push_path,
  console_step, console_loop, HandlerName, static_handler, echo_handler, api_handler,
  health_handler, sleep_handler, authentication_handler, console_handler, unknown, handler_name,
  add_paths, location_paths, get_paths, get_root, get_auth_path_map,
}

abbrev pub slashes : ℕ → Bytes
slashes zero = []
slashes (suc n) = b'/' ∷ slashes n

slashes-find : (n : ℕ) → find_last_not_of b'/' (slashes n) ≡ none
unfolding find_last_not_of
slashes-find zero = refl
slashes-find (suc n) = rw (slashes-find n, find_last_not_of)

last-find :
    (t : Bytes) (c n : ℕ)
    → c ≢ b'/'
    → find_last_not_of b'/' (t ++ (c ∷ slashes n)) ≡ some (length t)
unfolding find_last_not_of
last-find [] c n h = ground (arith, slashes-find n)
last-find (x ∷ t) c n h = rw (last-find t c n h, find_last_not_of)

take-length-append {ℓ} :
    {A : Type ℓ} (t : List A) (c : A) (rest : List A)
    → take (suc (length t)) (t ++ (c ∷ rest)) ≡ t ++ c ∷ []
take-length-append [] c rest = refl
take-length-append (x ∷ t) c rest = ap (◌∷◌ x) (take-length-append t c rest)

-- An endpoint loses its trailing slashes, and keeps everything up to its last other byte.
pub trim_slashes_lem :
    (t : Bytes) (c n : ℕ) → c ≢ b'/' → trim_slashes (t ++ (c ∷ slashes n)) ≡ t ++ c ∷ []
unfolding trim_slashes
trim_slashes_lem t c n h = rw (last-find t c n h, trim_slashes) (take-length-append t c (slashes n))

-- The root that `get_root` gives is that of the first path with the wanted endpoint, of whatever
-- type; of the paths before that one alone, it gives the empty root.
pub get_root_first :
    (before after : List ConfigPath) (p : ConfigPath) (location : Bytes)
    → All (λ q. q.endpoint ≢ location) before
    → p.endpoint ≡ location
    → (get_root (before ++ (p ∷ after)) location ≡ p.root) × (get_root before location ≡ [])
unfolding get_root
get_root_first [] after p location h e = (ground (arith, =s=_iff p.endpoint location), refl)
get_root_first (q ∷ before) after p location h e =
    let ih = get_root_first before after p location h.1 e in
    (
      ground (arith, =s=_iff q.endpoint location, ih.0),
      ground (arith, =s=_iff q.endpoint location, ih.1),
    )

-- A path of the authentication handler answers `get_auth_path_map` for every location that no
-- earlier path has as its endpoint, its own or not.
pub get_auth_path_map_first_auth :
    (before after : List ConfigPath) (p : ConfigPath) (location : Bytes)
    → All (λ q. (q.endpoint ≢ location) × (q.type ≢ auth)) before
    → p.type ≡ auth
    → get_auth_path_map (before ++ (p ∷ after)) location ≡ p.config_key_to_path_map
unfolding get_auth_path_map
get_auth_path_map_first_auth [] after p location h e = ground arith
get_auth_path_map_first_auth (q ∷ before) after p location h e =
    ground (
      arith,
      =s=_iff q.endpoint location,
      get_auth_path_map_first_auth before after p location h.1 e,
    )

-- The paths put behind those that are there.
abbrev pub behind : List ConfigPath → Result (List ConfigPath) → Result (List ConfigPath)
behind paths m = m >>= λ new. ok (paths ++ new)

behind_assoc :
    (paths new : List ConfigPath) (g : Result (List ConfigPath))
    → behind (paths ++ new) g ≡ behind paths (behind new g)
behind_assoc paths new (ok g) = rw append_assoc
behind_assoc paths new (err e) = refl

-- A function that appends to the paths that it is given.
abbrev Appends : (List ConfigPath → Result (List ConfigPath)) → Type 0
Appends f = (paths : List ConfigPath) → f paths ≡ behind paths (f [])

bind-behind :
    (f : List ConfigPath → Result (List ConfigPath))
    → Appends f
    → (paths : List ConfigPath) (m : Result (List ConfigPath))
    → (behind paths m >>= f) ≡ behind paths (m >>= f)
bind-behind f a paths (ok new) =
    a (paths ++ new) ∙ behind_assoc paths new (f []) ∙ ap (behind paths) (sym (a new))
bind-behind f a paths (err e) = refl

push_path-behind :
    (paths : List ConfigPath) (m : Result ConfigPath)
    → push_path paths m ≡ behind paths (push_path [] m)
push_path-behind paths (ok p) = refl
push_path-behind paths (err e) = refl

console_step-Appends :
    (s : NginxConfigStatement) (o : Option (Bytes × Bytes)) → Appends (console_step s o)
unfolding console_step
console_step-Appends s none paths = rw append-nil
console_step-Appends s (some kv) paths = push_path-behind paths (console_path s kv)

console_loop-Appends :
    (s : NginxConfigStatement) (child : NginxConfig) → Appends (console_loop s child)
unfolding console_loop
console_loop-Appends s nil paths = rw append-nil
console_loop-Appends s (cons c cs) paths =
    rw (console_step-Appends s (pair? (tokens_ c)) paths)
      (bind-behind (console_loop s cs) (console_loop-Appends s cs) paths _)

with_child-Appends :
    (s : NginxConfigStatement) (f : NginxConfig → List ConfigPath → Result (List ConfigPath))
    → ((child : NginxConfig) → Appends (f child))
    → Appends (λ paths. child_statements s >>= λ child. f child paths)
unfolding child_statements
with_child-Appends (statement ts) f a paths = refl
with_child-Appends (block ts child) f a paths = a child paths

add_paths-Appends : (h : HandlerName) (s : NginxConfigStatement) → Appends (add_paths h s)
unfolding add_paths
add_paths-Appends echo_handler s paths = push_path-behind paths (plain_path echo s)
add_paths-Appends health_handler s paths = push_path-behind paths (plain_path health s)
add_paths-Appends sleep_handler s paths = push_path-behind paths (plain_path sleep_ s)
add_paths-Appends static_handler s paths =
    with_child-Appends s (λ child ps. push_path ps (root_loop static_ s child default_path))
      (λ child ps. push_path-behind ps _) paths
add_paths-Appends api_handler s paths =
    with_child-Appends s (λ child ps. push_path ps (root_loop api s child default_path))
      (λ child ps. push_path-behind ps _) paths
add_paths-Appends authentication_handler s paths =
    with_child-Appends s
      (λ child ps. push_path ps (auth_loop s child (record default_path { type = auth })))
      (λ child ps. push_path-behind ps _) paths
add_paths-Appends console_handler s paths =
    with_child-Appends s (console_loop s) (console_loop-Appends s) paths
add_paths-Appends unknown s paths = rw append-nil

location_paths-Appends :
    (keyword : Bytes) (s : NginxConfigStatement) → Appends (location_paths keyword s)
unfolding location_paths
location_paths-Appends keyword s paths = elim (Bool-cases (keyword =s= k_url_path_keyword)) [
  | inl e ↦ rw e (elim (Result-cases (token_at (tokens_ s) 2)) [
    | inl (t, e2) ↦ rw e2 (add_paths-Appends (handler_name t) s paths)
    | inr (x, e2) ↦ rw e2
  ])
  | inr e ↦ rw e (rw append-nil)
]

-- `get_paths` makes its new paths from the configuration alone and appends them to those of
-- earlier calls: a second call doubles them.
pub get_paths_append :
    (c : NginxConfig) (paths : List ConfigPath) → get_paths c paths ≡ behind paths (get_paths c [])
unfolding get_paths
get_paths_append nil paths = rw append-nil
get_paths_append (cons s c) paths = elim (Result-cases (token_at (tokens_ s) 0)) [
  | inl (keyword, e) ↦ rw e (
      rw (location_paths-Appends keyword s paths)
        (bind-behind (get_paths c) (get_paths_append c) paths _))
  | inr (x, e) ↦ rw e
]
