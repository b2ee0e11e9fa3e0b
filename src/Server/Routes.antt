-- ===== src/Server/Routes.antt =====
-- The table of `init_server` in src/server.cc answers every request of src/session.cc.
use boost_web_server.Common.{
  ◌≡◌, refl, sym, ◌∙◌, inl, inr, true, some, List, [], ◌∷◌, arith, Bool-cases, Option-cases, All,
  All-every, Bytes, ◌=s=◌, =s=_iff, =s=_refl, Map, map_find, map_has, map_emplace, map_find-emplace,
  map_has-find, ok, >>=-eq-ok,
}
use boost_web_server.Config.Tree.{NginxConfig}
use boost_web_server.Config.Paths.{ConfigPath, get_paths}
use boost_web_server.Server.{
  FactoryKind, handler404factory, Factory, factory_kind, add_route, add_routes, init_server,
}
use boost_web_server.Session.{match}
use boost_web_server.Session.Matching.{IsMatch, longest, default, match_lem}

map_has-emplace {ℓ} :
    {V : Type ℓ} (k : Bytes) (v : V) (m : Map V) → map_has k (map_emplace k v m) ≡ true
unfolding map_has
map_has-emplace k v m = elim (Option-cases (map_find k m)) [
  | inl e ↦ ground (arith, map_find-emplace k k v m, =s=_refl k)
  | inr (w, e) ↦ ground (arith, map_find-emplace k k v m, =s=_refl k)
]

-- What holds for every route of a table and its factory.
abbrev pub Each : (Bytes → Factory → Type 0) → Map Factory → Type 0
Each P routes = (k : Bytes) (f : Factory) → map_find k routes ≡ some f → P k f

module _ (P : Bytes → Factory → Type 0) where
  emplace-Each :
      (key : Bytes) (v : Factory) (m : Map Factory)
      → Each P m
      → P key v
      → Each P (map_emplace key v m)
  unfolding map_has
  emplace-Each key v m h new k f e = elim (Bool-cases (map_has key m)) [
    | inl known ↦ h k f (sym (rw (map_find-emplace key k v m, known)) ∙ e)
    | inr missed ↦ elim (Bool-cases (key =s= k)) [
      | inl here ↦
          let same : v ≡ f = ground (arith, map_find-emplace key k v m) in
          rw (← (=s=_iff key k).0 here, ← same) new
      | inr there ↦ h k f (sym (rw (map_find-emplace key k v m, missed, there)) ∙ e)
    ]
  ]

  -- What a path of the configuration adds.
  abbrev pub IsAdded : List ConfigPath → ConfigPath → Type 0
  IsAdded config p =
      (kind : FactoryKind)
      → factory_kind p.type ≡ some kind
      → P p.endpoint (record { kind = kind; location_ = p.endpoint; paths = config })

  add_route-Each :
      (config : List ConfigPath) (p : ConfigPath) (m : Map Factory)
      → Each P m
      → IsAdded config p
      → Each P (add_route config p m)
  unfolding add_route
  add_route-Each config p m h new = elim (Option-cases (factory_kind p.type)) [
    | inl e ↦ rw (e, add_route) h
    | inr (k, e) ↦
        rw (e, add_route)
          (emplace-Each p.endpoint (record { kind = k; location_ = p.endpoint; paths = config }) m h
            (new k e))
  ]

  add_routes-Each :
      (config ps : List ConfigPath) (m : Map Factory)
      → Each P m
      → All (IsAdded config) ps
      → Each P (add_routes config ps m)
  unfolding add_routes
  add_routes-Each config [] m h new = h
  add_routes-Each config (p ∷ ps) m h (new, news) =
      add_routes-Each config ps (add_route config p m) (add_route-Each config p m h new) news

  -- What every path of the configuration adds, and the route `/`, holds for the whole table.
  pub init_server-Each :
      (config : NginxConfig) (routes : Map Factory)
      → ((paths : List ConfigPath)
          → get_paths config [] ≡ ok paths
          → All (IsAdded paths) paths
            × P
                (b'/' ∷ [])
                (record { kind = handler404factory; location_ = b'/' ∷ []; paths = paths }))
      → init_server config [] ≡ ok routes
      → Each P routes
  unfolding init_server
  init_server-Each config routes h e =
      let (paths, got, built) = >>=-eq-ok (get_paths config []) _ e in
      let fallback : Factory = record {
        kind = handler404factory;
        location_ = b'/' ∷ [];
        paths = paths;
      } in
      let table = add_routes paths paths [] in
      let same : map_emplace (b'/' ∷ []) fallback table ≡ routes = cc in
      let (added, last) = h paths got in
      rw same at (
        emplace-Each (b'/' ∷ []) fallback table
          (add_routes-Each paths paths [] (λ k f found. unfold map_find in cc) added) last)

-- Every factory of a table stands under its own location.
abbrev IsLocated : Bytes → Factory → Type 0
IsLocated k f = f.location_ ≡ k

init_server-IsLocated :
    (config : NginxConfig) (routes : Map Factory)
    → init_server config [] ≡ ok routes
    → Each IsLocated routes
init_server-IsLocated config routes e =
    init_server-Each IsLocated config routes
      (λ paths got. (All-every (IsAdded IsLocated paths) (λ p kind k. refl) paths, refl)) e

in_table :
    (routes : Map Factory) (url m : Bytes)
    → map_has (b'/' ∷ []) routes ≡ true
    → IsMatch routes url m
    → map_has m routes ≡ true
in_table routes url m root (longest c h max) = h
in_table routes url m root (default d none_of) = rw d root

-- After `init_server`, every request path is answered: the route that `match` gives for it is in
-- the table, so that `handle_read` finds a factory, and the factory is the one built for that
-- route.
pub init_server-match :
    (config : NginxConfig) (routes : Map Factory) (url : Bytes)
    → init_server config [] ≡ ok routes
    → (m : Bytes) × (f : Factory) × (match routes url ≡ some m)
      × (map_find m routes ≡ some f)
      × (f.location_ ≡ m)
unfolding init_server
init_server-match config routes url e =
    let (paths, got, built) = >>=-eq-ok (get_paths config []) _ e in
    let fallback : Factory = record {
      kind = handler404factory;
      location_ = b'/' ∷ [];
      paths = paths;
    } in
    let table = add_routes paths paths [] in
    let same : map_emplace (b'/' ∷ []) fallback table ≡ routes = cc in
    let root : map_has (b'/' ∷ []) routes ≡ true =
      rw same at (map_has-emplace (b'/' ∷ []) fallback table) in
    let (m, run, is_match) = match_lem routes url in
    let (f, found) = map_has-find m routes (in_table routes url m root is_match) in
    (m, f, run, found, init_server-IsLocated config routes e m f found)

-- `init_server` fails only where `get_paths` does.
pub init_server-ok :
    (config : NginxConfig) (paths : List ConfigPath)
    → get_paths config [] ≡ ok paths
    → (routes : Map Factory) × (init_server config [] ≡ ok routes)
unfolding init_server
init_server-ok config paths got = rw (init_server, got) (_, refl)
