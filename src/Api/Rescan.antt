-- ===== src/Api/Rescan.antt =====
-- The numbers that the constructor of src/request_api_handler.cc leaves in `path_counts`: those that
-- it finds there, and those of the files.
use boost_web_server.Common.{
  ℕ, ◌≡◌, sym, ap, ◌∙◌, inl, inr, Bool, true, false, ◌&&◌, ◌||◌, List, [], ◌∷◌, arith,
  if◌then◌else◌, Bool-cases, Option-cases, Bytes, ◌=s=◌, =s=_iff, ℤ, isdigit, stoi, int_eq, Map,
  map_find, map_has, map_set, map_index, map_find-set, Result, ok, err, ◌>>=◌, >>=-eq-ok,
}
use boost_web_server.Api.Paths.{folder_of}
use boost_web_server.FileSystem.{FileSystem}
use boost_web_server.Api.{has_id, add_id}
use boost_web_server.Api.Insertion.{add_id-has_id}
use boost_web_server.Api.Scan.{last_byte, add_file, add_files, new_api_handler}

-- A number in use for an entity.
abbrev pub is_used : Bytes → ℤ → Map (List ℤ) → Bool
is_used entity id counts = has_id id (map_index [] entity counts).0

pub is_used-map_has :
    (entity : Bytes) (id : ℤ) (counts : Map (List ℤ))
    → is_used entity id counts ≡ true
    → map_has entity counts ≡ true
unfolding map_index map_has has_id
is_used-map_has entity id counts used = ground arith

pub is_used-set :
    (k entity : Bytes) (id : ℤ) (ids : List ℤ) (counts : Map (List ℤ))
    → is_used entity id (map_set k ids counts)
      ≡ (if k =s= entity then has_id id ids else is_used entity id counts)
unfolding map_index has_id
is_used-set k entity id ids counts = elim (Bool-cases (k =s= entity)) [
  | inl here ↦ rw (map_find-set k entity ids counts, here, map_index)
  | inr there ↦ elim (Option-cases (map_find entity counts)) [
    | inl none_of ↦ rw (map_find-set k entity ids counts, there, none_of, map_index)
    | inr (before, found) ↦ rw (map_find-set k entity ids counts, there, found, map_index)
  ]
]

-- One more file in front of others.
joined :
    (gives file others before next after : Bool)
    → file ≡ gives
    → next ≡ (gives || before)
    → after ≡ (others || next)
    → after ≡ ((file || others) || before)
joined gives file others before next after e n a = ground arith

or_true : (b : Bool) → (b || true) ≡ true
or_true b = ground arith

module _ (fs : FileSystem) where
  open fs use {Disk, is_regular_file, entries, absolute, stem}

  -- Whether the constructor takes a number of an entity from a path.
  abbrev pub path_gives : Bytes → ℤ → Bytes → Bool
  path_gives entity id path = elim (last_byte path) [
    | err _ ↦ false
    | ok c ↦ isdigit c && (elim (stoi (stem path)) [
      | err _ ↦ false
      | ok i ↦ (folder_of path =s= entity) && int_eq i id
    ])
  ]

  abbrev pub file_gives : Disk → Bytes → ℤ → Bytes → Bool
  file_gives disk entity id file =
      is_regular_file disk file && path_gives entity id (absolute disk file)

  abbrev pub any_gives : Disk → Bytes → ℤ → List Bytes → Bool
  any_gives disk entity id [] = false
  any_gives disk entity id (file ∷ files) =
      file_gives disk entity id file || any_gives disk entity id files

  added_used :
      (path entity : Bytes) (i id : ℤ) (ids : List ℤ) (counts : Map (List ℤ))
      → add_id i (map_index [] (folder_of path) counts).0 ≡ ok ids
      → is_used entity id (map_set (folder_of path) ids counts)
        ≡ (((folder_of path =s= entity) && int_eq i id) || is_used entity id counts)
  added_used path entity i id ids counts grown =
      is_used-set (folder_of path) entity id ids counts
      ∙ elim (Bool-cases (folder_of path =s= entity)) [
        | inl here ↦
            let same : folder_of path ≡ entity = (=s=_iff (folder_of path) entity).0 here in
            rw here (
              add_id-has_id i (map_index [] (folder_of path) counts).0 ids id grown
              ∙ ap (λ k. int_eq i id || is_used k id counts) same)
        | inr there ↦ rw there
      ]

  add_number-is_used :
      (path entity : Bytes) (i id : ℤ) (counts counts' : Map (List ℤ))
      → (add_id i (map_index [] (folder_of path) counts).0 >>= λ ids.
          ok (map_set (folder_of path) ids counts))
        ≡ ok counts'
      → is_used entity id counts'
        ≡ (((folder_of path =s= entity) && int_eq i id) || is_used entity id counts)
  add_number-is_used path entity i id counts counts' e =
      let (ids, grown, final) = >>=-eq-ok (add_id i (map_index [] (folder_of path) counts).0) _ e in
      let same : map_set (folder_of path) ids counts ≡ counts' = cc in
      rw (← same) (added_used path entity i id ids counts grown)

  pub path_gives-number :
      (path entity : Bytes) (c : ℕ) (i id : ℤ)
      → last_byte path ≡ ok c
      → isdigit c ≡ true
      → stoi (stem path) ≡ ok i
      → path_gives entity id path ≡ ((folder_of path =s= entity) && int_eq i id)
  path_gives-number path entity c i id last number read = rw (last, number, read, path_gives)

  path_gives-other :
      (path entity : Bytes) (c : ℕ) (id : ℤ)
      → last_byte path ≡ ok c
      → isdigit c ≡ false
      → path_gives entity id path ≡ false
  path_gives-other path entity c id last no_number = rw (last, no_number, path_gives)

  add_file-is_used :
      (path entity : Bytes) (id : ℤ) (counts counts' : Map (List ℤ))
      → add_file fs path counts ≡ ok counts'
      → is_used entity id counts' ≡ (path_gives entity id path || is_used entity id counts)
  unfolding add_file
  add_file-is_used path entity id counts counts' e =
      let (c, last, e') = >>=-eq-ok (last_byte path) _ e in
      elim (Bool-cases (isdigit c)) [
        | inr no_number ↦
            let kept : ◌≡◌ {A = Result (Map (List ℤ))} (ok counts) (ok counts') =
              rw no_number at e' in
            let same : counts' ≡ counts = cc in
            ap (is_used entity id) same
            ∙ ap (λ b. b || is_used entity id counts)
                (sym (path_gives-other path entity c id last no_number))
        | inl number ↦
            let added : (stoi (stem path) >>= λ i.
            add_id i (map_index [] (folder_of path) counts).0 >>= λ ids.
            ok (map_set (folder_of path) ids counts))
                ≡ ok counts' =
              rw number at e' in
            let (i, read, e'') = >>=-eq-ok (stoi (stem path)) _ added in
            add_number-is_used path entity i id counts counts' e''
            ∙ ap (λ b. b || is_used entity id counts)
                (sym (path_gives-number path entity c i id last number read))
      ]

  add_files-is_used :
      (disk : Disk) (files : List Bytes) (entity : Bytes) (id : ℤ) (counts counts' : Map (List ℤ))
      → add_files fs disk files counts ≡ ok counts'
      → is_used entity id counts' ≡ (any_gives disk entity id files || is_used entity id counts)
  unfolding add_files
  add_files-is_used disk [] entity id counts counts' e = let same : counts ≡ counts' = cc in rw same
  add_files-is_used disk (file ∷ files) entity id counts counts' e =
      elim (Bool-cases (is_regular_file disk file)) [
        | inl regular ↦
            let e' : (add_file fs (absolute disk file) counts >>= add_files fs disk files)
                ≡ ok counts' =
              rw regular at e in
            let (next, first, others) = >>=-eq-ok (add_file fs (absolute disk file) counts) _ e' in
            joined (path_gives entity id (absolute disk file)) (file_gives disk entity id file)
              (any_gives disk entity id files) (is_used entity id counts) (is_used entity id next)
              (is_used entity id counts') (rw regular)
              (add_file-is_used (absolute disk file) entity id counts next first)
              (add_files-is_used disk files entity id next counts' others)
        | inr folder ↦
            let e' : add_files fs disk files counts ≡ ok counts' = rw folder at e in
            add_files-is_used disk files entity id counts counts' e' ∙ rw folder
      ]

  pub new_api_handler-eq :
      (disk : Disk) (root entity : Bytes) (id : ℤ) (files : List Bytes)
      (counts counts' : Map (List ℤ))
      → entries disk root ≡ ok files
      → new_api_handler fs disk root counts ≡ ok counts'
      → is_used entity id counts' ≡ (any_gives disk entity id files || is_used entity id counts)
  unfolding new_api_handler
  new_api_handler-eq disk root entity id files counts counts' listed e =
      add_files-is_used disk files entity id counts counts' (rw listed at e)

  -- A number in use stays in use.
  pub new_api_handler-is_used :
      (disk : Disk) (root entity : Bytes) (id : ℤ) (counts counts' : Map (List ℤ))
      → new_api_handler fs disk root counts ≡ ok counts'
      → is_used entity id counts ≡ true
      → is_used entity id counts' ≡ true
  unfolding new_api_handler
  new_api_handler-is_used disk root entity id counts counts' e used =
      let (files, listed, e') = >>=-eq-ok (entries disk root) _ e in
      add_files-is_used disk files entity id counts counts' e'
      ∙ rw used (or_true (any_gives disk entity id files))
