-- ===== src/Api/Found.antt =====
-- What the constructor of src/request_api_handler.cc finds on the disk, by an independent
-- description of a number's file.
use mathlib.Core.Path.{subst}
use mathlib.Core.List.{Memᴰ}
use mathlib.Core.List.Memᴰ.{head, tail}
use boost_web_server.Common.{
  ℕ, ◌≡◌, refl, sym, ap, ◌∙◌, ◌↔◌, ◌⊎◌, inl, inr, Bool, true, false, ◌&&◌, ◌||◌, List, [], ◌∷◌,
  arith, All, Bytes, ◌=s=◌, =s=_iff, ℤ, isdigit, stoi, int_eq, Map, ok, Result-cases, NoSlash,
}
use boost_web_server.FileSystem.{FileSystem}
use boost_web_server.Api.Insertion.{int_eq_iff}
use boost_web_server.Api.Scan.{last_byte, new_api_handler}
use boost_web_server.Api.Handler.{slash_join}
use boost_web_server.Api.Paths.{folder_of, folder_of-path}
use boost_web_server.Api.Rescan.{
  is_used, path_gives, file_gives, any_gives, path_gives-number, new_api_handler-eq,
}

three_true : (a b c : Bool) → (a && (b && c)) ≡ true → (a ≡ true) × (b ≡ true) × (c ≡ true)
three_true a b c h = (ground arith, ground arith, ground arith)

two_true : (a b : Bool) → (a && b) ≡ true → (a ≡ true) × (b ≡ true)
two_true a b h = (ground arith, ground arith)

both_true : {a b : Bool} → a ≡ true → b ≡ true → (a && b) ≡ true
both_true h k = ground arith

or_cases : (a b : Bool) → (a || b) ≡ true → (a ≡ true) ⊎ (b ≡ true)
or_cases true b h = inl refl
or_cases false b h = inr h

or_left : {a : Bool} (b : Bool) → a ≡ true → (a || b) ≡ true
or_left b h = ground arith

or_right : (a : Bool) {b : Bool} → b ≡ true → (a || b) ≡ true
or_right a h = ground arith

-- The path of a file in a folder.
pub record InFolder (path : Bytes) : Type 0 where
  pub front : Bytes
  pub folder : Bytes
  pub name : Bytes
  pub path_lem : path ≡ slash_join (slash_join front folder) name
  pub folder_lem : NoSlash folder
  pub name_lem : NoSlash name

-- The path is that of the file of a number of an entity: the file lies in a folder that is named
-- as the entity, its name ends with a digit, and what is before its extension reads as the number.
pub record IsNumberOf (fs : FileSystem) (entity : Bytes) (id : ℤ) (path : Bytes) : Type 0 where
  pub front : Bytes
  pub name : Bytes
  pub last : ℕ
  pub path_lem : path ≡ slash_join (slash_join front entity) name
  pub entity_lem : NoSlash entity
  pub name_lem : NoSlash name
  pub last_lem : last_byte path ≡ ok last
  pub digit_lem : isdigit last ≡ true
  pub number_lem : stoi (FileSystem.stem fs path) ≡ ok id

module _ (fs : FileSystem) where
  open fs use {Disk, is_regular_file, entries, absolute, stem}

  -- A regular file of the list is the file of a number.
  abbrev pub IsFound : Disk → Bytes → ℤ → List Bytes → Type 0
  IsFound disk entity id files =
      (file : Bytes) × Memᴰ file files
      × (is_regular_file disk file ≡ true)
      × IsNumberOf fs entity id (absolute disk file)

  shown :
      (path entity : Bytes) (c : ℕ) (id : ℤ)
      → InFolder path
      → folder_of path ≡ entity
      → last_byte path ≡ ok c
      → isdigit c ≡ true
      → stoi (stem path) ≡ ok id
      → IsNumberOf fs entity id path
  shown path entity c id place same last digit read =
      let folder : place.folder ≡ entity =
        sym (
          ap folder_of place.path_lem
          ∙ folder_of-path place.front place.folder place.name place.folder_lem place.name_lem)
        ∙ same in
      record {
        front = place.front;
        name = place.name;
        last = c;
        path_lem =
            place.path_lem ∙ ap (λ k. slash_join (slash_join place.front k) place.name) folder;
        entity_lem = subst NoSlash folder place.folder_lem;
        name_lem = place.name_lem;
        last_lem = last;
        digit_lem = digit;
        number_lem = read;
      }

  path_gives-IsNumberOf :
      (path entity : Bytes) (id : ℤ)
      → InFolder path
      → path_gives fs entity id path ≡ true
      → IsNumberOf fs entity id path
  path_gives-IsNumberOf path entity id place h = elim (Result-cases (last_byte path)) [
    | inr (fault, last) ↦ let never : false ≡ true = rw (last, path_gives) at h in ground arith
    | inl (c, last) ↦ elim (Result-cases (stoi (stem path))) [
      | inr (fault, read) ↦
          let never : (isdigit c && false) ≡ true = rw (last, read, path_gives) at h in ground arith
      | inl (i, read) ↦
          let given : (isdigit c && ((folder_of path =s= entity) && int_eq i id)) ≡ true =
            rw (last, read, path_gives) at h in
          let (digit, folder, number) =
            three_true (isdigit c) (folder_of path =s= entity) (int_eq i id) given in
          shown path entity c id place ((=s=_iff (folder_of path) entity).0 folder) last digit
            (read ∙ ap ok ((int_eq_iff i id).0 number))
    ]
  ]

  IsNumberOf-path_gives :
      (path entity : Bytes) (id : ℤ)
      → IsNumberOf fs entity id path
      → path_gives fs entity id path ≡ true
  IsNumberOf-path_gives path entity id n =
      let folder : folder_of path ≡ entity =
        ap folder_of n.path_lem ∙ folder_of-path n.front entity n.name n.entity_lem n.name_lem in
      path_gives-number fs path entity n.last id id n.last_lem n.digit_lem n.number_lem
      ∙ both_true ((=s=_iff (folder_of path) entity).1 folder) ((int_eq_iff id id).1 refl)

  any_gives-IsFound :
      (disk : Disk) (entity : Bytes) (id : ℤ) (files : List Bytes)
      → All (λ file. InFolder (absolute disk file)) files
      → any_gives fs disk entity id files ≡ true
      → IsFound disk entity id files
  any_gives-IsFound disk entity id [] places h = ground arith
  any_gives-IsFound disk entity id (file ∷ files) places h =
      elim (or_cases (file_gives fs disk entity id file) (any_gives fs disk entity id files) h) [
        | inl this ↦
            let (regular, gives) =
              two_true (is_regular_file disk file) (path_gives fs entity id (absolute disk file))
                this in
            (
              file,
              head refl,
              regular,
              path_gives-IsNumberOf (absolute disk file) entity id places.0 gives,
            )
        | inr other ↦
            let (found, listed, regular, number) =
              any_gives-IsFound disk entity id files places.1 other in
            (found, tail listed, regular, number)
      ]

  IsFound-any_gives :
      (disk : Disk) (entity : Bytes) (id : ℤ) (file : Bytes) (files : List Bytes)
      → Memᴰ file files
      → is_regular_file disk file ≡ true
      → IsNumberOf fs entity id (absolute disk file)
      → any_gives fs disk entity id files ≡ true
  IsFound-any_gives disk entity id file [] listed regular number = elim listed [ ]
  IsFound-any_gives disk entity id file (other ∷ files) (head same) regular number = or_left _ (
      subst (λ k. file_gives fs disk entity id k ≡ true) same
        (both_true regular (IsNumberOf-path_gives (absolute disk file) entity id number)))
  IsFound-any_gives disk entity id file (other ∷ files) (tail listed) regular number =
      or_right _ (IsFound-any_gives disk entity id file files listed regular number)

  -- A file of a number that is listed puts the number in use.
  pub listed-is_used :
      (disk : Disk) (root entity : Bytes) (id : ℤ) (file : Bytes) (files : List Bytes)
      (counts counts' : Map (List ℤ))
      → entries disk root ≡ ok files
      → Memᴰ file files
      → is_regular_file disk file ≡ true
      → IsNumberOf fs entity id (absolute disk file)
      → new_api_handler fs disk root counts ≡ ok counts'
      → is_used entity id counts' ≡ true
  listed-is_used disk root entity id file files counts counts' all listed regular number e =
      new_api_handler-eq fs disk root entity id files counts counts' all e
      ∙ or_left _ (IsFound-any_gives disk entity id file files listed regular number)

  -- Where the scan of the constructor ends without a fault, and the files that it lists lie in
  -- folders, a number is in use for an entity behind it if and only if it was before, or one of the
  -- regular files has it for a number in a folder that is named as the entity.
  pub new_api_handler-IsFound :
      (disk : Disk) (root entity : Bytes) (id : ℤ) (files : List Bytes)
      (counts counts' : Map (List ℤ))
      → entries disk root ≡ ok files
      → All (λ file. InFolder (absolute disk file)) files
      → new_api_handler fs disk root counts ≡ ok counts'
      → (is_used entity id counts' ≡ true)
        ↔ ((is_used entity id counts ≡ true) ⊎ IsFound disk entity id files)
  new_api_handler-IsFound disk root entity id files counts counts' all places e =
      let same = new_api_handler-eq fs disk root entity id files counts counts' all e in
      (
        λ used.
            elim (or_cases (any_gives fs disk entity id files) (is_used entity id counts)
              (sym same ∙ used)) [
                | inl found ↦ inr (any_gives-IsFound disk entity id files places found)
                | inr before ↦ inl before
              ],
        λ h. elim h [
          | inl before ↦ same ∙ or_right _ before
          | inr (file, listed, regular, number) ↦
              listed-is_used disk root entity id file files counts counts' all listed regular number
                e
        ],
      )
