-- ===== src/FileSystem/Memory.antt =====
-- A file system that keeps its files in a list, below one directory: a value of the parameter, for
-- the tests.
use mathlib.Core.List.{Memᴰ}
use mathlib.Core.List.Memᴰ.{head, tail}
use boost_web_server.Common.{
  ◌≡◌, refl, ◌∙◌, inl, inr, Bool, true, false, ◌||◌, Option, none, some, List, [], ◌∷◌, ◌++◌, arith,
  if◌then◌else◌, Bool-cases, Bytes, ◌=s=◌, =s=_refl, rfind, after_at, map_find, map_set,
  map_find-set, Result, ok, rfind-last, drop_front, digits-NoSlash,
}
use boost_web_server.FileSystem.Laws.{FileLaws, ListingLaws, RemovalLaws}
use boost_web_server.FileSystem.{FileSystem, content}

abbrev pub FileList : Type 0
FileList = List (Bytes × Bytes)

abbrev pub is_there : Option Bytes → Bool
is_there none = false
is_there (some _) = true

abbrev pub without : Bytes → FileList → FileList
without path [] = []
without path ((p, text) ∷ files) =
    let others = without path files in if p =s= path then others else (p, text) ∷ others

abbrev pub paths_of : FileList → List Bytes
paths_of [] = []
paths_of ((p, _) ∷ files) = p ∷ paths_of files

abbrev pub files_below : Bytes → FileSystem
files_below directory = record {
  Disk = FileList;
  exists = λ files path. path =s= directory || is_there (map_find path files);
  is_directory = λ files path. path =s= directory;
  is_regular_file = λ files path. is_there (map_find path files);
  read_file = λ files path. map_find path files;
  write_file = λ files path text. map_set path text files;
  append_file = λ files path text. map_set path (content (map_find path files) ++ text) files;
  create_directory = λ files path. (files, false);
  remove = λ files path. ok (without path files, is_there (map_find path files));
  entries = λ files path. ok (paths_of files);
  absolute = λ files path. path;
  stem = λ path. after_at (rfind b'/' path) path;
}

pub there_lem :
    (directory path : Bytes) (o : Option Bytes)
    → (path =s= directory) ≡ false
    → (path =s= directory || is_there o) ≡ true
    → (text : Bytes) × (o ≡ some text)
there_lem directory path none h e = ground arith
there_lem directory path (some text) h e = (text, refl)

pub find_set :
    (path text : Bytes) (files : FileList) → map_find path (map_set path text files) ≡ some text
find_set path text files = ground (arith, map_find-set path path text files, =s=_refl path)

abbrev pub files_below-FileLaws : (directory : Bytes) → FileLaws (files_below directory)
files_below-FileLaws directory = record {
  IsWritable = λ files path. (path =s= directory) ≡ false;
  read-write = λ files path text h. find_set path text files;
  IsWritable-write = λ files path text h. h;
  IsWritable-append = λ files path text h. h;
  read-append =
      λ files path old text h e. find_set path (content (map_find path files) ++ text) files ∙ rw e;
  exists-write = λ files path text h. rw (h, find_set path text files);
  exists-append =
      λ files path text h. rw (h, find_set path (content (map_find path files) ++ text) files);
  is_directory-write = λ files path text h. h;
  read-exists = λ files path h e. there_lem directory path (map_find path files) h e;
}

listed-set : (path text : Bytes) (files : FileList) → Memᴰ path (paths_of (map_set path text files))
unfolding map_set
listed-set path text [] = head refl
listed-set path text ((p, old) ∷ files) = elim (Bool-cases (p =s= path)) [
  | inl same ↦ rw same (head refl)
  | inr other ↦ rw other (tail (listed-set path text files))
]

pub listed-write :
    (path text : Bytes) (files : FileList) (paths : List Bytes)
    → ok (paths_of (map_set path text files)) ≡ ok paths
    → Memᴰ path paths
listed-write path text files paths listed =
    let same : paths_of (map_set path text files) ≡ paths = cc in
    rw (← same) (listed-set path text files)

abbrev pub files_below-ListingLaws : (directory : Bytes) → ListingLaws (files_below directory)
files_below-ListingLaws directory = record {
  IsBelow = λ files root path. Unit {0};
  entries-write =
      λ files root path text paths below listed. listed-write path text files paths listed;
  is_regular_file-write = λ files root path text below. rw (find_set path text files);
  absolute_lem = λ files path. ([], refl);
  stem-digits = λ folder name digits ne.
      rw (rfind-last folder name (digits-NoSlash name digits), drop_front folder name b'/');
}

without-find : (path : Bytes) (files : FileList) → map_find path (without path files) ≡ none
unfolding map_find
without-find path [] = refl
without-find path ((p, text) ∷ files) = elim (Bool-cases (p =s= path)) [
  | inl same ↦ rw same (without-find path files)
  | inr differs ↦ rw (differs, differs) (without-find path files)
]

pub removed_lem :
    (directory path : Bytes) (files : FileList)
    → (path =s= directory) ≡ false
    → (path =s= directory || is_there (map_find path files)) ≡ true
    → (files' : FileList) × ◌≡◌ {A = Result (FileList × Bool)}
        (ok (without path files, is_there (map_find path files)))
        (ok (files', true))
      × ((path =s= directory || is_there (map_find path files')) ≡ false)
removed_lem directory path files other there =
    let (text, found) = there_lem directory path (map_find path files) other there in
    (without path files, rw found, rw (other, without-find path files))

abbrev pub files_below-RemovalLaws : (directory : Bytes) → RemovalLaws (files_below directory)
files_below-RemovalLaws directory = record {
  IsRemovable = λ files path. (path =s= directory) ≡ false;
  IsRemovable-write = λ files path text h. h;
  remove-exists = λ files path h there. removed_lem directory path files h there;
}
