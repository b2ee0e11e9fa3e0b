-- ===== src/FileSystem/Laws.antt =====
-- What the handlers of src/ rely on from the file system for a file that can be written.
use mathlib.Core.List.{Memᴰ}
use boost_web_server.Common.{◌≡◌, ◌≢◌, true, false, some, List, [], ◌∷◌, Bytes, ◌++◌, IsDigits, ok}
use boost_web_server.FileSystem.{FileSystem}

-- `IsWritable disk path` says that streams can read and write a file at `path`.
pub record FileLaws (fs : FileSystem) : Type 1 where
  pub IsWritable : FileSystem.Disk fs → Bytes → Type 0
  pub read-write :
      (disk : FileSystem.Disk fs) (path text : Bytes)
      → IsWritable disk path
      → FileSystem.read_file fs (FileSystem.write_file fs disk path text) path ≡ some text
  pub IsWritable-write :
      (disk : FileSystem.Disk fs) (path text : Bytes)
      → IsWritable disk path
      → IsWritable (FileSystem.write_file fs disk path text) path
  pub read-append :
      (disk : FileSystem.Disk fs) (path old text : Bytes)
      → IsWritable disk path
      → FileSystem.read_file fs disk path ≡ some old
      → FileSystem.read_file fs (FileSystem.append_file fs disk path text) path ≡ some (old ++ text)
  pub IsWritable-append :
      (disk : FileSystem.Disk fs) (path text : Bytes)
      → IsWritable disk path
      → IsWritable (FileSystem.append_file fs disk path text) path
  pub exists-write :
      (disk : FileSystem.Disk fs) (path text : Bytes)
      → IsWritable disk path
      → FileSystem.exists fs (FileSystem.write_file fs disk path text) path ≡ true
  pub exists-append :
      (disk : FileSystem.Disk fs) (path text : Bytes)
      → IsWritable disk path
      → FileSystem.exists fs (FileSystem.append_file fs disk path text) path ≡ true
  pub is_directory-write :
      (disk : FileSystem.Disk fs) (path text : Bytes)
      → IsWritable disk path
      → FileSystem.is_directory fs (FileSystem.write_file fs disk path text) path ≡ false
  pub read-exists :
      (disk : FileSystem.Disk fs) (path : Bytes)
      → IsWritable disk path
      → FileSystem.exists fs disk path ≡ true
      → (text : Bytes) × (FileSystem.read_file fs disk path ≡ some text)

-- What the scan of src/request_api_handler.cc relies on for a file that was written.
-- `IsBelow disk root path` says that a file written at `path` is a regular one, in a folder that
-- the iterator over `root` enters, and that `path` is what the iterator gives for it.
pub record ListingLaws (fs : FileSystem) : Type 1 where
  pub IsBelow : FileSystem.Disk fs → Bytes → Bytes → Type 0
  pub entries-write :
      (disk : FileSystem.Disk fs) (root path text : Bytes) (files : List Bytes)
      → IsBelow disk root path
      → FileSystem.entries fs (FileSystem.write_file fs disk path text) root ≡ ok files
      → Memᴰ path files
  pub is_regular_file-write :
      (disk : FileSystem.Disk fs) (root path text : Bytes)
      → IsBelow disk root path
      → FileSystem.is_regular_file fs (FileSystem.write_file fs disk path text) path ≡ true
  -- An absolute path ends with the path.
  pub absolute_lem :
      (disk : FileSystem.Disk fs) (path : Bytes)
      → (front : Bytes) × (FileSystem.absolute fs disk path ≡ front ++ path)
  -- A name without a dot has no extension.
  pub stem-digits :
      (folder name : Bytes)
      → IsDigits name
      → name ≢ []
      → FileSystem.stem fs (folder ++ (b'/' ∷ name)) ≡ name

-- What the removal of a file relies on. `IsRemovable disk path` says that a file at `path` can be
-- removed, for which its folder must be writable.
pub record RemovalLaws (fs : FileSystem) : Type 1 where
  pub IsRemovable : FileSystem.Disk fs → Bytes → Type 0
  pub IsRemovable-write :
      (disk : FileSystem.Disk fs) (path text : Bytes)
      → IsRemovable disk path
      → IsRemovable (FileSystem.write_file fs disk path text) path
  pub remove-exists :
      (disk : FileSystem.Disk fs) (path : Bytes)
      → IsRemovable disk path
      → FileSystem.exists fs disk path ≡ true
      → (disk' : FileSystem.Disk fs) × (FileSystem.remove fs disk path ≡ ok (disk', true))
        × (FileSystem.exists fs disk' path ≡ false)
