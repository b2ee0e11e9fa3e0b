-- ===== src/Api/Scan.antt =====
-- The constructor of src/request_api_handler.cc: the numbers of the files on the disk.
use boost_web_server.Common.{
  ℕ, List, [], ◌∷◌, if◌then◌else◌, Bytes, rfind, before_at, after_at, ℤ, isdigit, stoi, Map,
  map_set, map_index, bad_index, Result, ok, err, ◌>>=◌,
}
use boost_web_server.FileSystem.{FileSystem}
use boost_web_server.Api.{add_id}

-- The last byte of a path, undefined on the empty one.
unfoldable pub last_byte : Bytes → Result ℕ
last_byte [] = err bad_index
last_byte (c ∷ []) = ok c
last_byte (c ∷ d ∷ s) = last_byte (d ∷ s)

module _ (fs : FileSystem) where
  open fs use {Disk, is_regular_file, entries, absolute, stem}

  -- The body of the constructor's loop, on an absolute path of a regular file.
  unfoldable pub add_file : Bytes → Map (List ℤ) → Result (Map (List ℤ))
  add_file file_path counts = do
    c ← last_byte file_path
    if isdigit c
        then (stoi (stem file_path) >>= λ id.
            let directory = before_at (rfind b'/' file_path) file_path in
            let entity = after_at (rfind b'/' directory) directory in
            add_id id (map_index [] entity counts).0 >>= λ ids. ok (map_set entity ids counts))
        else ok counts

  unfoldable pub add_files : Disk → List Bytes → Map (List ℤ) → Result (Map (List ℤ))
  unfolding add_file
  add_files disk [] counts = ok counts
  add_files disk (file ∷ files) counts = do
    next ← (if is_regular_file disk file then add_file (absolute disk file) counts else ok counts)
    add_files disk files next

  -- The constructor: the numbers of the files on the disk join `path_counts`.
  unfoldable pub new_api_handler : Disk → Bytes → Map (List ℤ) → Result (Map (List ℤ))
  unfolding add_files
  new_api_handler disk root counts = do files ← entries disk root; add_files disk files counts
