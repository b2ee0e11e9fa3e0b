-- ===== src/Api/Posting.antt =====
-- Two POSTs to src/request_api_handler.cc on two threads of the server, which share the factory's
-- `path_counts` without a lock, and the disk. A step of a thread is one access to what the threads
-- share, with what the thread does by itself behind it: the constructor copies the list of a file's
-- entity, and later puts its own copy back, and `getNextID` does so again. The file is opened, which
-- empties it, and then written from its beginning as a whole. Each access to the map is taken as a
-- whole too, although C++ leaves two of them at once undefined. What the iterator over the directory
-- gives a thread is its own list, since files come up while it goes on.
pub mod Race
pub mod Numbers
mod Tests
use boost_web_server.Common.{
  Option, none, some, List, [], ◌∷◌, ◌++◌, if◌then◌else◌, length, drop, Bytes, rfind, before_at,
  after_at, ℤ, isdigit, stoi, to_decimal, Map, map_set, map_index, Result, ok, ◌>>=◌,
}
use boost_web_server.Threads.{Thread, thread_one, thread_two}
use boost_web_server.FileSystem.{FileSystem, content}
use boost_web_server.Api.{next_id, add_id}
use boost_web_server.Api.Scan.{last_byte}
use boost_web_server.Api.Handler.{slash_join}

-- Where a POST stands: its constructor, with the files that the iterator has still to give, before
-- the next file, or with the copy of the list of that file's entity; `handle_post`, before the
-- creation of a missing directory, before `getNextID`, with its copy of the list, with the number,
-- with the file open, and with the answer.
pub data Phase : Type 0 where
  scanning : List Bytes → Phase
  adding : List Bytes → Bytes → ℤ → List ℤ → Phase
  missing : Phase
  refused : Phase
  asked : Phase
  copied : List ℤ → Phase
  stored : ℤ → Phase
  opened : ℤ → Phase
  answered : ℤ → Phase

pub record Posting : Type 0 where
  pub directory : Bytes
  pub body : Bytes
  pub phase : Phase

abbrev pub posting : Bytes → Bytes → Phase → Posting
posting directory body phase = record { directory = directory; body = body; phase = phase }

-- What the threads share.
pub record Shared (Disk : Type 0) : Type 0 where
  pub disk : Disk
  pub path_counts : Map (List ℤ)

pub record System (Disk : Type 0) : Type 0 where
  pub one : Posting
  pub two : Posting
  pub shared : Shared Disk

-- A text written over another one from its beginning.
abbrev pub written_over : Bytes → Bytes → Bytes
written_over body old = body ++ drop (length body) old

module _ (fs : FileSystem) (root : Bytes) where
  open fs use {
    Disk, exists, is_regular_file, read_file, write_file, create_directory, absolute, stem,
  }

  abbrev pub number_path : Bytes → ℤ → Bytes
  number_path directory id = slash_join (slash_join root directory) (to_decimal id)

  -- The entity and the number of a regular file, if its path ends in a digit.
  unfoldable pub entry_of : Bytes → Result (Option (Bytes × ℤ))
  entry_of file_path = do
    c ← last_byte file_path
    if isdigit c
        then (stoi (stem file_path) >>= λ id.
            let directory = before_at (rfind b'/' file_path) file_path in
            ok (some (after_at (rfind b'/' directory) directory, id)))
        else ok none

  -- The constructor copies the list of the file's entity.
  unfoldable pub copy_numbers :
      List Bytes → Option (Bytes × ℤ) → Posting → Shared Disk → Posting × Shared Disk
  copy_numbers files none p s = (record p { phase = scanning files }, s)
  copy_numbers files (some (entity, id)) p s =
      let found = map_index [] entity s.path_counts in
      (record p { phase = adding files entity id found.0 }, record s { path_counts = found.1 })

  unfoldable pub advance : Phase → Posting → Shared Disk → Result (Posting × Shared Disk)
  unfolding entry_of copy_numbers
  advance (scanning (file ∷ files)) p s =
      if is_regular_file s.disk file
      then (entry_of (absolute s.disk file) >>= λ entry. ok (copy_numbers files entry p s))
      else ok (record p { phase = scanning files }, s)
  advance (adding files entity id numbers) p s = do
    ids ← add_id id numbers
    ok (
      record p { phase = scanning files },
      record s { path_counts = map_set entity ids s.path_counts },
    )
  advance (scanning []) p s =
      let there = exists s.disk (slash_join root p.directory) in
      ok (record p { phase = if there then asked else missing }, s)
  advance missing p s =
      let made = create_directory s.disk (slash_join root p.directory) in
      ok (record p { phase = if made.1 then asked else refused }, record s { disk = made.0 })
  advance refused p s = ok (p, s)
  advance asked p s =
      let found = map_index [] p.directory s.path_counts in
      ok (record p { phase = copied found.0 }, record s { path_counts = found.1 })
  advance (copied numbers) p s = do
    r ← next_id numbers
    ok (
      record p { phase = stored r.1 },
      record s { path_counts = map_set p.directory r.0 s.path_counts },
    )
  advance (stored id) p s = ok (
    record p { phase = opened id },
    record s { disk = write_file s.disk (number_path p.directory id) [] },
  )
  advance (opened id) p s =
      let path = number_path p.directory id in
      let text = written_over p.body (content (read_file s.disk path)) in
      ok (record p { phase = answered id }, record s { disk = write_file s.disk path text })
  advance (answered id) p s = ok (p, s)

  abbrev pub turn : Posting → Shared Disk → Result (Posting × Shared Disk)
  turn p s = advance p.phase p s

  -- A step of one of the threads.
  unfoldable pub step : Thread → System Disk → Result (System Disk)
  unfolding advance
  step thread_one sys = turn sys.one sys.shared >>= λ r. ok (record sys { one = r.0; shared = r.1 })
  step thread_two sys = turn sys.two sys.shared >>= λ r. ok (record sys { two = r.0; shared = r.1 })

  unfoldable pub run : List Thread → System Disk → Result (System Disk)
  unfolding step
  run [] sys = ok sys
  run (t ∷ ts) sys = step t sys >>= run ts
