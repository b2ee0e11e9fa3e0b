-- ===== src/Api/Posting/Race.antt =====
-- Every order of the last steps of two POSTs to src/request_api_handler.cc: what numbers they give
-- out.
use boost_web_server.Common.{ℕ, suc, ◌≡◌, refl, List, [], Bytes, ℤ, map_set, ok}
use boost_web_server.Threads.{Thread, Interleaving, over, one_next, two_next}
use boost_web_server.FileSystem.{FileSystem, content}
use boost_web_server.Api.{next_id}
use boost_web_server.Api.Posting.{
  Phase, copied, stored, opened, answered, posting, Shared, System, written_over, number_path,
  advance, turn, step, run,
}

-- A thread that copied these numbers, and gets this one, has so many steps left.
pub data Left (numbers : List ℤ) (id : ℤ) : ℕ → Phase → Type 0 where
  three_left : Left numbers id 3 (copied numbers)
  two_left : Left numbers id 2 (stored id)
  one_left : Left numbers id 1 (opened id)
  none_left : Left numbers id 0 (answered id)

module _ (fs : FileSystem) (root directory body body' : Bytes) where
  open fs use {Disk, read_file, write_file}

  -- Both threads at a POST to the entity.
  abbrev pub two_posts : Phase → Phase → Shared Disk → System Disk
  two_posts p p' s = record {
    one = posting directory body p;
    two = posting directory body' p';
    shared = s;
  }

  -- A step of a thread that copied the list.
  record Advanced (text : Bytes) (phase : Phase) (s : Shared Disk) (numbers : List ℤ) (id : ℤ)
      (left : ℕ) : Type 0 where
    next_phase : Phase
    next_shared : Shared Disk
    runs :
        turn fs root (posting directory text phase) s
        ≡ ok (posting directory text next_phase, next_shared)
    left_lem : Left numbers id left next_phase

  advance-Left :
      (text : Bytes) (phase : Phase) (s : Shared Disk) (numbers after : List ℤ) (id : ℤ) (left : ℕ)
      → next_id numbers ≡ ok (after, id)
      → Left numbers id (suc left) phase
      → Advanced text phase s numbers id left
  unfolding advance
  advance-Left text phase s numbers after id left got three_left = record {
    next_phase = stored id;
    next_shared = record s { path_counts = map_set directory after s.path_counts };
    runs = rw got;
    left_lem = two_left;
  }
  advance-Left text phase s numbers after id left got two_left = record {
    next_phase = opened id;
    next_shared = record s { disk = write_file s.disk (number_path fs root directory id) [] };
    runs = refl;
    left_lem = one_left;
  }
  advance-Left text phase s numbers after id left got one_left =
      let path = number_path fs root directory id in
      let whole = written_over text (content (read_file s.disk path)) in
      record {
        next_phase = answered id;
        next_shared = record s { disk = write_file s.disk path whole };
        runs = refl;
        left_lem = none_left;
      }

  -- Behind the copies of both threads, every order of their steps gives each the number that its
  -- copy has for it.
  pub run-answered :
      (numbers numbers' after after' : List ℤ) (id id' : ℤ) (a b : ℕ) (ts : List Thread)
      (p p' : Phase) (s : Shared Disk)
      → next_id numbers ≡ ok (after, id)
      → next_id numbers' ≡ ok (after', id')
      → Interleaving a b ts
      → Left numbers id a p
      → Left numbers' id' b p'
      → (t : Shared Disk) × (run fs root ts (two_posts p p' s)
          ≡ ok (two_posts (answered id) (answered id') t))
  unfolding run step
  run-answered numbers numbers' after after' id id' a b ts p p' s got got' over none_left
        none_left =
      (s, refl)
  run-answered numbers numbers' after after' id id' (suc a) b ts p p' s got got' (one_next order)
        left left' =
      let next = advance-Left body p s numbers after id a got left in
      let (t, others) =
        run-answered numbers numbers' after after' id id' a b _ next.next_phase p' next.next_shared
          got got' order next.left_lem left' in
      (t, rw next.runs others)
  run-answered numbers numbers' after after' id id' a (suc b) ts p p' s got got' (two_next order)
        left left' =
      let next = advance-Left body' p' s numbers' after' id' b got' left' in
      let (t, others) =
        run-answered numbers numbers' after after' id id' a b _ p next.next_phase next.next_shared
          got got' order left next.left_lem in
      (t, rw next.runs others)
