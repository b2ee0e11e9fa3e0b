-- ===== src/Threads.antt =====
-- Two of the threads that `main` of src/server_main.cc starts, and the orders of their steps.
use boost_web_server.Common.{ℕ, suc, List, [], ◌∷◌}

pub data Thread : Type 0 where
  thread_one : Thread
  thread_two : Thread

-- The orders of so many steps of each thread.
pub data Interleaving : ℕ → ℕ → List Thread → Type 0 where
  over : Interleaving 0 0 []
  one_next :
      {a b : ℕ} {ts : List Thread} → Interleaving a b ts → Interleaving (suc a) b (thread_one ∷ ts)
  two_next :
      {a b : ℕ} {ts : List Thread} → Interleaving a b ts → Interleaving a (suc b) (thread_two ∷ ts)
