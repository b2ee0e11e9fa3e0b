-- ===== src/Sessions/Accepting.antt =====
-- What holds of the sessions of src/server.cc and src/session.cc whatever connects.
use boost_web_server.Common.{
  ℕ, zero, suc, ◌+◌, ◌≡◌, refl, ◌∙◌, ◌≢◌, Bool, true, false, Option, none, some, List, [], ◌∷◌,
  arith, if◌then◌else◌, Bytes, Map, ok, >>=-eq-ok,
}
use boost_web_server.FileSystem.{FileSystem}
use boost_web_server.Http.{HttpRequest, Response}
use boost_web_server.Authentication.{MailServer}
use boost_web_server.Server.{Factory}
use boost_web_server.Service.{World, handle_read}
use boost_web_server.Sessions.{
  SessionState, accepting, reading, answered, abandoned, deleted, ServerState, session_at,
  set_session, start_accept, handle_accept, handle_write, written, on_read, Step, accepts, reads,
  Reached, started, then_step,
}

-- How many sessions the acceptor waits on.
abbrev is_accepting : SessionState → ℕ
is_accepting accepting = 1
is_accepting _ = 0

abbrev pub accepting_count : List SessionState → ℕ
accepting_count [] = 0
accepting_count (x ∷ xs) = is_accepting x + accepting_count xs

accepting_count-start_accept :
    (xs : List SessionState) → accepting_count (start_accept xs) ≡ accepting_count xs + 1
unfolding start_accept
accepting_count-start_accept [] = refl
accepting_count-start_accept (x ∷ xs) = omega (arith, accepting_count-start_accept xs)

accepting_count-set_session :
    (i : ℕ) (x y : SessionState) (xs : List SessionState)
    → session_at i xs ≡ some x
    → accepting_count (set_session i y xs) + is_accepting x ≡ accepting_count xs + is_accepting y
unfolding session_at set_session
accepting_count-set_session i x y [] e = cc
accepting_count-set_session zero x y (z ∷ xs) e = let same : z ≡ x = cc in rw same (omega arith)
accepting_count-set_session (suc i) x y (z ∷ xs) e =
    omega (arith, accepting_count-set_session i x y xs e)

not_accepting : (error : Bool) → is_accepting (if error then deleted else reading) ≡ 0
not_accepting true = refl
not_accepting false = refl

written_not_accepting :
    (delivered : Bool) (o : Option Response) (x : SessionState)
    → written delivered o ≡ ok x
    → is_accepting x ≡ 0
unfolding written handle_write
written_not_accepting delivered none x e = let same : abandoned ≡ x = ground arith in rw (← same)
written_not_accepting true (some res) x e =
    let same : answered res ≡ x = ground arith in rw (← same)
written_not_accepting false (some res) x e = ground arith

session_at-set_session :
    (i j : ℕ) (x y z : SessionState) (xs : List SessionState)
    → session_at i xs ≡ some x
    → session_at j xs ≡ some z
    → x ≢ z
    → session_at j (set_session i y xs) ≡ some z
unfolding session_at set_session
session_at-set_session i j x y z [] e k d = cc
session_at-set_session zero zero x y z (v ∷ xs) e k d = absurd (d cc)
session_at-set_session zero (suc j) x y z (v ∷ xs) e k d = k
session_at-set_session (suc i) zero x y z (v ∷ xs) e k d = k
session_at-set_session (suc i) (suc j) x y z (v ∷ xs) e k d =
    session_at-set_session i j x y z xs e k d

session_at-start_accept :
    (j : ℕ) (z : SessionState) (xs : List SessionState)
    → session_at j xs ≡ some z
    → session_at j (start_accept xs) ≡ some z
unfolding session_at start_accept
session_at-start_accept j z [] k = cc
session_at-start_accept zero z (x ∷ xs) k = k
session_at-start_accept (suc j) z (x ∷ xs) k = session_at-start_accept j z xs k

module _ (fs : FileSystem) (hash_pass : Bytes → Bytes) (server : MailServer)
    (write_request : HttpRequest → Bytes) (params : Bytes → List (Bytes × Bytes))
    (routes : Map Factory) where
  open fs use {Disk}

  -- What a session becomes that was read.
  on_read-sessions :
      (i : ℕ) (request : Option HttpRequest) (connected delivered : Bool) (s t : ServerState Disk)
      → on_read fs hash_pass server write_request params routes i request connected delivered s
        ≡ ok t
      → (x : SessionState) × (t.sessions ≡ set_session i x s.sessions) × (is_accepting x ≡ 0)
  unfolding on_read
  on_read-sessions i none connected delivered s t e = (deleted, ground arith, refl)
  on_read-sessions i (some req) connected delivered s t e =
      let (o, run, e') =
        >>=-eq-ok
          (handle_read fs hash_pass server write_request params connected routes req s.world) _ e in
      let (x, wrote, last) = >>=-eq-ok (written delivered o.1) _ e' in
      (x, ground arith, written_not_accepting delivered o.1 x wrote)

  -- A step keeps the number of sessions that the acceptor waits on.
  Step-accepting_count :
      (s t : ServerState Disk)
      → Step fs hash_pass server write_request params routes s t
      → accepting_count t.sessions ≡ accepting_count s.sessions
  unfolding handle_accept
  Step-accepting_count s t (accepts i error at) =
      let x = if error then deleted else reading in
      omega (
        arith,
        accepting_count-start_accept (set_session i x s.sessions),
        accepting_count-set_session i accepting x s.sessions at,
        not_accepting error,
      )
  Step-accepting_count s t (reads i request connected delivered t' at e) =
      let (x, same, none_of) = on_read-sessions i request connected delivered s t e in
      rw same (omega (arith, accepting_count-set_session i reading x s.sessions at, none_of))

  -- Whatever connects and whatever is asked for, in every state that the server reaches exactly one
  -- session waits for the next connection.
  pub Reached-accepting_count :
      (w : World Disk) (s : ServerState Disk)
      → Reached fs hash_pass server write_request params routes w s
      → accepting_count s.sessions ≡ 1
  unfolding start_accept
  Reached-accepting_count w s started = refl
  Reached-accepting_count w t (then_step s t' before step) =
      Step-accepting_count s t step ∙ Reached-accepting_count w s before

  -- A session that was answered is never deleted: it stays as it is in every step.
  pub Step-answered :
      (s t : ServerState Disk) (j : ℕ) (res : Response)
      → Step fs hash_pass server write_request params routes s t
      → session_at j s.sessions ≡ some (answered res)
      → session_at j t.sessions ≡ some (answered res)
  unfolding handle_accept
  Step-answered s t j res (accepts i error at) k =
      let x = if error then deleted else reading in
      session_at-start_accept j (answered res) (set_session i x s.sessions)
        (session_at-set_session i j accepting x (answered res) s.sessions at k (λ e. cc))
  Step-answered s t j res (reads i request connected delivered t' at e) k =
      let (x, same, _) = on_read-sessions i request connected delivered s t e in
      rw same (session_at-set_session i j reading x (answered res) s.sessions at k (λ e. cc))
