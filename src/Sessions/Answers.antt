-- ===== src/Sessions/Answers.antt =====
-- The form of the responses in the sessions of src/server.cc and src/session.cc.
use boost_web_server.Common.{
  ℕ, zero, suc, ◌≡◌, ap, ◌∙◌, ◌≢◌, ◌⊎◌, inl, inr, Bool, true, false, Option, none, some, List, [],
  ◌∷◌, arith, if◌then◌else◌, Bytes, Map, ok, >>=-eq-ok,
}
use boost_web_server.Sessions.{
  SessionState, reading, answered, deleted, ServerState, session_at, set_session, start_accept,
  handle_accept, handle_write, written, on_read, accepts, reads, Reached, started, then_step,
}
use boost_web_server.FileSystem.{FileSystem}
use boost_web_server.Http.{HttpRequest, Response}
use boost_web_server.Http.Formed.{is_formed}
use boost_web_server.Authentication.{MailServer}
use boost_web_server.Server.{Factory}
use boost_web_server.Service.{World, handle_read}
use boost_web_server.Service.Answers.{handle_read-formed}

set_session-answered :
    (i j : ℕ) (x : SessionState) (res : Response) (xs : List SessionState)
    → session_at j (set_session i x xs) ≡ some (answered res)
    → (x ≡ answered res) ⊎ (session_at j xs ≡ some (answered res))
unfolding session_at set_session
set_session-answered i j x res [] e = inr e
set_session-answered zero zero x res (y ∷ xs) e = inl cc
set_session-answered zero (suc j) x res (y ∷ xs) e = inr e
set_session-answered (suc i) zero x res (y ∷ xs) e = inr e
set_session-answered (suc i) (suc j) x res (y ∷ xs) e = set_session-answered i j x res xs e

start_accept-answered :
    (j : ℕ) (res : Response) (xs : List SessionState)
    → session_at j (start_accept xs) ≡ some (answered res)
    → session_at j xs ≡ some (answered res)
unfolding session_at start_accept
start_accept-answered zero res [] e = cc
start_accept-answered (suc j) res [] e = e
start_accept-answered zero res (x ∷ xs) e = e
start_accept-answered (suc j) res (x ∷ xs) e = start_accept-answered j res xs e

accepted-ne : (error : Bool) (res : Response) → (if error then deleted else reading) ≢ answered res
accepted-ne true res e = cc
accepted-ne false res e = cc

written-answered :
    (delivered : Bool) (o : Option Response) (res : Response)
    → written delivered o ≡ ok (answered res)
    → o ≡ some res
unfolding written handle_write
written-answered delivered none res e = ground arith
written-answered true (some res') res e = ground arith
written-answered false (some res') res e = ground arith

module _ (fs : FileSystem) (hash_pass : Bytes → Bytes) (server : MailServer)
    (write_request : HttpRequest → Bytes) (params : Bytes → List (Bytes × Bytes))
    (routes : Map Factory) where
  open fs use {Disk}

  -- A session that a call of `handle_read` answers gets a formed response, or was answered before.
  on_read-formed :
      (i j : ℕ) (request : Option HttpRequest) (connected delivered : Bool) (s t : ServerState Disk)
      (res : Response)
      → on_read fs hash_pass server write_request params routes i request connected delivered s
        ≡ ok t
      → session_at j t.sessions ≡ some (answered res)
      → (is_formed res ≡ true) ⊎ (session_at j s.sessions ≡ some (answered res))
  unfolding on_read
  on_read-formed i j none connected delivered s t res e at =
      let same : t.sessions ≡ set_session i deleted s.sessions = ground arith in
      elim (set_session-answered i j deleted res s.sessions (rw same at at)) [
        | inl never ↦ cc
        | inr before ↦ inr before
      ]
  on_read-formed i j (some req) connected delivered s t res e at =
      let (o, run, e') =
        >>=-eq-ok
          (handle_read fs hash_pass server write_request params connected routes req s.world) _ e in
      let (x, wrote, last) = >>=-eq-ok (written delivered o.1) _ e' in
      let same : t.sessions ≡ set_session i x s.sessions = ground arith in
      elim (set_session-answered i j x res s.sessions (rw same at at)) [
        | inl now ↦
            let answer : o.1 ≡ some res = written-answered delivered o.1 res (wrote ∙ ap ok now) in
            inl (
              handle_read-formed fs hash_pass server write_request params connected routes req
                s.world o.0 res (run ∙ ap (λ a. ok (o.0, a)) answer))
        | inr before ↦ inr before
      ]

  -- In every state that the server reaches, every response that a session was answered with has a
  -- status that the server knows, and a content length, where it has one, that is the length of its
  -- body.
  pub Reached-is_formed :
      (w : World Disk) (s : ServerState Disk) (j : ℕ) (res : Response)
      → Reached fs hash_pass server write_request params routes w s
      → session_at j s.sessions ≡ some (answered res)
      → is_formed res ≡ true
  unfolding start_accept session_at handle_accept
  Reached-is_formed w s j res started at =
      let before : none ≡ some (answered res) = start_accept-answered j res [] at in ground arith
  Reached-is_formed w t j res (then_step s t' reached (accepts i error here)) at =
      let x = if error then deleted else reading in
      elim (set_session-answered i j x res s.sessions
        (start_accept-answered j res (set_session i x s.sessions) at)) [
          | inl never ↦ absurd (accepted-ne error res never)
          | inr before ↦ Reached-is_formed w s j res reached before
        ]
  Reached-is_formed w t j res
        (then_step s t' reached (reads i request connected delivered t'' here e)) at =
      elim (on_read-formed i j request connected delivered s t res e at) [
        | inl formed ↦ formed
        | inr before ↦ Reached-is_formed w s j res reached before
      ]
