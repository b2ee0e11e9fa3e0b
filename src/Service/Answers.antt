-- ===== src/Service/Answers.antt =====
-- The form of every answer that a request to src/session.cc gets.
use mathlib.Core.Path.{subst}
use boost_web_server.Common.{
  ◌≡◌, refl, inl, inr, Bool, true, false, some, List, arith, Option-cases, Bytes, codes, Map,
  map_find, ok, ◌>>=◌, >>=-eq-ok,
}
use boost_web_server.Service.{
  World, RequestHandler, static_files, echo_at, api_below, health_at, sleeper, authentication,
  console_below, not_found, create, new_user, counts_at, construct, answer_api,
  answer_authentication, answer_request, write_to_socket, answer_route, handle_read,
}
use boost_web_server.Server.{Factory}
use boost_web_server.Session.{match}
use boost_web_server.Profile.{update_user}
use boost_web_server.FileSystem.{FileSystem}
use boost_web_server.Http.{HttpRequest, Response, new_response, UserProfile, text_html, text_plain}
use boost_web_server.Http.Formed.{is_status, is_formed, is_formed-respond, ok_known, missing_known}
use boost_web_server.Handlers.{
  stock_page, handle_not_found, handle_sleep, handle_health, handle_echo, handle_static,
}
use boost_web_server.Handlers.Answers.{
  handle_at-formed, handle_static-formed, handle_console-formed,
}
use boost_web_server.Api.Handler.{ApiState, ApiHandler, handle_request}
use boost_web_server.Authentication.{
  AuthenticationHandler, page_of, MailServer, AuthenticationState, handle_authentication,
}
use boost_web_server.Authentication.Answers.{answer_page-formed}
use boost_web_server.Http.Reply.{stock_reply}
use boost_web_server.Api.Handler.Answers.{Forms, request-Forms}

module _ (fs : FileSystem) (hash_pass : Bytes → Bytes) (server : MailServer)
    (write_request : HttpRequest → Bytes) (params : Bytes → List (Bytes × Bytes)) where
  open fs use {Disk}

  new-formed : is_formed new_response ≡ true
  unfolding is_formed is_status
  new-formed = refl

  module _ (location : Bytes) (user : UserProfile) (req : HttpRequest) (w w' : World Disk)
      (res : Response) where
    api-formed :
        (root : Bytes)
        → answer_api fs hash_pass server write_request params location root user req w
          ≡ ok (w', res)
        → is_formed res ≡ true
    unfolding answer_api
    api-formed root e =
        let h : ApiHandler = record { root_ = root; profile_ = user } in
        let s : ApiState Disk = record {
          disk = w.disk;
          path_counts = counts_at location w.counts;
          res = new_response;
        } in
        let (t, ran, last) = >>=-eq-ok (handle_request fs h req s) _ e in
        let same : t.res ≡ res = ground arith in
        let formed : is_formed t.res ≡ true = subst (Forms fs h s) ran (request-Forms fs h s req) in
        rw (← same) formed

    authentication-formed :
        (h : AuthenticationHandler)
        → answer_authentication fs hash_pass server write_request params h req w ≡ ok (w', res)
        → is_formed res ≡ true
    unfolding answer_authentication handle_authentication
    authentication-formed h e =
        let s : AuthenticationState Disk = record {
          disk = w.disk;
          sent = w.sent;
          res = new_response;
        } in
        let (t, ran, last) = >>=-eq-ok (handle_authentication fs hash_pass server h req s) _ e in
        let same : t.res ≡ res = ground arith in
        rw (← same) (
          answer_page-formed fs hash_pass server h s t new-formed (page_of h req.target) req.body
            ran)

    answer-formed :
        (handler : RequestHandler)
        → answer_request fs hash_pass server write_request params handler location user req w
          ≡ ok (w', res)
        → is_formed res ≡ true
    unfolding answer_request
    answer-formed (static_files location_ root) e =
        let (res', ran, last) =
          >>=-eq-ok (handle_static fs location_ root w.disk req new_response) _ e in
        let same : res' ≡ res = ground arith in
        rw (← same) (handle_static-formed fs location_ root w.disk req new_response res' ran)
    answer-formed (echo_at location_) e =
        unfold handle_echo in
        ground (arith, handle_at-formed location_ (write_request req) req new_response)
    answer-formed (api_below root) e = api-formed root e
    answer-formed (health_at location_) e =
        unfold handle_health in
        ground (arith, handle_at-formed location_ (codes "OK") req new_response)
    answer-formed sleeper e =
        unfold handle_sleep in
        ground (
          arith,
          is_formed-respond 200 (codes "This request slept: 200000 microseconds") text_plain
              new_response ok_known,
        )
    answer-formed (authentication h) e = authentication-formed h e
    answer-formed (console_below root) e =
        ground (arith, handle_console-formed fs root user w.disk new_response)
    answer-formed not_found e =
        unfold handle_not_found stock_page in
        ground (arith, is_formed-respond 404 (stock_reply 404) text_html new_response missing_known)

  written-formed :
      (connected : Bool) (handler : RequestHandler) (location : Bytes) (user : UserProfile)
      (req : HttpRequest) (w w' : World Disk) (res : Response)
      → write_to_socket fs hash_pass server write_request params connected handler location user req
          w
        ≡ ok (w', some res)
      → is_formed res ≡ true
  unfolding write_to_socket
  written-formed true handler location user req w w' res e =
      let (a, ran, last) =
        >>=-eq-ok
          (answer_request fs hash_pass server write_request params handler location user req w) _
          e in
      let same : a.1 ≡ res = ground arith in
      rw (← same) (answer-formed location user req w a.0 a.1 handler ran)
  written-formed false handler location user req w w' res e = ground arith

  -- Every response that a request gets has a status that the server knows, and a content length,
  -- where it has one, that is the length of its body.
  pub handle_read-formed :
      (connected : Bool) (routes : Map Factory) (req : HttpRequest) (w w' : World Disk)
      (res : Response)
      → handle_read fs hash_pass server write_request params connected routes req w
        ≡ ok (w', some res)
      → is_formed res ≡ true
  unfolding handle_read answer_route
  handle_read-formed connected routes req w w' res e =
      let (u, who, routed) = >>=-eq-ok (update_user (params req.cookie) new_user) _ e in
      elim (Option-cases (match routes req.target)) [
        | inl nowhere ↦ ground arith
        | inr (location, at) ↦ elim (Option-cases (map_find location routes)) [
          | inl missing ↦ ground arith
          | inr (f, known) ↦
              let run : (construct fs hash_pass server write_request params (create f location)
                      location w
                    >>= write_to_socket fs hash_pass server write_request params connected
                        (create f location) location u.1 req)
                  ≡ ok (w', some res) =
                rw (who, at, known, handle_read, answer_route) at e in
              let (made, _, wrote) =
                >>=-eq-ok
                  (construct fs hash_pass server write_request params (create f location) location
                    w)
                  _ run in
              written-formed connected (create f location) location u.1 req made w' res wrote
        ]
      ]
