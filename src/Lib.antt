-- ===== src/Lib.antt =====
-- Verification library of the web server: an HTTP server that reads a configuration file, builds a
-- table of routes from it, and lets a handler answer each request.
--
-- The parts, and the files that model them (paths from the repository's root):
--   * include/request_parser.h, src/request_parser.cc: an incremental parser of request heads with
--     one state for each position in a head. RequestParser.antt has one function for each state;
--     its children hold the printer (Head), the round trip (RoundTrip and the *Pieces), soundness
--     (Clean, Sound) and the undefined cases (Safety).
--   * src/config_parser.cc: the configuration file. Config/Tokens is `ParseToken`, Config/Tree the
--     tree with `ToString`, Config/Parser the loop of `Parse` with its stack of open blocks (its
--     children Fuel, RoundTrip and Faults say how it ends), Config/Port `get_listen_port`,
--     Config/Paths `get_paths`, `get_root` and `get_auth_path_map`.
--   * src/server.cc: Server.antt is `init_server`, which turns the paths of the configuration into
--     a table of factories.
--   * src/session.cc: Session.antt is `match`, which picks the route of a request in the table of
--     `init_server`. Service.antt is one request through the server: `handle_read` and
--     `write_to_socket`, with the handler that `create` of src/handler_factories makes; its children
--     say who may change the disk (Access), which requests are answered (Liveness) and that what was
--     posted can be read (ReadBack), also by a server that was started anew (Restart), and what form
--     every answer has (Answers, as in the handlers' modules and in Sessions). Sessions.antt has
--     the life of the sessions, from `start_accept` and `handle_accept` of src/server.cc to
--     `handle_write`, as a step relation: a step is the call of a handler by Boost.Asio.
--   * src/server_main.cc: Startup.antt is `main` up to the server that waits, which joins the
--     configuration file, its port and paths, the table and the first session. LogFiles.antt is
--     `check_log_files`, and LogFiles/Timer the calls of the timer that it sets again.
--   * src/request_authentication_handler.cc: Authentication.antt has one function for each branch of
--     `handle_request`; Authentication/Signup joins it with src/profile_manager.cc and `update_user`.
--   * src/request_api_handler.cc: Api.antt has the list of the numbers in use for an entity and
--     `getNextID`, Api/Scan the constructor, which reads the numbers of the files on the disk (what
--     it finds there is in Api/Rescan, Api/Found and Api/Written), and Api/Handler the handlers
--     with `handle_request`. A handler reads and changes the disk, the factory's `path_counts` and
--     the response; these three are its state, passed explicitly.
--     Api/Posting has two POSTs on two threads, from the constructor to the file, with a list of
--     threads for the order of their steps.
--   * src/profile_manager.cc: Profile.antt has the users in their text file, `signup`, `login` and the
--     cookie that stands for a user, with `update_user` of src/session.cc, which reads it.
--     Profile/Store has the methods on a disk, Profile/Table the table of users that they keep, and
--     Profile/Signups two calls of `signup` on two threads (Threads.antt).
--   * src/request_static_handler.cc, the other small handlers beside it and src/api_console_handler.cc:
--     Handlers.antt has one function for each `handle_request`.
--   * src/reply.cc, src/mime_types.cc, include/user_profile.h: Http and its children, with the parts
--     of Boost.Beast's requests and responses that the handlers read and write.
--
-- Faults. A C++ exception, and what is undefined in C++ (an overflow of int, `back()` of an empty
-- vector, an index out of range, `top()` of an empty stack, a null pointer), is an error value of
-- Common/Results, so that a theorem that a function gives `ok` says that none of these occurs.
-- Numbers are natural numbers and integers with the limits of a 32-bit int written out. Text is a
-- list of byte values.
--
-- Fuel. `Parse` has one round for each byte and one more, and `match` one round for each byte and one
-- more; theorems show that this is enough. The decimal digits of a number n have the fuel n + 1.
-- Every other loop is structural.
--
-- The file system is a parameter (FileSystem.antt), since it is Boost.Filesystem and the streams of
-- the standard library: a record of the operations that the handlers call. FileSystem/Laws has
-- records of what a theorem relies on it for: that a file that was written can be read, that the
-- iterator over a directory finds it, and that it can be removed. FileSystem/Memory fills all of
-- them with a list of files.
--
-- Not modelled: sockets and threads beyond the order of the calls in Sessions and of the steps in
-- Api/Posting and Profile/Signups, signals, timers and logging, which are calls of Boost.Asio,
-- Boost.Log and the standard library. Two requests that run at the same time on two threads are one
-- after the other here, but in these two. The digest of OpenSSL, the parameter list that Boost.Beast
-- finds in a cookie, the text of a request, the mail server of Poco, `std::sort`, the number of
-- threads and whether a port can be opened are arguments. The log lines and `TokenTypeAsString` are
-- output only. A `std::map` is an association list, since nothing modelled depends on the order of
-- its keys.
pub mod Common
pub mod Api
pub mod Authentication
pub mod Config
pub mod FileSystem
pub mod Handlers
pub mod Http
pub mod LogFiles
pub mod Profile
pub mod RequestParser
pub mod Server
pub mod Service
pub mod Sessions
pub mod Startup
pub mod Threads
pub mod Session
