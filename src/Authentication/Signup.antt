-- ===== src/Authentication/Signup.antt =====
-- From the signup to the login of src/request_authentication_handler.cc, and to the user that a
-- session of src/session.cc takes from the cookie.
use boost_web_server.FileSystem.{FileSystem}
