-- ===== src/Service/Liveness.antt =====
-- Which requests `handle_read` of src/session.cc answers.
use boost_web_server.Common.{◌≡◌, List, Bytes, Result, ok}
use boost_web_server.FileSystem.{FileSystem}
use boost_web_server.Http.{HttpRequest, UserProfile}
use boost_web_server.Authentication.{MailServer}
use boost_web_server.Config.Paths.{trim_slashes}
use boost_web_server.Server.{static_handler_factory, Factory}
use boost_web_server.Service.{World, Answer}

-- A route of the static handler has no trailing slashes, or slashes alone.
abbrev IsCut : Bytes → Factory → Type 0
IsCut k f = f.kind ≡ static_handler_factory → trim_slashes k ≡ k

module _ (fs : FileSystem) (hash_pass : Bytes → Bytes) (server : MailServer)
    (write_request : HttpRequest → Bytes) (params : Bytes → List (Bytes × Bytes)) where
  open fs use {Disk}

  module _ (req : HttpRequest) (w : World (FileSystem.Disk fs)) (user : UserProfile) where
    abbrev IsAnswered : Result (Answer (FileSystem.Disk fs)) → Type 0
    IsAnswered m = (answer : Answer (FileSystem.Disk fs)) × (m ≡ ok answer)
