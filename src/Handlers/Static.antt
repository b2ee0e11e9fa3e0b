-- ===== src/Handlers/Static.antt =====
-- The files that src/request_static_handler.cc serves.
use boost_web_server.Common.{
  ℕ, ◌≡◌, refl, ap, ◌∙◌, ◌≢◌, true, false, some, [], ◌∷◌, ◌++◌, append_assoc, arith, ltb, length,
  drop, length-append, Bytes, ok,
}
use boost_web_server.FileSystem.{FileSystem}
use boost_web_server.Http.{HttpRequest, Response, respond}
use boost_web_server.Http.Mime.{extension_to_type}
use boost_web_server.Config.Paths.{trim_slashes}
use boost_web_server.Config.Paths.Laws.{slashes, trim_slashes_lem}
use boost_web_server.Handlers.{trim_target, extension_of, regular_file, handle_static}

pub trim_target-eq-trim_slashes : (s : Bytes) → trim_target s ≡ trim_slashes s
unfolding trim_target trim_slashes
trim_target-eq-trim_slashes s = refl

drop_front : (a b : Bytes) → drop (length a) (a ++ b) ≡ b
drop_front [] b = refl
drop_front (x ∷ a) b = drop_front a b

not_shorter : (a b : Bytes) → ltb (length (a ++ b)) (length a) ≡ false
not_shorter a b = ground (arith, length-append a b)

module _ (fs : FileSystem) (location_ root_ : Bytes) (disk : FileSystem.Disk fs) (req : HttpRequest)
    (res : Response) where
  open fs use {exists, is_regular_file, read_file}

  -- A request below the location of the static handler, with any number of slashes behind it, for
  -- a regular file that can be opened is answered by 200 with the content of the file and the type
  -- of its extension.
  pub handle_static-file :
      (name : Bytes) (c n : ℕ) (text : Bytes)
      → c ≢ b'/'
      → req.target ≡ location_ ++ (name ++ (c ∷ slashes n))
      → exists disk (root_ ++ (b'/' ∷ (name ++ c ∷ []))) ≡ true
      → is_regular_file disk (root_ ++ (b'/' ∷ (name ++ c ∷ []))) ≡ true
      → read_file disk (root_ ++ (b'/' ∷ (name ++ c ∷ []))) ≡ some text
      → handle_static fs location_ root_ disk req res
        ≡ ok (respond 200 text (extension_to_type (extension_of (name ++ c ∷ []))) res)
  unfolding handle_static regular_file
  handle_static-file name c n text last target there regular opened =
      let trimmed : trim_target req.target ≡ location_ ++ (name ++ c ∷ []) =
        ap trim_target (target ∙ simp append_assoc)
        ∙ trim_target-eq-trim_slashes ((location_ ++ name) ++ (c ∷ slashes n))
        ∙ trim_slashes_lem (location_ ++ name) c n last
        ∙ simp append_assoc in
      let name_lem : drop (length location_) (trim_target req.target) ≡ name ++ c ∷ [] =
        rw trimmed (drop_front location_ (name ++ c ∷ [])) in
      let long : ltb (length (trim_target req.target)) (length location_) ≡ false =
        rw trimmed (not_shorter location_ (name ++ c ∷ [])) in
      rw (name_lem, long, there, regular, opened, handle_static, regular_file)
        (ap (λ f. ok (respond 200 text (extension_to_type (extension_of f)) res)) name_lem)
