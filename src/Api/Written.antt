-- ===== src/Api/Written.antt =====
-- The scan of src/request_api_handler.cc on a disk to which a POST wrote a file.
use mathlib.Core.Path.{subst}
use boost_web_server.Common.{
  ℕ, ◌<◌, ◌≡◌, sym, ap, ◌∙◌, ◌≢◌, true, List, [], ◌∷◌, ◌++◌, append_assoc, Bytes, ℤ, pos, stoi,
  to_decimal, stoi-to_decimal, Map, ok, >>=-eq-ok, NoSlash, number-IsDigits, number-ne,
  number-NoSlash,
}
use boost_web_server.FileSystem.{FileSystem}
use boost_web_server.FileSystem.Laws.{ListingLaws}
use boost_web_server.Api.Scan.{last_byte, new_api_handler}
use boost_web_server.Api.Handler.{slash_join}
use boost_web_server.Api.Paths.{last_byte-path}
use boost_web_server.Api.Rescan.{is_used}
use boost_web_server.Api.Found.{IsNumberOf, listed-is_used}

module _ (fs : FileSystem) (laws : ListingLaws fs) where
  open fs use {Disk, write_file, entries, is_regular_file, absolute, stem}
  open laws use {IsBelow, entries-write, is_regular_file-write, absolute_lem, stem-digits}

  -- The path of a number of an entity below a root is that of the number's file.
  number_path-IsNumberOf :
      (front root entity : Bytes) (n : ℕ)
      → n < 0x80000000
      → NoSlash entity
      → IsNumberOf fs entity
          (pos n)
          (front ++ slash_join (slash_join root entity) (to_decimal (pos n)))
  number_path-IsNumberOf front root entity n small clean =
      let name = to_decimal (pos n) in
      let path : front ++ slash_join (slash_join root entity) name
          ≡ slash_join (slash_join (front ++ root) entity) name =
        sym (append_assoc front (slash_join root entity) (b'/' ∷ name))
        ∙ ap (λ p. slash_join p name) (sym (append_assoc front root (b'/' ∷ entity))) in
      let ne : name ≢ [] = number-ne n in
      let (d, last, digit) =
        last_byte-path (slash_join (front ++ root) entity) name (number-IsDigits n) ne in
      record {
        front = front ++ root;
        name = name;
        last = d;
        path_lem = path;
        entity_lem = clean;
        name_lem = number-NoSlash n;
        last_lem = ap last_byte path ∙ last;
        digit_lem = digit;
        number_lem =
            ap (λ p. stoi (stem p)) path
            ∙ ap stoi (stem-digits (slash_join (front ++ root) entity) name (number-IsDigits n) ne)
            ∙ stoi-to_decimal n small;
      }

  -- A scan of the disk behind the writing of a number's file puts the number in use.
  pub written-is_used :
      (disk : Disk) (root entity text : Bytes) (n : ℕ) (counts counts' : Map (List ℤ))
      → n < 0x80000000
      → NoSlash entity
      → IsBelow disk root (slash_join (slash_join root entity) (to_decimal (pos n)))
      → new_api_handler fs
          (write_file disk (slash_join (slash_join root entity) (to_decimal (pos n))) text)
          root
          counts
        ≡ ok counts'
      → is_used entity (pos n) counts' ≡ true
  unfolding new_api_handler
  written-is_used disk root entity text n counts counts' small clean below e =
      let path = slash_join (slash_join root entity) (to_decimal (pos n)) in
      let (files, all, _) = >>=-eq-ok (entries (write_file disk path text) root) _ e in
      let (front, whole) = absolute_lem (write_file disk path text) path in
      listed-is_used fs (write_file disk path text) root entity (pos n) path files counts counts'
        all (entries-write disk root path text files below all)
        (is_regular_file-write disk root path text below)
        (subst (IsNumberOf fs entity (pos n)) (sym whole)
          (number_path-IsNumberOf front root entity n small clean))
        e
