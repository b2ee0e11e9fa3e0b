-- ===== src/Http/Mime.antt =====
-- `extension_to_type` of src/mime_types.cc.
use boost_web_server.Common.{List, [], ◌∷◌, if◌then◌else◌, Bytes, codes, ◌=s=◌}

-- `mappings`
abbrev pub mappings : List (Bytes × Bytes)
mappings =
    (codes "gif", codes "image/gif")
    ∷ (codes "htm", codes "text/html")
    ∷ (codes "html", codes "text/html")
    ∷ (codes "jpg", codes "image/jpeg")
    ∷ (codes "jpeg", codes "image/jpeg")
    ∷ (codes "png", codes "image/png")
    ∷ (codes "txt", codes "text/plain")
    ∷ (codes "zip", codes "application/zip")
    ∷ []

-- The loop over `mappings`.
unfoldable pub find_mapping : List (Bytes × Bytes) → Bytes → Bytes
find_mapping [] extension = codes "text/plain"
find_mapping ((ext, mime_type) ∷ ms) extension =
    if ext =s= extension then mime_type else find_mapping ms extension

unfoldable pub extension_to_type : Bytes → Bytes
unfolding find_mapping
extension_to_type extension = find_mapping mappings extension
