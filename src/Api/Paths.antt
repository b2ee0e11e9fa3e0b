-- ===== src/Api/Paths.antt =====
-- Paths as the constructor and the handlers of src/request_api_handler.cc take them apart.
use boost_web_server.Common.{
  ℕ, ◌≡◌, refl, ◌∙◌, ◌≢◌, true, [], ◌∷◌, ◌++◌, Bytes, rfind, before_at, after_at, isdigit, IsDigits,
  ok, NoSlash, rfind-last, take_front, drop_front,
}
use boost_web_server.Api.Handler.{slash_join}
use boost_web_server.Api.Scan.{last_byte}

-- The last folder of a path.
abbrev pub folder_of : Bytes → Bytes
folder_of path =
    let directory = before_at (rfind b'/' path) path in after_at (rfind b'/' directory) directory

-- The last folder of the path of a file.
pub folder_of-path :
    (front entity name : Bytes)
    → NoSlash entity
    → NoSlash name
    → folder_of (slash_join (slash_join front entity) name) ≡ entity
folder_of-path front entity name folder file = rw (
  rfind-last (slash_join front entity) name file,
  take_front (slash_join front entity) (b'/' ∷ name),
  rfind-last front entity folder,
  drop_front front entity b'/',
)

pub last_byte-behind : (a b : Bytes) (c : ℕ) → last_byte (a ++ (c ∷ b)) ≡ last_byte (c ∷ b)
unfolding last_byte
last_byte-behind [] b c = refl
last_byte-behind (x ∷ []) b c = refl
last_byte-behind (x ∷ y ∷ a) b c = last_byte-behind (y ∷ a) b c

last_byte-digits :
    (s : Bytes) → IsDigits s → s ≢ [] → (d : ℕ) × (last_byte s ≡ ok d) × (isdigit d ≡ true)
unfolding last_byte
last_byte-digits [] h ne = absurd (ne refl)
last_byte-digits (c ∷ []) h ne = (c, refl, h.0)
last_byte-digits (c ∷ d ∷ s) h ne = last_byte-digits (d ∷ s) h.1 (λ e. cc)

last_byte-slash : (s : Bytes) → s ≢ [] → last_byte (b'/' ∷ s) ≡ last_byte s
unfolding last_byte
last_byte-slash [] ne = absurd (ne refl)
last_byte-slash (c ∷ s) ne = refl

-- The path of a number's file ends with a digit.
pub last_byte-path :
    (a s : Bytes)
    → IsDigits s
    → s ≢ []
    → (d : ℕ) × (last_byte (slash_join a s) ≡ ok d) × (isdigit d ≡ true)
last_byte-path a s h ne =
    let (d, last, digit) = last_byte-digits s h ne in
    (d, last_byte-behind a s b'/' ∙ last_byte-slash s ne ∙ last, digit)
