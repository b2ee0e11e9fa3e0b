-- ===== src/FileSystem.antt =====
-- The file system that the handlers of src/ reach through Boost.Filesystem and the streams of the
-- standard library. It is no code of the repository: the handlers take it as a parameter.
pub mod Laws
pub mod Memory
use boost_web_server.Common.{Bool, Option, none, some, List, [], Bytes, Result}

pub record FileSystem : Type 1 where
  pub Disk : Type 0
  pub exists : Disk → Bytes → Bool
  pub is_directory : Disk → Bytes → Bool
  pub is_regular_file : Disk → Bytes → Bool
  -- The content that a stream reads; `none` if the file cannot be opened.
  pub read_file : Disk → Bytes → Option Bytes
  -- A stream that replaces, or extends, the content.
  pub write_file : Disk → Bytes → Bytes → Disk
  pub append_file : Disk → Bytes → Bytes → Disk
  -- The disk behind the call, and whether there was no error.
  pub create_directory : Disk → Bytes → Disk × Bool
  -- The disk behind the call, and whether something was removed; an error is thrown.
  pub remove : Disk → Bytes → Result (Disk × Bool)
  -- What `recursive_directory_iterator` visits, in its order, which is not specified; it throws
  -- if the directory cannot be opened.
  pub entries : Disk → Bytes → Result (List Bytes)
  pub absolute : Disk → Bytes → Bytes
  -- `path::stem`: the file name without its extension.
  pub stem : Bytes → Bytes

-- What a stream from the file puts into a text; a file that cannot be opened gives nothing.
abbrev pub content : Option Bytes → Bytes
content none = []
content (some text) = text
