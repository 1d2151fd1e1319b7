-- ===== src/Util/Files.antt =====
-- The helpers on files: src/util.cpp, and `getFileText` of include/jsonutil.hpp. The file system is a
-- parameter.
use as_proxyd.Common.{
  Bool, List, [], map, ◌++◌, Option, none, some, if◌then◌else◌, Bytes, codes, ℤ, pos, until_nul,
}

-- Whether a path exists; the time of its last change, or an exception; the paths that match a pattern; and
-- the content of a file that can be opened.
pub record Files : Type 0 where
  pub exists : Bytes → Bool
  pub last_write_time : Bytes → Option ℤ
  pub glob : Bytes → List Bytes
  pub content : Bytes → Option Bytes

-- `getFileTime`.
unfoldable pub get_file_time : Files → Bytes → Option ℤ
get_file_time fs name =
    let p = until_nul name in if fs.exists p then fs.last_write_time p else some (pos 0)

-- `getLastWriteTime`.
unfoldable pub get_last_write_time : Files → Bytes → Bytes → Option ℤ
get_last_write_time fs path name = fs.last_write_time (path ++ codes "/" ++ name)

-- `globVector`.
unfoldable pub glob_vector : Files → Bytes → List Bytes
glob_vector fs pattern_text = map until_nul (fs.glob (until_nul pattern_text))

abbrev pub read : Option Bytes → Bytes
read none = []
read (some text) = text

-- `getFileText`, which also prints the text.
unfoldable pub get_file_text : Files → Bytes → Bytes
get_file_text fs name = read (fs.content (until_nul name))
