-- ===== src/Mime.antt =====
-- src/mime_types.cpp: the type of a file by its extension.
mod Tests
use as_proxyd.Common.{List, [], ◌∷◌, if◌then◌else◌, Bytes, bytes_eq, codes}

-- `mappings`, up to the end of the list.
abbrev pub mappings : List (Bytes × Bytes)
mappings =
    (codes "gif", codes "image/gif")
    ∷ (codes "htm", codes "text/html")
    ∷ (codes "html", codes "text/html")
    ∷ (codes "jpg", codes "image/jpeg")
    ∷ (codes "png", codes "image/png")
    ∷ []

-- The loop of `extension_to_type`.
unfoldable pub type_from : List (Bytes × Bytes) → Bytes → Bytes
type_from [] extension = codes "text/plain"
type_from ((e, t) ∷ ms) extension = if bytes_eq e extension then t else type_from ms extension

unfoldable pub extension_to_type : Bytes → Bytes
unfolding type_from
extension_to_type extension = type_from mappings extension
