-- ===== src/Mime/Tests.antt =====
-- Lookups in the table of src/mime_types.cpp.
use as_proxyd.Common.{◌≡◌, refl, codes, bytes_eq}
use as_proxyd.Mime.{extension_to_type}

known : extension_to_type (codes "jpg") ≡ codes "image/jpeg"
unfolding extension_to_type bytes_eq
known = refl

other : extension_to_type (codes "json") ≡ codes "text/plain"
unfolding extension_to_type bytes_eq
other = refl
