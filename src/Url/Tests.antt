-- ===== src/Url/Tests.antt =====
-- Runs of `url_decode`, and its theorems at concrete inputs.
use as_proxyd.Common.{◌≤◌, true, false, ◌≡◌, refl, [], ◌∷◌, codes, length, is_space}
use as_proxyd.Url.{hex_digit, read_hex, url_decode}
use as_proxyd.Url.Escapes.{
  Escapes, end, literal, blank, escaped, url_decode-Escapes, length-url_decode,
}

-- A truncated escape, and one without digits.
fails : ((url_decode (codes "a%4")).0 ≡ false) × ((url_decode (codes "a%zz")).0 ≡ false)
unfolding url_decode read_hex is_space
fails = (refl, refl)

-- One digit is enough, and a sign is taken: the second character is lost.
lenient : url_decode (codes "%4z%-1") ≡ (true, 4 ∷ 255 ∷ [])
unfolding url_decode read_hex is_space
lenient = refl

spelling : Escapes (codes "k w?") (codes "k+%77%3f")
unfolding hex_digit
spelling = literal refl refl (blank (escaped refl refl refl (escaped refl refl refl end)))

spelling_decoded : url_decode (codes "k+%77%3f") ≡ (true, codes "k w?")
spelling_decoded = url_decode-Escapes spelling

decoded_is_shorter : length (url_decode (codes "k+%77%3f")).1 ≤ 8
decoded_is_shorter = length-url_decode (codes "k+%77%3f")
