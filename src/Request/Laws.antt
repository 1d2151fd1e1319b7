-- ===== src/Request/Laws.antt =====
-- Which header and which version decide on the connection, in include/request.hpp.
use as_proxyd.Common.{
  ◌+◌, ◌*◌, ◌^◌, ◌<◌, true, false, ◌≡◌, ◌≢◌, ◌↔◌, ◌⊎◌, inl, inr, arith, Bytes, codes, bytes_eq,
  bytes_eq_iff, Bool-cases,
}
use as_proxyd.Request.{Request, get_header, want_keepalive}

-- The connection stays open as its `connection` header asks, in any case of letters, and without
-- such a wish if the version is above 1.0. The versions are those below 2 ^ 31, in which the `int`s
-- did not overflow.
pub want_keepalive_cases :
    (to_lower_copy : Bytes → Bytes) (r : Request)
    → r.http_version_major < 2 ^ 31
    → r.http_version_minor < 2 ^ 31
    → let wish = to_lower_copy (get_header r (codes "connection")) in
      ((wish ≡ codes "close") × (want_keepalive to_lower_copy r ≡ false))
      ⊎ ((wish ≡ codes "keep-alive") × (want_keepalive to_lower_copy r ≡ true))
      ⊎ ((wish ≢ codes "close")
          × (wish ≢ codes "keep-alive")
          × ((want_keepalive to_lower_copy r ≡ true)
              ↔ (2 ^ 31 < r.http_version_major * 2 ^ 31 + r.http_version_minor)))
unfolding want_keepalive
want_keepalive_cases f r hM hm =
    let wish = f (get_header r (codes "connection")) in
    elim (Bool-cases (bytes_eq wish (codes "close"))) [
      | inl e ↦ inl ((bytes_eq_iff wish (codes "close")).0 e, rw e)
      | inr e ↦ elim (Bool-cases (bytes_eq wish (codes "keep-alive"))) [
        | inl k ↦ inr (inl ((bytes_eq_iff wish (codes "keep-alive")).0 k, rw e (rw k)))
        | inr k ↦ inr (
            inr (
              ground (arith, bytes_eq_iff wish (codes "close")),
              ground (arith, bytes_eq_iff wish (codes "keep-alive")),
              ground arith,
            ))
      ]
    ]
