-- ===== src/RequestHandler/Tests/Uri.antt =====
-- The theorems on URIs (src/request_handler.cpp) at concrete spellings.
use as_proxyd.Common.{true, List, [], ◌∷◌, ◌≡◌, refl, Bytes, codes, bytes_eq, to_lower}
use as_proxyd.Jansson.Model.{end}
use as_proxyd.Query.{Params, map_get}
use as_proxyd.Query.Order.{swap}
use as_proxyd.Query.Print.{Part, pair, bare, last_value}
use as_proxyd.Boost.{join}
use as_proxyd.Reply.{ok, stock_reply}
use as_proxyd.RequestHandler.{key_of, handle_request}
use as_proxyd.RequestHandler.Routes.{Asks}
use as_proxyd.RequestHandler.Uri.{target-Escapes, handle_request-Reordered}
use as_proxyd.Url.{hex_digit}
use as_proxyd.Url.Escapes.{Escapes, end, literal, escaped, all-Escapes}
use as_proxyd.RequestHandler.Tests.{the_env, world, request_to}

abbrev parts : List Part
parts = pair (codes "ns") (codes "t?") ∷ bare [] ∷ pair (codes "key") (codes "7") ∷ []

-- "/G%45t?ns=t%3F&&key=7"
spelling : Escapes (codes "/GEt?ns=t?&&key=7") (codes "/G%45t?ns=t%3F&&key=7")
unfolding hex_digit
spelling = literal refl refl (
    literal refl refl (
      escaped refl refl refl (
        literal refl refl (
          literal refl refl (
            literal refl refl (
              literal refl refl (
                literal refl refl (
                  literal refl refl (
                    escaped refl refl refl (
                      literal refl refl (
                        literal refl refl (
                          literal refl refl (
                            literal refl refl (
                              literal refl refl
                                (literal refl refl (literal refl refl end))))))))))))))))

target-Escapes_example :
    (m : Params) × Asks the_env (request_to (codes "/G%45t?ns=t%3F&&key=7")) (codes "/get") m
    × ((k : Bytes) → map_get m k [] ≡ last_value parts k [])
    × (key_of the_env m ≡ record { ns = codes "t?"; set = []; key = codes "7" })
unfolding bytes_eq to_lower join
target-Escapes_example =
    target-Escapes the_env (request_to (codes "/G%45t?ns=t%3F&&key=7")) (codes "/GEt") parts refl
      ((refl, refl, refl), ((refl, refl), ((refl, refl, refl), tt))) spelling

handle_request-Reordered_example :
    handle_request the_env 11 (request_to (codes "/get?ns=t&key=7")) (stock_reply ok) true world
    ≡ handle_request the_env 11 (request_to (codes "/get?key=7&ns=t")) (stock_reply ok) true world
unfolding join bytes_eq
handle_request-Reordered_example =
    handle_request-Reordered the_env 11 (request_to (codes "/get?ns=t&key=7"))
      (request_to (codes "/get?key=7&ns=t")) (stock_reply ok) true world (codes "/get")
      (pair (codes "ns") (codes "t") ∷ pair (codes "key") (codes "7") ∷ [])
      (pair (codes "key") (codes "7") ∷ pair (codes "ns") (codes "t") ∷ []) refl
      ((refl, refl, refl), ((refl, refl, refl), tt))
      (swap (pair (codes "ns") (codes "t")) (pair (codes "key") (codes "7")) refl)
      (all-Escapes (codes "/get?ns=t&key=7") refl) (all-Escapes (codes "/get?key=7&ns=t") refl)
