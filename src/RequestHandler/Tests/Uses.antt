-- ===== src/RequestHandler/Tests/Uses.antt =====
-- What the request for a record, at a concrete cluster, acquires and gives back.
use as_proxyd.Common.{true, bytes_eq, codes, eq_ℤ, until_nul, [], ◌∷◌, ◌≡◌, refl, some}
use as_proxyd.AsObject.{get}
use as_proxyd.AsObject.Convert.{data_convert_to_json_v1}
use as_proxyd.AsObject.Uses.{get_uses}
use as_proxyd.Base64.{base64_decode, is_base64}
use as_proxyd.Control.{get_as_object, lookup}
use as_proxyd.Jansson.Model.{set_member, size_of, size}
use as_proxyd.Ownership.{
  run_uses, root, bins, value, key, rec, src_value, acquires, reads, gives, releases,
}
use as_proxyd.Reply.{ok, stock_reply}
use as_proxyd.RequestHandler.Framing.{handle_request-IsDefined}
use as_proxyd.RequestHandler.Uses.{handle_request_uses, get_members_uses, handle_request_uses_lem}
use as_proxyd.RequestHandler.Tests.{the_env, world, request_to, get_uri, readable, named}

handle_request_uses_lem_example :
    run_uses (handle_request_uses the_env 11 (request_to get_uri) world) [] ≡ some []
handle_request_uses_lem_example =
    let (x, h) =
      handle_request-IsDefined the_env 11 readable named (request_to get_uri) (stock_reply ok) true
        world in
    handle_request_uses_lem the_env 11 (request_to get_uri) (stock_reply ok) true world x h

-- The record has a number and a text that is no base64.
get_run :
    get_members_uses the_env 11
      (record { ns = codes "test"; set = codes "demo"; key = codes "7" })
      world
    ≡ acquires bins
      ∷ acquires key
      ∷ acquires rec
      ∷ releases key
      ∷ acquires value
      ∷ gives bins value
      ∷ acquires src_value
      ∷ reads src_value
      ∷ reads src_value
      ∷ acquires value
      ∷ gives bins value
      ∷ releases src_value
      ∷ releases rec
      ∷ reads bins
      ∷ gives root bins
      ∷ []
unfolding get_members_uses get_as_object lookup get_uses get data_convert_to_json_v1 base64_decode
    is_base64 eq_ℤ until_nul size_of size set_member bytes_eq
get_run = refl
