-- ===== src/Gateway/Examples/Proxying.antt =====
-- The theorems on the proxy server at concrete inputs.
use nexal.Prelude.{
  Option, ◌===◌, String, string_eq, none, some, List, [], ◌∷◌, ◌≡◌, refl, if◌then◌else◌,
}
use nexal.Prelude.Map
use nexal.Gateway.Proxies
use nexal.Gateway.Proxies.{ProxyEntry, lookup}
use nexal.Gateway.Proxies.Refinement
use nexal.Gateway.Proxies.Refinement.{Call, cleaning, performed}
use nexal.Gateway.ProxyServer.{Header, Request, Outgoing, not_found, forward}
use nexal.Gateway.ProxyServer.Filtering.{forward-revoked}

-- The name of one header in lower case; each value is one byte, and no value is empty.
abbrev header_of : String → String → Option Header
header_of name value =
    if value === ""
    then none
    else if name === "Authorization"
    then some ("authorization", 1 ∷ [])
    else some (name, 1 ∷ [])

abbrev calls : List Call
calls =
    Refinement.registering "t1" "a" "jina" "https://jina/" (("Authorization", "secret") ∷ []) ∷ []

abbrev entry : ProxyEntry
entry = record {
  agent_id = "a";
  name = "jina";
  upstream_url = "https://jina/";
  headers = ("Authorization", "secret") ∷ [];
  token = "t1";
}

abbrev request : Request
request = record {
  method = "GET";
  query = some "q=1";
  headers = ("authorization", 2 ∷ []) ∷ ("connection", 3 ∷ []) ∷ ("host", 4 ∷ []) ∷ [];
  body = some [];
}

abbrev outgoing : Outgoing
outgoing = record {
  method = "GET";
  url = "https://jina/search?q=1";
  headers = ("authorization", 2 ∷ []) ∷ ("authorization", 1 ∷ []) ∷ [];
  body = [];
}

forward-revoked_example :
    forward header_of (performed (cleaning "a" ∷ calls)) "t1" "search" request none
    ≡ (not_found, none)
unfolding lookup Map.get performed
forward-revoked_example =
    forward-revoked header_of (cleaning "a" ∷ calls) "t1" "search" request none (refl, tt) refl
