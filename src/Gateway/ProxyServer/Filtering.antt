-- ===== src/Gateway/ProxyServer/Filtering.antt =====
-- crates/nexal-gateway/src/proxy/server.rs: which headers go upstream, and for which tokens anything
-- does.
use nexal.Prelude.{
  is_some, true, ℕ, String, string_eq, ◌===◌, Bool, ◌||◌, Option, none, some, List, [], ◌∷◌, ◌≡◌,
  refl, ◌∙◌, if◌then◌else◌,
}
use nexal.Prelude.Map.{Map}
use nexal.Gateway.Proxies.Refinement.{Call, performed, promised, AreNew, lookup-promised}
use nexal.Gateway.ProxyServer.{
  Header, Request, Outgoing, Upstream, not_found, is_hop_by_hop, forward_to, forward,
}

-- The values that stand under a name, in order
abbrev pub values_of : String → List Header → List (List ℕ)
values_of name [] = []
values_of name ((n, value) ∷ headers) =
    let rest = values_of name headers in if n === name then value ∷ rest else rest

abbrev pub is_dropped : String → Bool
is_dropped name = is_hop_by_hop name || (name === "host")

abbrev headers_of : Option Outgoing → List Header
headers_of none = []
headers_of (some out) = out.headers

-- The values of the registered headers whose name is made this one, in order
abbrev under : String → Option Header → List (List ℕ) → List (List ℕ)
under name none rest = rest
under name (some (n, value)) rest = if n === name then value ∷ rest else rest

abbrev pub given_values :
    (String → String → Option Header) → String → Map String String → List (List ℕ)
given_values header_of name [] = []
given_values header_of name ((n, value) ∷ headers) =
    under name (header_of n value) (given_values header_of name headers)

abbrev pub AreValid : (String → String → Option Header) → Map String String → Type 0
AreValid header_of [] = Unit {0}
AreValid header_of ((n, value) ∷ headers) =
    (is_some (header_of n value) ≡ true) × AreValid header_of headers

-- However proxies were registered and taken away, with tokens that did not resolve: a request with a
-- token that leads to no registration any more is answered as not found, and nothing goes upstream.
pub forward-revoked :
    (header_of : String → String → Option Header) (calls : List Call) (token rest : String)
    (req : Request) (up : Option Upstream)
    → AreNew calls
    → promised calls token ≡ none
    → forward header_of (performed calls) token rest req up ≡ (not_found, none)
unfolding forward forward_to
forward-revoked header_of calls token rest req up new gone =
    simp (lookup-promised calls token new ∙ gone) refl
