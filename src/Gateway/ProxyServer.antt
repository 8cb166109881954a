-- ===== src/Gateway/ProxyServer.antt =====
-- crates/nexal-gateway/src/proxy/server.rs: `forward`, the request that goes upstream for a token.
-- The reading of the body and the upstream server are arguments, and so is what reqwest makes of a
-- registered header: a name in lower case with the bytes of the value, or nothing when one of them is
-- not valid, and then the request is not sent. `RequestBuilder::header` of reqwest appends a header
-- and takes none away. The names of the caller's headers are in lower case already.
pub mod Filtering
use Prim.Native.Char.{code}
use Prim.Native.String
use Prim.Native.String.{String, [], ◌∷◌}
use mathlib.Core.List.{List}
use nexal.Prelude.{
  ℕ, ◌+◌, string_eq, nat_eq, ◌===◌, Bool, true, false, ◌&&◌, ◌||◌, Option, none, some,
  if◌then◌else◌, leb, str_append, ◌++◌,
}
use nexal.Prelude
use nexal.Prelude.Map.{Map}
use nexal.Gateway.Proxies.{Inner, ProxyEntry, lookup}

abbrev lower : ℕ → ℕ
lower n = if leb 65 n && leb n 90 then n + 32 else n

-- `name.to_ascii_lowercase() == text`
unfoldable pub is_lowered : String → String → Bool
is_lowered [] [] = true
is_lowered [] (d ∷ text) = false
is_lowered (c ∷ name) [] = false
is_lowered (c ∷ name) (d ∷ text) = lower (code c) === code d && is_lowered name text

unfoldable pub is_hop_by_hop : String → Bool
unfolding is_lowered
is_hop_by_hop name =
    is_lowered name "connection"
    || is_lowered name "keep-alive"
    || is_lowered name "proxy-authenticate"
    || is_lowered name "proxy-authorization"
    || is_lowered name "te"
    || is_lowered name "trailers"
    || is_lowered name "transfer-encoding"
    || is_lowered name "upgrade"
    || is_lowered name "content-length"

-- `upstream.trim_end_matches('/')`
unfoldable pub trim_end : String → String
trim_end [] = ""
trim_end (c ∷ s) = let rest = trim_end s in if rest === "" && code c === b'/' then "" else c ∷ rest

abbrev starts_with_slash : String → Bool
starts_with_slash [] = false
starts_with_slash (c ∷ s) = code c === b'/'

abbrev rest_path : String → String
rest_path rest =
    if rest === "" then "" else if starts_with_slash rest then rest else str_append "/" rest

abbrev with_query : String → Option String → String
with_query out none = out
with_query out (some q) = str_append out (str_append "?" q)

-- The source's result is never an error.
unfoldable pub build_upstream_url : String → String → Option String → Option String
unfolding trim_end
build_upstream_url upstream rest query =
    some (with_query (str_append (trim_end upstream) (rest_path rest)) query)

abbrev pub Header : Type 0
Header = String × List ℕ

-- `body` is missing where it cannot be read.
pub record Request : Type 0 where
  pub method : String
  pub query : Option String
  pub headers : List Header
  pub body : Option (List ℕ)

pub record Outgoing : Type 0 where
  pub method : String
  pub url : String
  pub headers : List Header
  pub body : List ℕ

pub record Upstream : Type 0 where
  pub status : ℕ
  pub headers : List Header

pub data Response : Type 0 where
  not_found bad_url bad_body bad_gateway : Response
  passed : ℕ → List Header → Response

unfoldable pub carried : List Header → List Header
unfolding is_hop_by_hop
carried Prelude.[] = Prelude.[]
carried (Prelude.◌∷◌ (name, value) headers) =
    let rest = carried headers in
    if is_hop_by_hop name
    then rest
    else if name === "host"
    then rest
    else Prelude.◌∷◌ (name, value) rest

unfoldable pub returned : List Header → List Header
unfolding is_hop_by_hop
returned Prelude.[] = Prelude.[]
returned (Prelude.◌∷◌ (name, value) headers) =
    let rest = returned headers in
    if is_hop_by_hop name then rest else Prelude.◌∷◌ (name, value) rest

with_header : Option Header → Option (List Header) → Option (List Header)
with_header none rest = none
with_header (some header) none = none
with_header (some header) (some headers) = some (Prelude.◌∷◌ header headers)

module _ (header_of : String → String → Option Header) where
  -- Nothing when a header is not valid
  unfoldable pub registered : Map String String → Option (List Header)
  unfolding with_header
  registered Prelude.[] = some Prelude.[]
  registered (Prelude.◌∷◌ (name, value) headers) =
      with_header (header_of name value) (registered headers)

  unfoldable pub answer : Option Upstream → Response
  answer none = bad_gateway
  answer (some up) = passed up.status (returned up.headers)

  -- The request is built and sent.
  unfoldable pub dispatch :
      Request
      → String
      → List ℕ
      → Option (List Header)
      → Option Upstream
      → Response × Option Outgoing
  unfolding carried answer
  dispatch req url body none up = (bad_gateway, none)
  dispatch req url body (some headers) up = (
    answer up,
    some (record {
      method = req.method;
      url = url;
      headers = carried req.headers ++ headers;
      body = body;
    }),
  )

  unfoldable pub send :
      ProxyEntry
      → Request
      → Option String
      → Option (List ℕ)
      → Option Upstream
      → Response × Option Outgoing
  unfolding registered dispatch
  send entry req none body up = (bad_url, none)
  send entry req (some url) none up = (bad_body, none)
  send entry req (some url) (some body) up = dispatch req url body (registered entry.headers) up

  unfoldable pub forward_to :
      Option ProxyEntry → String → Request → Option Upstream → Response × Option Outgoing
  forward_to none rest req up = (not_found, none)
  forward_to (some entry) rest req up =
      send entry req (build_upstream_url entry.upstream_url rest req.query) req.body up

  -- The response, and the request that is sent to the upstream server, reached or not
  unfoldable pub forward :
      Inner → String → String → Request → Option Upstream → Response × Option Outgoing
  unfolding send build_upstream_url forward_to
  forward inner token rest req up = forward_to (lookup inner token) rest req up
