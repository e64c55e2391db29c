-- ===== src/Security.antt =====
-- backend/src/extrio/security.py: the identity behind a login, and the addresses of sources. The
-- parsers of the standard library are parameters: `hops` gives the entries of a forwarding header,
-- split at its commas, stripped and without the empty ones, `ip_address` the text of an address,
-- `urlsplit` the parts of an address of the web and `classify` what kind a host's address is of.
use Prim.Native.String.{◌++◌ as ◌++ₛ◌}
use extrio.Base.{
  ℕ, zero, suc, ◌+◌, ◌-◌, String, Bool, true, false, ◌&&◌, ◌||◌, not, Option, none, some, List, [],
  ◌∷◌, ◌++◌, ◌==◌, ◌=ₛ◌, ltb, if◌then◌else◌, length, drop, min, is_some, Outcome, ok, err, raise_if,
  ◌>>=◌, ◌>>◌,
}
mod Identity
mod Sources
mod Examples

-- `text or "unknown"`
abbrev pub or_unknown : String → String
or_unknown s = if s =ₛ "" then "unknown" else s

-- the entry at an index, with Python's error where there is none
unfoldable pub at_index : ℕ → List String → Option String
at_index n [] = none
at_index zero (x ∷ xs) = some x
at_index (suc n) (x ∷ xs) = at_index n xs

-- `candidates[-index - 1]`, counted from the end
abbrev pub from_end : ℕ → List String → Option String
from_end index candidates = at_index (length candidates - index - 1) candidates

module _ (ip_address : String → Option String) where
  -- the entry that a trusted proxy vouches for, or the remote host where it is no address
  abbrev pub vouched : String → Option String → String
  vouched remote_host none = or_unknown remote_host
  vouched remote_host (some candidate) = elim (ip_address candidate) [
    | none ↦ or_unknown remote_host
    | some address ↦ address
  ]

  unfoldable pub trusted_client_identity : String → List String → ℕ → String
  trusted_client_identity remote_host [] trusted_proxy_count = or_unknown remote_host
  trusted_client_identity remote_host (c ∷ candidates) trusted_proxy_count =
      if trusted_proxy_count == 0
      then or_unknown remote_host
      else vouched remote_host
          (from_end (min trusted_proxy_count (length (c ∷ candidates)) - 1) (c ∷ candidates))

pub data SourceUrlError : Type 0 where
  invalid_url https_required : SourceUrlError

-- what `urlsplit` reads; `host` is the host name, lowered and without trailing dots
pub record Parts : Type 0 where
  pub scheme : String
  pub host : String
  pub port : Option String
  pub username : Option String
  pub password : Option String
  pub path : String
  pub query : String
  pub fragment : String

pub record Address : Type 0 where
  pub is_loopback : Bool
  pub is_private : Bool
  pub is_link_local : Bool
  pub is_reserved : Bool

pub record Rules : Type 0 where
  pub allow_http_localhost : Bool
  pub allow_http_public : Bool
  pub has_access_profile : Bool

abbrev pub truthy : Option String → Bool
truthy none = false
truthy (some s) = not (s =ₛ "")

abbrev pub loops_back : String → Option Address → Bool
loops_back host none = host =ₛ "localhost"
loops_back host (some a) = (host =ₛ "localhost") || a.is_loopback

abbrev pub is_internal : Option Address → Bool
is_internal none = false
is_internal (some a) = a.is_private || a.is_link_local || a.is_reserved

-- `urlunsplit`, on parts without a fragment
abbrev pub with_port : String → Option String → String
with_port host none = host
with_port host (some p) = host ++ₛ ":" ++ₛ p

abbrev pub or_root : String → String
or_root path = if path =ₛ "" then "/" else path

module _ (urlsplit : String → Option Parts) (classify : String → Option Address)
    (urlunsplit : String → String → String → String → String) where
  -- the checks on the parts, in their order
  unfoldable pub check_source : Rules → Parts → Outcome SourceUrlError (Unit {0})
  check_source rules p = do
    let address = classify p.host
    let local = loops_back p.host address
    raise_if ((p.host =ₛ "") || truthy p.username || truthy p.password || not (p.fragment =ₛ ""))
        invalid_url
    raise_if (not ((p.scheme =ₛ "http") || (p.scheme =ₛ "https"))) invalid_url
    raise_if ((p.scheme =ₛ "http") && rules.has_access_profile) https_required
    raise_if
        ((p.scheme =ₛ "http")
          && not (rules.allow_http_public || (rules.allow_http_localhost && local)))
        https_required
    raise_if (local && not rules.allow_http_localhost) invalid_url
    raise_if (is_internal address && not (rules.allow_http_localhost && local)) invalid_url

  -- `normalize_source_url` on a stripped text: the address to fetch and its host
  unfoldable pub normalize_source_url : Rules → String → Outcome SourceUrlError (String × String)
  normalize_source_url rules value = elim (urlsplit value) [
    | none ↦ err invalid_url
    | some p ↦
        check_source rules p
        >> ok (urlunsplit p.scheme (with_port p.host p.port) (or_root p.path) p.query, p.host)
  ]
