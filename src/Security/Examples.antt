-- ===== src/Security/Examples.antt =====
-- A login behind one proxy, and a source on the loopback.
use extrio.Base.{
  String, ◌≡◌, refl, true, false, Option, none, some, [], ◌∷◌, ◌++◌, arith, err, ◌=ₛ◌,
  if◌then◌else◌,
}
use extrio.Security.{
  trusted_client_identity, at_index, Parts, Address, Rules, normalize_source_url, check_source,
  invalid_url,
}
use extrio.Security.Identity.{forged_entries}

abbrev any_address : String → Option String
any_address s = some s

seen : trusted_client_identity any_address "10.0.0.1" ("6.6.6.6" ∷ "1.2.3.4" ∷ []) 1 ≡ "1.2.3.4"
unfolding trusted_client_identity at_index
seen = refl

forged_entries_example :
    trusted_client_identity any_address "10.0.0.1" (("6.6.6.6" ∷ []) ++ "1.2.3.4" ∷ []) 1
    ≡ trusted_client_identity any_address "10.0.0.1" ("1.2.3.4" ∷ []) 1
forged_entries_example =
    forged_entries any_address "10.0.0.1" 1 ("6.6.6.6" ∷ []) ("1.2.3.4" ∷ []) (omega arith)
      (omega arith)

abbrev local_parts : Parts
local_parts = record {
  scheme = "http";
  host = "localhost";
  port = none;
  username = none;
  password = none;
  path = "";
  query = "";
  fragment = "";
}

abbrev urlsplit : String → Option Parts
urlsplit s = if s =ₛ "http://localhost" then some local_parts else none

abbrev classify : String → Option Address
classify host = none

abbrev urlunsplit : String → String → String → String → String
urlunsplit scheme netloc path query = "http://localhost/"

abbrev strict : Rules
strict = record {
  allow_http_localhost = false;
  allow_http_public = true;
  has_access_profile = false;
}

abbrev local : Rules
local = record {
  allow_http_localhost = true;
  allow_http_public = false;
  has_access_profile = false;
}

kept_out :
    normalize_source_url urlsplit classify urlunsplit strict "http://localhost" ≡ err invalid_url
unfolding normalize_source_url check_source
kept_out = refl
