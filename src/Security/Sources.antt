-- ===== src/Security/Sources.antt =====
-- What an accepted source address is.
use extrio.Base.{String, ◌≡◌, true, false, ◌&&◌, ◌||◌, Option, some, ◌=ₛ◌}
use extrio.Security.{Parts, Address, Rules, truthy, loops_back, is_internal, with_port, or_root}

module _ (urlsplit : String → Option Parts) (classify : String → Option Address)
    (urlunsplit : String → String → String → String → String) where
  pub record IsSafe (rules : Rules) (p : Parts) : Type 0 where
    pub has_host : (p.host =ₛ "") ≡ false
    pub no_credentials : (truthy p.username || truthy p.password) ≡ false
    pub no_fragment : (p.fragment =ₛ "") ≡ true
    pub web : ((p.scheme =ₛ "http") || (p.scheme =ₛ "https")) ≡ true
    pub plain_without_profile : (p.scheme =ₛ "http") ≡ true → rules.has_access_profile ≡ false
    pub plain_where_allowed :
        (p.scheme =ₛ "http") ≡ true
        → (rules.allow_http_public
            || (rules.allow_http_localhost && loops_back p.host (classify p.host)))
          ≡ true
    pub outside :
        (rules.allow_http_localhost && loops_back p.host (classify p.host)) ≡ false
        → (loops_back p.host (classify p.host) || is_internal (classify p.host)) ≡ false

  -- the parts of an accepted address, and what is fetched
  pub record IsAccepted (rules : Rules) (value : String) (result : String × String) : Type 0 where
    pub parts : Parts
    pub parsed : urlsplit value ≡ some parts
    pub safe : IsSafe rules parts
    pub fetched : result ≡ (
      urlunsplit parts.scheme (with_port parts.host parts.port) (or_root parts.path) parts.query,
      parts.host,
    )
