-- ===== src/Token/Verifier/Address.antt =====
-- token/access.go: the addresses that NewRemoteVerifier accepts, and its redirect policy.
use orbit_auth.Prelude.{ℕ, String, Bool, not, ◌&&◌, ◌||◌, Option, none, some, ◌==◌, leb}
use orbit_auth.Prelude.GoText.{trim_space}
use orbit_auth.Prelude.Results.{Result, ok, err, ◌>>=◌, ◌>>◌, refuse_if}
use orbit_auth.Domain.{Time}
use orbit_auth.Token.Keys.{TokenError, url_required, url_not_absolute, url_not_https}
use orbit_auth.Token.Verifier.{Moment, Verifier, first_fetch}

-- net/url's `URL`, as far as it is looked at.
pub record Url : Type 0 where
  pub scheme : String
  pub host : String
  pub hostname : String
  pub fragment : String
  pub has_user : Bool

is_local_http : Url → Bool
is_local_http u =
    u.scheme == "http"
    && (u.hostname == "localhost"
        || u.hostname == "127.0.0.1"
        || u.hostname == "host.docker.internal")

-- `parse_request_uri` is net/url's.
module _ (parse_request_uri : String → Option Url) where
  parsed_url : String → Result TokenError Url
  parsed_url text = elim (parse_request_uri text) [ none ↦ err url_not_absolute | some u ↦ ok u ]

  -- NewRemoteVerifier
  unfoldable pub new_remote_verifier : Moment → String → Time → Result TokenError Verifier
  unfolding parsed_url is_local_http
  new_remote_verifier m jwks_url cache_lifetime = do
    refuse_if (trim_space jwks_url == "") url_required
    u ← parsed_url (trim_space jwks_url)
    refuse_if (u.host == "" || not (u.fragment == "") || u.has_user) url_not_absolute
    refuse_if (not (u.scheme == "https") && not (is_local_http u)) url_not_https
    first_fetch m cache_lifetime

-- CheckRedirect: whether the client follows; `via` is the number of requests made already and
-- `equal_fold` is strings.EqualFold.
unfoldable pub follows : (String → String → Bool) → Url → Url → ℕ → Bool
follows equal_fold origin target via =
    not (
      leb 3 via || not (target.scheme == origin.scheme) || not (equal_fold target.host origin.host))
