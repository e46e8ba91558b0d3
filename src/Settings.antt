-- ===== src/Settings.antt =====
-- src/smartplanner/settings.py: the checks of `Settings`. `urlsplit` belongs to Python's library and
-- is a parameter; what it finds is the record `SplitUrl`, where an empty text stands for a part
-- that is missing.
use Prim.Native.String.{count}
use planer.Prelude.{
  ℕ, String, Bool, not, ◌&&◌, ◌||◌, List, [], ◌∷◌, any_of, leb, str_eq, starts_with,
}
use planer.Errors.{Result, raise_if, value_error, ◌>>◌}

pub record SplitUrl : Type 0 where
  pub scheme : String
  pub hostname : String
  pub path : String
  pub query : String
  pub fragment : String
  pub username : String

pub record Settings : Type 0 where
  pub database_url : String
  pub origin : String
  pub environment : String
  pub cookie_secure : Bool
  pub session_hours : ℕ
  pub auth_requests_per_minute : ℕ

-- `text in {...}`
unfoldable pub is_one_of : String → List String → Bool
unfolding any_of str_eq
is_one_of text choices = any_of (str_eq text) choices

abbrev pub is_given : String → Bool
is_given text = leb 1 (count text)

unfoldable pub is_origin : SplitUrl → Bool
unfolding is_one_of
is_origin origin =
    is_one_of origin.scheme ("http" ∷ "https" ∷ [])
    && is_given origin.hostname
    && not (
        is_given origin.path
        || is_given origin.query
        || is_given origin.fragment
        || is_given origin.username)

-- `__post_init__`
unfoldable pub check_settings : (String → SplitUrl) → Settings → Result (Unit {0})
unfolding starts_with str_eq is_one_of is_origin
check_settings urlsplit settings = do
  raise_if
      (not (
        starts_with "sqlite:///" settings.database_url
        || starts_with "postgresql://" settings.database_url))
      value_error
  let origin = urlsplit settings.origin
  raise_if (not (is_origin origin)) value_error
  raise_if (not (is_one_of settings.environment ("development" ∷ "production" ∷ []))) value_error
  raise_if
      (str_eq settings.environment "production"
        && (not settings.cookie_secure || not (str_eq origin.scheme "https")))
      value_error
  raise_if
      (not settings.cookie_secure
        && not (is_one_of origin.hostname ("localhost" ∷ "127.0.0.1" ∷ "::1" ∷ [])))
      value_error
  raise_if (not (leb 1 settings.session_hours && leb settings.session_hours 168)) value_error
  raise_if
      (not (leb 1 settings.auth_requests_per_minute && leb settings.auth_requests_per_minute 1000))
      value_error
