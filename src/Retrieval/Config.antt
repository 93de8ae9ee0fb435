-- ===== src/Retrieval/Config.antt =====
-- `Config`, `Client` and `NewClient` of internal/retrieval/client.go: the defaults and the guards.
pub mod Bounds
pub mod Settings
use feeds_server.Base.{
  ℕ, ◌*◌, ◌^◌, String, ◌==◌, Bool, true, false, ◌||◌, List, Option, none, some, if◌then◌else◌,
}
use feeds_server.Base.Int.{ℤ, pos, negsuc, ltz, is_zero, is_negative}
use feeds_server.Base.Text.{is_blank}
use feeds_server.Base.Address.{Prefix}
use feeds_server.Retrieval.Error.{plain}
use feeds_server.Retrieval.Policy.{Result, ok, err, DestinationPolicy}

-- Durations are `int64` numbers of nanoseconds.
abbrev pub second : ℕ
second = 1_000_000_000

abbrev pub millisecond : ℕ
millisecond = 1_000_000

abbrev pub default_request_timeout : ℤ
default_request_timeout = pos (30 * second)

abbrev pub default_connect_timeout : ℤ
default_connect_timeout = pos (5 * second)

abbrev pub default_response_header_timeout : ℤ
default_response_header_timeout = pos (10 * second)

abbrev pub default_max_body_bytes : ℤ
default_max_body_bytes = pos (8 * 2 ^ 20)

abbrev pub default_max_concurrent : ℤ
default_max_concurrent = pos 8

abbrev pub default_max_attempts : ℤ
default_max_attempts = pos 3

abbrev pub default_base_backoff : ℤ
default_base_backoff = pos (250 * millisecond)

abbrev pub default_max_backoff : ℤ
default_max_backoff = pos (2 * second)

abbrev pub default_user_agent : String
default_user_agent = "GoreeCloud-Feeds/0.1.0-dev"

-- The fields that hold data; `Resolver` and `Sleep` are parameters of the functions that use them.
pub record Config : Type 0 where
  pub request_timeout : ℤ
  pub connect_timeout : ℤ
  pub response_header_timeout : ℤ
  pub max_body_bytes : ℤ
  pub max_concurrent : ℤ
  pub max_attempts : ℤ
  pub base_backoff : ℤ
  pub max_backoff : ℤ
  pub allow_plain_http : Bool
  pub allowed_networks : List Prefix
  pub user_agent : String

-- The client, with the two timeouts of its dialer and transport and the one of its `http.Client`;
-- `concurrent` is the capacity of the semaphore.
pub record Client : Type 0 where
  pub policy : DestinationPolicy
  pub max_body_bytes : ℤ
  pub user_agent : String
  pub concurrent : ℤ
  pub max_attempts : ℤ
  pub base_backoff : ℤ
  pub max_backoff : ℤ
  pub request_timeout : ℤ
  pub connect_timeout : ℤ
  pub response_header_timeout : ℤ

-- The first guard of `NewClient`.
unfoldable pub has_negative : Config → Bool
has_negative cfg =
    is_negative cfg.request_timeout
    || (is_negative cfg.connect_timeout
        || (is_negative cfg.response_header_timeout
            || (is_negative cfg.max_body_bytes
                || (is_negative cfg.max_concurrent
                    || (is_negative cfg.max_attempts
                        || (is_negative cfg.base_backoff || is_negative cfg.max_backoff))))))

abbrev pub or_default : ℤ → ℤ → ℤ
or_default z d = if is_zero z then d else z

-- The assignments of the defaults.
unfoldable pub with_defaults : Config → Config
with_defaults cfg = record cfg {
  request_timeout = or_default cfg.request_timeout default_request_timeout;
  connect_timeout = or_default cfg.connect_timeout default_connect_timeout;
  response_header_timeout = or_default cfg.response_header_timeout default_response_header_timeout;
  max_body_bytes = or_default cfg.max_body_bytes default_max_body_bytes;
  max_concurrent = or_default cfg.max_concurrent default_max_concurrent;
  max_attempts = or_default cfg.max_attempts default_max_attempts;
  base_backoff = or_default cfg.base_backoff default_base_backoff;
  max_backoff = or_default cfg.max_backoff default_max_backoff;
  user_agent = if is_blank cfg.user_agent then default_user_agent else cfg.user_agent;
}

abbrev pub client_of : Config → Client
client_of cfg = record {
  policy = record {
    allow_plain_http = cfg.allow_plain_http;
    allowed_networks = cfg.allowed_networks;
  };
  max_body_bytes = cfg.max_body_bytes;
  user_agent = cfg.user_agent;
  concurrent = cfg.max_concurrent;
  max_attempts = cfg.max_attempts;
  base_backoff = cfg.base_backoff;
  max_backoff = cfg.max_backoff;
  request_timeout = cfg.request_timeout;
  connect_timeout = cfg.connect_timeout;
  response_header_timeout = cfg.response_header_timeout;
}

-- The second guard, and the client.
abbrev pub checked : Config → Result Client
checked cfg =
    if ltz cfg.max_backoff cfg.base_backoff
    then err (plain "feed retrieval maximum backoff must be greater than or equal to base backoff")
    else ok (client_of cfg)

-- The default for the user agent is assigned behind the backoff guard in the source, which does
-- not read it.
unfoldable pub new_client : Config → Result Client
new_client cfg =
    if has_negative cfg
    then err (plain "feed retrieval configuration values must not be negative")
    else checked (with_defaults cfg)

-- Opens all that `new_client` goes through.
unfoldable pub config_run : Unit {0}
unfolding new_client has_negative with_defaults is_blank
config_run = tt
