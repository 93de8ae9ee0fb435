-- ===== src/Retrieval/Error.antt =====
-- The errors of internal/retrieval, as `errors.Is` and `errors.As` see them.
use feeds_server.Base.{ℕ, String, Bool, false, true, ◌||◌, Option, none, some}

-- The sentinels `Err…` of client.go and policy.go, and the errors of a context.
pub data Sentinel : Type 0 where
  response_too_large https_downgrade too_many_redirects : Sentinel
  destination_blocked embedded_credentials unsupported_scheme : Sentinel
  canceled deadline_exceeded : Sentinel

abbrev pub same_sentinel : Sentinel → Sentinel → Bool
same_sentinel response_too_large response_too_large = true
same_sentinel https_downgrade https_downgrade = true
same_sentinel too_many_redirects too_many_redirects = true
same_sentinel destination_blocked destination_blocked = true
same_sentinel embedded_credentials embedded_credentials = true
same_sentinel unsupported_scheme unsupported_scheme = true
same_sentinel canceled canceled = true
same_sentinel deadline_exceeded deadline_exceeded = true
same_sentinel _ _ = false

mutual
  -- `wrapped` is `fmt.Errorf` with `%w`, `joined` is `errors.Join`, `plain` wraps nothing.
  pub data Error : Type 0 where
    sentinel : Sentinel → Error
    http_status : ℕ → Error
    wrapped : String → Error → Error
    joined : Errors → Error
    plain : String → Error

  pub data Errors : Type 0 where
    nil : Errors
    cons : Error → Errors → Errors

unfoldable mutual
  -- `errors.Is`
  pub is : Sentinel → Error → Bool
  is s (sentinel t) = same_sentinel s t
  is s (http_status n) = false
  is s (wrapped message e) = is s e
  is s (joined es) = any_is s es
  is s (plain message) = false

  pub any_is : Sentinel → Errors → Bool
  any_is s nil = false
  any_is s (cons e es) = is s e || any_is s es

abbrev or_else : Option ℕ → Option ℕ → Option ℕ
or_else none o = o
or_else (some n) o = some n

unfoldable mutual
  -- `errors.As` into a `*HTTPStatusError`: its status code.
  pub as_status : Error → Option ℕ
  as_status (sentinel t) = none
  as_status (http_status n) = some n
  as_status (wrapped message e) = as_status e
  as_status (joined es) = first_status es
  as_status (plain message) = none

  pub first_status : Errors → Option ℕ
  first_status nil = none
  first_status (cons e es) = or_else (as_status e) (first_status es)
