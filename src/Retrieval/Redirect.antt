-- ===== src/Retrieval/Redirect.antt =====
-- `checkRedirect`, `sameOrigin` and `effectivePort` of internal/retrieval/client.go.
pub mod Stripped
use feeds_server.Base.{
  ℕ, String, ◌==◌, Bool, true, false, ◌&&◌, not, ltb, Option, none, some, List, [], ◌∷◌,
  if◌then◌else◌,
}
use feeds_server.Base.Seq.{length}
use feeds_server.Base.Dict.{Dict, remove}
use feeds_server.Base.Text.{Unicode, to_lower, equal_fold}
use feeds_server.Base.Url.{Url, hostname, port}
use feeds_server.Retrieval.Error.{Error, sentinel, too_many_redirects, https_downgrade}
use feeds_server.Retrieval.Policy.{DestinationPolicy, Addresses, validate_url}

-- What the program reads and writes of an `*http.Request`. The header's names are canonical and
-- have one value each.
pub record Request : Type 0 where
  pub url : Url
  pub header : Dict String

abbrev pub max_redirects : ℕ
max_redirects = 5

-- `via[len(via)-1]`
unfoldable pub last_of : List Request → Option Request
last_of [] = none
last_of (r ∷ []) = some r
last_of (r ∷ rs) = last_of rs

-- The four deletions at the end of `checkRedirect`.
abbrev pub strip_credentials : Dict String → Dict String
strip_credentials header =
    remove "Referer"
      (remove "Cookie" (remove "Proxy-Authorization" (remove "Authorization" header)))

module _ ⦃u : Unicode⦄ where
  unfoldable pub effective_port : Option Url → String
  effective_port none = ""
  effective_port (some url) =
      if not (port url == "")
      then port url
      else if to_lower url.scheme == "https"
      then "443"
      else if to_lower url.scheme == "http"
      then "80"
      else ""

  unfoldable pub same_origin : Option Url → Option Url → Bool
  same_origin (some left) (some right) =
      equal_fold left.scheme right.scheme
      && (equal_fold (hostname left) (hostname right)
          && effective_port (some left) == effective_port (some right))
  same_origin _ _ = false

  -- An https request that is sent on to http.
  unfoldable pub is_downgrade : Option Request → Request → Bool
  is_downgrade none req = false
  is_downgrade (some from) req =
      equal_fold from.url.scheme "https" && equal_fold req.url.scheme "http"

  -- The validators belong to the origin that gave them.
  unfoldable pub strip_validators : Option Request → Request → Dict String
  strip_validators none req = req.header
  strip_validators (some from) req =
      if not (same_origin (some from.url) (some req.url))
      then remove "If-Modified-Since" (remove "If-None-Match" req.header)
      else req.header

  -- The request that is sent on, or the error; the header is changed only where there is none.
  unfoldable pub check_redirect :
      ⦃n : Addresses⦄ → DestinationPolicy → Request → List Request → Option Error × Request
  check_redirect p req via =
      if ltb max_redirects (length via)
      then (some (sentinel too_many_redirects), req)
      else if is_downgrade (last_of via) req
      then (some (sentinel https_downgrade), req)
      else elim (validate_url p (some req.url)) [
        | some e ↦ (some e, req)
        | none ↦
            (none, record req { header = strip_credentials (strip_validators (last_of via) req) })
      ]

-- Opens all that `check_redirect` goes through, behind the policy.
unfoldable pub redirect_run : Unit {0}
unfolding check_redirect strip_validators is_downgrade same_origin effective_port equal_fold last_of
redirect_run = tt
