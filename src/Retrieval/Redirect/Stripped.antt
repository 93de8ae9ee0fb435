-- ===== src/Retrieval/Redirect/Stripped.antt =====
-- What a redirect that is followed may go to, and what it takes along.
use feeds_server.Base.{
  ◌≤◌, ◌≡◌, ◌⊎◌, ◌↔◌, inl, inr, ◌∙◌, arith, String, ◌==◌, eq_iff, true, false, none, some, List,
  if◌then◌else◌,
}
use feeds_server.Base.Seq.{length}
use feeds_server.Base.Dict.{Dict, lookup, remove, lookup-remove}
use feeds_server.Base.Text.{Unicode}
use feeds_server.Retrieval.Policy.{DestinationPolicy, Addresses, validate_url}
use feeds_server.Retrieval.Redirect.{
  Request, max_redirects, last_of, same_origin, is_downgrade, strip_validators, strip_credentials,
  check_redirect,
}

-- A header field that no redirect takes along.
abbrev pub Sensitive : String → Type 0
Sensitive name =
    (name ≡ "Authorization")
    ⊎ ((name ≡ "Proxy-Authorization") ⊎ ((name ≡ "Cookie") ⊎ (name ≡ "Referer")))

-- The validators of a conditional request.
abbrev pub Validator : String → Type 0
Validator name = (name ≡ "If-None-Match") ⊎ (name ≡ "If-Modified-Since")

lookup-strip_credentials :
    (name : String) (h : Dict String)
    → lookup name (strip_credentials h) ≡ (
        if "Referer" == name
        then none
        else if "Cookie" == name
        then none
        else if "Proxy-Authorization" == name
        then none
        else if "Authorization" == name
        then none
        else lookup name h)
lookup-strip_credentials name h = simp lookup-remove

credentials-none :
    (name : String) (h : Dict String) → Sensitive name → lookup name (strip_credentials h) ≡ none
credentials-none name h s = rw lookup-strip_credentials (
    ground (
      arith,
      eq_iff "Referer" name,
      eq_iff "Cookie" name,
      eq_iff "Proxy-Authorization" name,
      eq_iff "Authorization" name,
    ))

credentials-same :
    (name : String) (h : Dict String)
    → ¬ Sensitive name
    → lookup name (strip_credentials h) ≡ lookup name h
credentials-same name h s = rw lookup-strip_credentials (
    ground (
      arith,
      eq_iff "Referer" name,
      eq_iff "Cookie" name,
      eq_iff "Proxy-Authorization" name,
      eq_iff "Authorization" name,
    ))

credentials-absent :
    (name : String) (h : Dict String)
    → lookup name h ≡ none
    → lookup name (strip_credentials h) ≡ none
credentials-absent name h e = rw lookup-strip_credentials (ground arith)

module _ ⦃u : Unicode⦄ (from req : Request) (name : String) where
  lookup-strip_validators : lookup name (strip_validators (some from) req) ≡ (
      if same_origin (some from.url) (some req.url)
      then lookup name req.header
      else if "If-Modified-Since" == name
      then none
      else if "If-None-Match" == name
      then none
      else lookup name req.header)
  unfolding strip_validators
  lookup-strip_validators = ground (
    arith,
    lookup-remove "If-Modified-Since" name (remove "If-None-Match" req.header),
    lookup-remove "If-None-Match" name req.header,
  )

  validators-none :
      same_origin (some from.url) (some req.url) ≡ false
      → Validator name
      → lookup name (strip_validators (some from) req) ≡ none
  validators-none other v =
      rw (lookup-strip_validators, other)
        (ground (arith, eq_iff "If-Modified-Since" name, eq_iff "If-None-Match" name))

  validators-same :
      ((same_origin (some from.url) (some req.url) ≡ true) ⊎ ¬ Validator name)
      → lookup name (strip_validators (some from) req) ≡ lookup name req.header
  validators-same allowed =
      rw lookup-strip_validators
        (ground (arith, eq_iff "If-Modified-Since" name, eq_iff "If-None-Match" name))

module _ ⦃u : Unicode⦄ ⦃n : Addresses⦄ where
  -- A redirect is followed exactly when at most five requests went before, it does not go from
  -- https to http, and the policy accepts its URL.
  pub check_redirect-eq-none_iff :
      (p : DestinationPolicy) (req : Request) (via : List Request)
      → ((check_redirect p req via).0 ≡ none) ↔ (
          (length via ≤ max_redirects)
          × (is_downgrade (last_of via) req ≡ false)
          × (validate_url p (some req.url) ≡ none))
  unfolding check_redirect
  check_redirect-eq-none_iff p req via = ground arith

  followed_header :
      (p : DestinationPolicy) (req : Request) (via : List Request)
      → (check_redirect p req via).0 ≡ none
      → (check_redirect p req via).1.header ≡ strip_credentials (strip_validators (last_of via) req)
  unfolding check_redirect
  followed_header p req via h = ground arith

  -- A redirect that is followed carries no credentials and no referrer, and, where it leaves the
  -- origin of the request before, none of its validators.
  pub check_redirect-strips :
      (p : DestinationPolicy) (req : Request) (via : List Request) (from : Request) (name : String)
      → (check_redirect p req via).0 ≡ none
      → last_of via ≡ some from
      → Sensitive name ⊎ ((same_origin (some from.url) (some req.url) ≡ false) × Validator name)
      → lookup name (check_redirect p req via).1.header ≡ none
  check_redirect-strips p req via from name h last which =
      rw (followed_header p req via h, last)
        (elim which [
          | inl s ↦ credentials-none name _ s
          | inr (other, v) ↦ credentials-absent name _ (validators-none from req name other v)
        ])

  -- Every other field of the header is the same after a redirect that is followed; within the
  -- origin the validators are kept too.
  pub check_redirect-keeps :
      (p : DestinationPolicy) (req : Request) (via : List Request) (from : Request) (name : String)
      → (check_redirect p req via).0 ≡ none
      → last_of via ≡ some from
      → ¬ Sensitive name
      → ((same_origin (some from.url) (some req.url) ≡ true) ⊎ ¬ Validator name)
      → lookup name (check_redirect p req via).1.header ≡ lookup name req.header
  check_redirect-keeps p req via from name h last plain allowed =
      rw (followed_header p req via h, last)
        (credentials-same name _ plain ∙ validators-same from req name allowed)
