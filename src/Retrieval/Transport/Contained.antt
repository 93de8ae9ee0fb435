-- ===== src/Retrieval/Transport/Contained.antt =====
-- What the requests of a whole `Fetch` send and dial, redirects and further attempts included.
use feeds_server.Base.{
  ◌≡◌, ◌∙◌, refl, sym, arith, inl, inr, String, none, some, List, [], ◌∷◌, ◌++◌,
}
use feeds_server.Base.Seq.{All, All-append}
use feeds_server.Base.Dict.{lookup}
use feeds_server.Base.Text.{Unicode}
use feeds_server.Base.Url.{Url, hostname}
use feeds_server.Retrieval.Policy.{DestinationPolicy, Addresses, validate_url}
use feeds_server.Retrieval.Policy.Resolved.{Accepts, validate_url-eq-none_iff}
use feeds_server.Retrieval.Redirect.{Request, last_of, check_redirect}
use feeds_server.Retrieval.Redirect.Stripped.{
  Sensitive, check_redirect-eq-none_iff, check_redirect-strips,
}
use feeds_server.Retrieval.Dial.{NetDialer}
use feeds_server.Retrieval.Transport.{
  HttpLibrary, Traffic, then_traffic, Done, round_trip, client_do,
}
use feeds_server.Retrieval.Transport.Sent.{round_trip-requests, round_trip-Accepts}
use feeds_server.Retrieval.Transport.Redirects.{
  Exchange, broken, answered, misled, refused, followed, client_do-Exchange,
}

last_of-concat : (via : List Request) (req : Request) → last_of (via ++ req ∷ []) ≡ some req
unfolding last_of
last_of-concat [] req = refl
last_of-concat (a ∷ []) req = refl
last_of-concat (a ∷ b ∷ via) req = last_of-concat (b ∷ via) req

-- The destination of a URL, as far as a policy reads it.
abbrev pub SameDestination : Url → Url → Type 0
SameDestination t url = (t.scheme ≡ url.scheme) × (hostname t ≡ hostname url) × (t.user ≡ url.user)

module _ ⦃n : Addresses⦄ ⦃u : Unicode⦄ (p : DestinationPolicy) where
  -- A request that the policy accepts, with nothing in its header that names a user or a page.
  abbrev pub Permitted : Request → Type 0
  Permitted r =
      (validate_url p (some r.url) ≡ none)
      × ((name : String) → Sensitive name → lookup name r.header ≡ none)

  abbrev pub Contained : Traffic → Type 0
  Contained t = All Permitted t.requests × All (Accepts p) t.dials

  pub Contained-then : (a b : Traffic) → Contained a → Contained b → Contained (then_traffic a b)
  Contained-then a b (ra, da) (rb, db) = (
    All-append Permitted a.requests b.requests ra rb,
    All-append (Accepts p) a.dials b.dials da db,
  )

  check_redirect-url :
      (next : Request) (via : List Request) → (check_redirect p next via).1.url ≡ next.url
  unfolding check_redirect
  check_redirect-url next via = ground arith

  check_redirect-Permitted :
      (next req : Request) (via : List Request)
      → (check_redirect p next (via ++ req ∷ [])).0 ≡ none
      → Permitted (check_redirect p next (via ++ req ∷ [])).1
  check_redirect-Permitted next req via may =
      let (_, _, accepted) = (check_redirect-eq-none_iff p next (via ++ req ∷ [])).0 may in
      (
        rw check_redirect-url accepted,
        λ name s.
            check_redirect-strips p next (via ++ req ∷ []) req name may (last_of-concat via req)
              (inl s),
      )

  host-none : (t : Url) → t.host ≡ "" → hostname t ≡ ""
  unfolding hostname
  host-none t h = rw h refl

  pub SameDestination-accepted :
      (t url : Url)
      → SameDestination t url
      → validate_url p (some url) ≡ none
      → validate_url p (some t) ≡ none
  SameDestination-accepted t url (scheme, host, user) h =
      let (a, b, c, d, e, f) = (validate_url-eq-none_iff p url).0 h in
      (validate_url-eq-none_iff p t).1 (
        rw scheme a,
        λ no_host. c (sym host ∙ host-none t no_host),
        rw host c,
        rw user d,
        rw scheme e,
        rw host f,
      )

  module _ {W : Type 0} ⦃d : NetDialer⦄ (lib : HttpLibrary W) where
    round_trip-Contained :
        (req : Request) (w : W) → Permitted req → Contained (round_trip lib p req w).traffic
    round_trip-Contained req w h = elim (round_trip-requests lib p req w) [
      | inl none_sent ↦ (rw none_sent tt, round_trip-Accepts lib p req w)
      | inr one_sent ↦ (rw one_sent (h, tt), round_trip-Accepts lib p req w)
    ]

    Exchange-Contained :
        (req : Request) (via : List Request) (w : W) (done : Done W)
        → Permitted req
        → Exchange lib p req via w done
        → Contained done.traffic
    Exchange-Contained req via _ _ h (broken _ _ w e down) = round_trip-Contained req w h
    Exchange-Contained req via _ _ h (answered _ _ w resp up last) = round_trip-Contained req w h
    Exchange-Contained req via _ _ h (misled _ _ w resp e up bad) = round_trip-Contained req w h
    Exchange-Contained req via _ _ h (refused _ _ w resp next e up good stop) =
        round_trip-Contained req w h
    Exchange-Contained req via _ _ h (followed _ _ w resp next rest up good may more) =
        Contained-then (round_trip lib p req w).traffic rest.traffic (round_trip-Contained req w h)
          (Exchange-Contained _ _ _ rest (check_redirect-Permitted next req via may) more)

    pub client_do-Contained :
        (req : Request) (w : W) → Permitted req → Contained (client_do lib p req w).traffic
    client_do-Contained req w h = Exchange-Contained req [] w _ h (client_do-Exchange lib p req w)
