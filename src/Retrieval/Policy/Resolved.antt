-- ===== src/Retrieval/Policy/Resolved.antt =====
-- What `resolveAllowed` and `ValidateURL` let through.
use feeds_server.Base.{
  ◌≡◌, ◌≢◌, ◌⊎◌, ◌↔◌, inl, inr, refl, sym, ◌∙◌, arith, String, eq_iff, true, none, some, List, [],
  ◌∷◌, ◌++◌, map, Option-cases,
}
use feeds_server.Base.Seq.{All}
use feeds_server.Base.Text.{Unicode, to_lower}
use feeds_server.Base.Url.{Url, hostname}
use feeds_server.Base.Address.{Addr, invalid, v4, v6, unmap}
use feeds_server.Retrieval.Error.{Error}
use feeds_server.Retrieval.Policy.{
  Result, ok, err, DestinationPolicy, Addresses, validate_address, validate_all, resolve_error,
  resolve_literal, resolve_answer, resolve_allowed, validate_host, validate_url,
}

-- The addresses that the policy accepts.
abbrev pub Accepts : DestinationPolicy → Addr → Type 0
Accepts p a = validate_address p a ≡ none

unmap_idem : (a : Addr) → unmap (unmap a) ≡ unmap a
unmap_idem invalid = refl
unmap_idem (v4 a) = refl
unmap_idem (v6 a z) = ground arith

validate-unmap :
    (p : DestinationPolicy) (a : Addr) → validate_address p (unmap a) ≡ validate_address p a
unfolding validate_address
validate-unmap p a = rw unmap_idem

pub Result-cases :
    {A : Type 0} (r : Result A) → ((a : A) × (r ≡ ok a)) ⊎ ((e : Error) × (r ≡ err e))
Result-cases (ok a) = inl (a, refl)
Result-cases (err e) = inr (e, refl)

-- The loop over the answers accepts all of them or returns an error.
validate_all-ok :
    (p : DestinationPolicy) (host : String) (as' out : List Addr)
    → validate_all p host as' ≡ ok out
    → (out ≡ map unmap as') × All (Accepts p) as'
unfolding validate_all
validate_all-ok p host [] out h = ground arith
validate_all-ok p host (a ∷ as') out h = elim (Option-cases (validate_address p (unmap a))) [
  | inr (e, bad) ↦ absurd (cc (rw (bad, validate_all) at h))
  | inl good ↦ elim (Result-cases (validate_all p host as')) [
    | inr (e, bad) ↦ absurd (cc (rw (good, validate_all, bad) at h))
    | inl (rest, fine) ↦
        let (same, accepted) = validate_all-ok p host as' rest fine in
        (
          ground (arith, rw (good, validate_all, fine) at h),
          (sym (validate-unmap p a) ∙ good, accepted),
        )
  ]
]

All-map-unmap :
    (p : DestinationPolicy) (as' : List Addr)
    → All (Accepts p) as'
    → All (Accepts p) (map unmap as')
All-map-unmap p [] h = tt
All-map-unmap p (a ∷ as') (h, hs) = (validate-unmap p a ∙ h, All-map-unmap p as' hs)

resolve_literal-Accepts :
    (p : DestinationPolicy) (a : Addr) (out : List Addr)
    → resolve_literal (validate_address p a) a ≡ ok out
    → All (Accepts p) out × (out ≢ [])
resolve_literal-Accepts p a out h = elim (Option-cases (validate_address p a)) [
  | inr (e, bad) ↦ absurd (cc (rw (bad, resolve_literal) at h))
  | inl good ↦
      let same : out ≡ unmap a ∷ [] = ground (arith, rw (good, resolve_literal) at h) in
      rw same ((validate-unmap p a ∙ good, tt), λ e. cc)
]

resolve_answer-Accepts :
    (p : DestinationPolicy) (host : String) (r : Result (List Addr)) (out : List Addr)
    → resolve_answer p host r ≡ ok out
    → All (Accepts p) out × (out ≢ [])
resolve_answer-Accepts p host (err e) out h = absurd (cc)
resolve_answer-Accepts p host (ok []) out h = absurd (cc)
resolve_answer-Accepts p host (ok (a ∷ rest)) out h =
    let (same, accepted) = validate_all-ok p host (a ∷ rest) out h in
    rw same (All-map-unmap p (a ∷ rest) accepted, λ e. cc)

validate_all_rejects :
    (p : DestinationPolicy) (host : String) (before after : List Addr) (a : Addr)
    → validate_address p a ≢ none
    → (e : Error) × (validate_all p host (before ++ a ∷ after) ≡ err e)
unfolding validate_all
validate_all_rejects p host [] after a bad = elim (Option-cases (validate_address p a)) [
  | inl good ↦ absurd (bad good)
  | inr (e, rejected) ↦ (resolve_error host e, rw (validate-unmap p a, rejected, validate_all))
]
validate_all_rejects p host (b ∷ before) after a bad =
    let (e', later) = validate_all_rejects p host before after a bad in
    elim (Option-cases (validate_address p (unmap b))) [
      | inr (e, rejected) ↦ (resolve_error host e, rw (rejected, validate_all))
      | inl good ↦ (e', rw (good, validate_all, later))
    ]

-- Where a host is resolved without an error, every address of the result is accepted by the
-- policy, and there is one.
pub resolve_allowed-Accepts :
    ⦃n : Addresses⦄ (p : DestinationPolicy) (host : String) (out : List Addr)
    → resolve_allowed p host ≡ ok out
    → All (Accepts p) out × (out ≢ [])
unfolding resolve_allowed
resolve_allowed-Accepts ⦃n⦄ p host out h = elim (Option-cases (n.parse_addr host)) [
  | inr (a, literal) ↦ resolve_literal-Accepts p a out (rw (literal, resolve_allowed) at h)
  | inl name ↦
      resolve_answer-Accepts p host (n.lookup_net_ip host) out (rw (name, resolve_allowed) at h)
]

resolve_answer_rejects :
    (p : DestinationPolicy) (host : String) (before after : List Addr) (a : Addr) (e : Error)
    → validate_all p host (before ++ a ∷ after) ≡ err e
    → resolve_answer p host (ok (before ++ a ∷ after)) ≡ err e
resolve_answer_rejects p host [] after a e h = h
resolve_answer_rejects p host (b ∷ before) after a e h = h

-- For a host that is a name, one answer that the policy rejects is enough for the whole look-up
-- to fail.
pub resolve_allowed_rejects :
    ⦃n : Addresses⦄ (p : DestinationPolicy) (host : String) (before after : List Addr) (a : Addr)
    → n.parse_addr host ≡ none
    → n.lookup_net_ip host ≡ ok (before ++ a ∷ after)
    → validate_address p a ≢ none
    → (e : Error) × (resolve_allowed p host ≡ err e)
unfolding resolve_allowed
resolve_allowed_rejects p host before after a literal answer bad =
    let (e, rejected) = validate_all_rejects p host before after a bad in
    (
      e,
      rw (literal, resolve_allowed, answer)
          (resolve_answer_rejects p host before after a e rejected),
    )

-- A URL is accepted exactly when it has a scheme, a host with a name and no credentials, its
-- scheme is https, or http where that is allowed, and its host is no rejected address.
pub validate_url-eq-none_iff :
    ⦃n : Addresses⦄ ⦃u : Unicode⦄ (p : DestinationPolicy) (url : Url)
    → (validate_url p (some url) ≡ none) ↔ (
        (url.scheme ≢ "")
        × (url.host ≢ "")
        × (hostname url ≢ "")
        × (url.user ≡ none)
        × ((to_lower url.scheme ≡ "https")
            ⊎ ((to_lower url.scheme ≡ "http") × (p.allow_plain_http ≡ true)))
        × (validate_host p (hostname url) ≡ none))
unfolding validate_url
validate_url-eq-none_iff p url = ground (
  arith,
  eq_iff url.scheme "",
  eq_iff url.host "",
  eq_iff (hostname url) "",
  eq_iff (to_lower url.scheme) "https",
  eq_iff (to_lower url.scheme) "http",
)
