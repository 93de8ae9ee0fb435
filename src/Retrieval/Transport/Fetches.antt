-- ===== src/Retrieval/Transport/Fetches.antt =====
-- `Fetch` over the client's own transport: what a whole fetch sends and dials, redirects and
-- further attempts included.
use feeds_server.Base.{
  ℕ, zero, suc, ◌+◌, ◌≡◌, refl, inl, inr, String, ◌==◌, false, not, ◌||◌, eqb, Bool-cases, none,
  some, Option-cases, [],
}
use feeds_server.Base.Dict.{Dict, insert, lookup, lookup-insert, lookup-nil}
use feeds_server.Base.Text.{Unicode, trim_space}
use feeds_server.Base.Url.{Url, UrlLibrary}
use feeds_server.Feed.Model.{Time}
use feeds_server.Retrieval.RetryAfter.{HttpDates}
use feeds_server.Retrieval.Policy.{ok, Addresses, validate_url}
use feeds_server.Retrieval.Redirect.Stripped.{Sensitive}
use feeds_server.Retrieval.Dial.{NetDialer}
use feeds_server.Retrieval.Config.{Client}
use feeds_server.Retrieval.Exchange.{FetchRequest, FetchResult, no_result, World, size}
use feeds_server.Retrieval.Fetch.{
  request_header, set_unless_blank, should_retry, retry_delay, fetch_attempt, fetch_loop,
  fetch_with_slot, fetch,
}
use feeds_server.Retrieval.Fetch.Kept.{fetch_attempt-keeps}
use feeds_server.Retrieval.Transport.{HttpLibrary, Traffic, no_traffic, networked}
use feeds_server.Retrieval.Transport.Contained.{
  SameDestination, Contained, Contained-then, SameDestination-accepted, client_do-Contained,
}

insert-absent :
    (key value name : String) (h : Dict String)
    → (key == name) ≡ false
    → lookup name h ≡ none
    → lookup name (insert key value h) ≡ none
insert-absent key value name h other absent = rw (lookup-insert key name value h, other) absent

set_unless_blank-absent :
    (key value name : String) (h : Dict String)
    → (key == name) ≡ false
    → lookup name h ≡ none
    → lookup name (set_unless_blank key value h) ≡ none
set_unless_blank-absent key value name h other absent = elim (Bool-cases (not (value == ""))) [
  | inl given ↦ rw (given, set_unless_blank) (insert-absent key value name h other absent)
  | inr blank ↦ rw (blank, set_unless_blank) absent
]

-- A name that is none of those that `fetchAttempt` sets.
request_header-absent :
    (user_agent : String) (input : FetchRequest) (name : String)
    → ("Accept" == name) ≡ false
    → ("User-Agent" == name) ≡ false
    → ("Cache-Control" == name) ≡ false
    → ("Pragma" == name) ≡ false
    → ("If-None-Match" == name) ≡ false
    → ("If-Modified-Since" == name) ≡ false
    → lookup name (request_header user_agent input) ≡ none
unfolding request_header
request_header-absent user_agent input name a b c d e f =
    set_unless_blank-absent "If-Modified-Since" (trim_space input.last_modified) name _ f (
      set_unless_blank-absent "If-None-Match" (trim_space input.etag) name _ e (
        insert-absent "Pragma" "no-cache" name _ d (
          insert-absent "Cache-Control" "no-cache" name _ c (
            insert-absent "User-Agent" user_agent name _ b
              (insert-absent "Accept" _ name [] a (lookup-nil name))))))

request_header-none :
    (user_agent : String) (input : FetchRequest) (name : String)
    → Sensitive name
    → lookup name (request_header user_agent input) ≡ none
request_header-none user_agent input name s =
    let absent = request_header-absent user_agent input in
    elim s [
      | inl e ↦ rw e (absent "Authorization" refl refl refl refl refl refl)
      | inr (inl e) ↦ rw e (absent "Proxy-Authorization" refl refl refl refl refl refl)
      | inr (inr (inl e)) ↦ rw e (absent "Cookie" refl refl refl refl refl refl)
      | inr (inr (inr e)) ↦ rw e (absent "Referer" refl refl refl refl refl refl)
    ]

module _ {W : Type 0} ⦃dates : HttpDates⦄ ⦃l : UrlLibrary⦄ ⦃d : NetDialer⦄ ⦃n : Addresses⦄
    ⦃u : Unicode⦄ (lib : HttpLibrary W) (base : World W) (c : Client) where
  abbrev over : World (W × Traffic)
  over = networked lib c.policy base

  abbrev Safe : W × Traffic → Type 0
  Safe s = Contained c.policy s.1

  -- Where the request that is made goes to an accepted URL, an attempt stays within the policy.
  fetch_attempt-Safe :
      (url : Url) (input : FetchRequest) (started : Time) (attempt : ℕ) (s : W × Traffic)
      → ((target : Url)
          → base.new_request (l.print url) ≡ ok target
          → validate_url c.policy (some target) ≡ none)
      → Safe s
      → Safe (fetch_attempt over c url input started attempt s).1
  fetch_attempt-Safe url input started attempt s good h =
      fetch_attempt-keeps over c Safe url input started attempt s
        (λ target made. Contained-then c.policy s.1 _ h (
          client_do-Contained c.policy lib _ s.0
            (good target made, request_header-none c.user_agent input)))
        h

  fetch_loop-Safe :
      (url : Url) (input : FetchRequest) (started : Time) (rounds attempt : ℕ) (last : FetchResult)
      (s : W × Traffic)
      → ((target : Url)
          → base.new_request (l.print url) ≡ ok target
          → validate_url c.policy (some target) ≡ none)
      → Safe s
      → Safe (fetch_loop over c url input started rounds attempt last s).1
  unfolding fetch_loop
  fetch_loop-Safe url input started zero attempt last s good h = h
  fetch_loop-Safe url input started (suc rounds) attempt last s good h =
      let sent = fetch_attempt over c url input started attempt s in
      let outcome = sent.0 in
      let safe = fetch_attempt-Safe url input started attempt s good h in
      elim (Option-cases (over.ctx_err s)) [
        | inr (e, over_now) ↦ rw (fetch_loop, over_now) h
        | inl running ↦ elim (Option-cases outcome.error) [
          | inl fine ↦ rw (fetch_loop, running, fine) safe
          | inr (e, failed) ↦
              elim (Bool-cases
                (eqb attempt (size c.max_attempts) || not (should_retry (over.ctx_err sent.1) e))) [
                  | inl final ↦ rw (fetch_loop, running, failed, final) safe
                  | inr again ↦
                      elim (Option-cases
                        (over.sleep (retry_delay c outcome.retry_after attempt) sent.1).0) [
                          | inr (e', stopped) ↦
                              rw (fetch_loop, running, failed, again, stopped) safe
                          | inl woken ↦
                              rw (fetch_loop, running, failed, again, woken)
                                (fetch_loop-Safe url input started rounds (attempt + 1)
                                  outcome.result _ good safe)
                        ]
                ]
        ]
      ]

  -- Of what is parsed, printed and parsed again, the destination is the same.
  module _
      (reads : (text : String) (url target : Url)
        → l.parse text ≡ some url
        → base.new_request (l.print url) ≡ ok target
        → SameDestination target url) where
    fetch_with_slot-Safe :
        (input : FetchRequest) (s : W × Traffic) → Safe s → Safe (fetch_with_slot over c input s).1
    unfolding fetch_with_slot
    fetch_with_slot-Safe input s h = elim (Option-cases (l.parse (trim_space input.url))) [
      | inl bad ↦ rw (fetch_with_slot, bad) h
      | inr (url, parsed) ↦ elim (Option-cases (validate_url c.policy (some url))) [
        | inr (e, blocked) ↦ rw (fetch_with_slot, parsed, blocked) h
        | inl accepted ↦
            rw (fetch_with_slot, parsed, accepted)
              (fetch_loop-Safe url input (over.now s) (size c.max_attempts) 1 no_result s
                (λ target made.
                  SameDestination-accepted c.policy target url (reads _ url target parsed made)
                    accepted)
                h)
      ]
    ]

    -- Where printing and parsing a URL keep its destination, every request that a fetch sends,
    -- redirects and further attempts included, goes to a URL that the policy accepts and carries
    -- no credentials, cookie or referrer, and every address that it dials is accepted by the policy.
    pub fetch-Contained :
        (input : FetchRequest) (w : W) → Contained c.policy (fetch over c input (w, no_traffic)).1.1
    unfolding fetch
    fetch-Contained input w = elim (Option-cases (base.acquire w).0) [
      | inr (e, busy) ↦ rw (fetch, busy) (tt, tt)
      | inl free ↦
          rw (fetch, free) (fetch_with_slot-Safe input ((base.acquire w).1, no_traffic) (tt, tt))
    ]
