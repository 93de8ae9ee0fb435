-- ===== src/Retrieval/Transport/Redirects.antt =====
-- How a call of `Do` goes on from request to request, without a count of the rounds.
use feeds_server.Base.{
  ℕ, zero, suc, ◌+◌, ◌≤◌, ◌<◌, ◌≡◌, ap, ◌∙◌, arith, inl, inr, none, some, Option-cases, List, [],
  ◌∷◌, ◌++◌,
}
use feeds_server.Base.Seq.{length, length-append}
use feeds_server.Base.Text.{Unicode}
use feeds_server.Retrieval.Error.{Error}
use feeds_server.Retrieval.Policy.{ok, err, DestinationPolicy, Addresses}
use feeds_server.Retrieval.Policy.Resolved.{Result-cases}
use feeds_server.Retrieval.Redirect.{Request, max_redirects, check_redirect}
use feeds_server.Retrieval.Redirect.Stripped.{check_redirect-eq-none_iff}
use feeds_server.Retrieval.Dial.{NetDialer}
use feeds_server.Retrieval.Exchange.{Response}
use feeds_server.Retrieval.Transport.{
  HttpLibrary, Done, round_trip, failed, after, do_from, client_do,
}
use feeds_server.Retrieval.Transport.Sent.{round_trip-requests}

module _ {W : Type 0} ⦃d : NetDialer⦄ ⦃n : Addresses⦄ ⦃u : Unicode⦄ (lib : HttpLibrary W)
    (p : DestinationPolicy) where
  -- A request, the requests before it, and how the call ends. There is no way to end for want of
  -- rounds.
  pub data Exchange : Request → List Request → W → Done W → Type 0 where
    -- The transport fails.
    broken :
        (req : Request) (via : List Request) (w : W) (e : Error)
        → (round_trip lib p req w).answer ≡ err e
        → Exchange req via w (failed lib p (round_trip lib p req w) e)
    -- The response is the last one.
    answered :
        (req : Request) (via : List Request) (w : W) (resp : Response)
        → (round_trip lib p req w).answer ≡ ok resp
        → lib.redirected via req resp ≡ none
        → Exchange req via w (round_trip lib p req w)
    -- The redirect cannot be understood.
    misled :
        (req : Request) (via : List Request) (w : W) (resp : Response) (e : Error)
        → (round_trip lib p req w).answer ≡ ok resp
        → lib.redirected via req resp ≡ some (err e)
        → Exchange req via w (failed lib p (round_trip lib p req w) e)
    -- `checkRedirect` refuses the next request, which is not sent.
    refused :
        (req : Request) (via : List Request) (w : W) (resp : Response) (next : Request) (e : Error)
        → (round_trip lib p req w).answer ≡ ok resp
        → lib.redirected via req resp ≡ some (ok next)
        → (check_redirect p next (via ++ req ∷ [])).0 ≡ some e
        → Exchange req via w (failed lib p (round_trip lib p req w) e)
    -- The next request is sent as `checkRedirect` leaves it.
    followed :
        (req : Request) (via : List Request) (w : W) (resp : Response) (next : Request)
        (rest : Done W)
        → (round_trip lib p req w).answer ≡ ok resp
        → lib.redirected via req resp ≡ some (ok next)
        → (check_redirect p next (via ++ req ∷ [])).0 ≡ none
        → Exchange
            (check_redirect p next (via ++ req ∷ [])).1
            (via ++ req ∷ [])
            (round_trip lib p req w).world
            rest
        → Exchange req via w (after lib p (round_trip lib p req w) rest)

  -- One round, from how the rounds after it end where the next request is sent.
  do_round :
      (rounds : ℕ) (req : Request) (via : List Request) (w : W)
      → ((next : Request)
          → (check_redirect p next (via ++ req ∷ [])).0 ≡ none
          → Exchange
              (check_redirect p next (via ++ req ∷ [])).1
              (via ++ req ∷ [])
              (round_trip lib p req w).world
              (do_from lib p rounds
                (check_redirect p next (via ++ req ∷ [])).1
                (via ++ req ∷ [])
                (round_trip lib p req w).world))
      → Exchange req via w (do_from lib p (suc rounds) req via w)
  unfolding do_from
  do_round rounds req via w rest =
      let sent = round_trip lib p req w in
      elim (Result-cases sent.answer) [
        | inr (e, down) ↦ rw (do_from, down) (broken req via w e down)
        | inl (resp, up) ↦ elim (Option-cases (lib.redirected via req resp)) [
          | inl last ↦ rw (do_from, up, last) (answered req via w resp up last)
          | inr (target, more) ↦ elim (Result-cases target) [
            | inr (e, bad) ↦
                rw (do_from, up, more, bad) (misled req via w resp e up (more ∙ ap some bad))
            | inl (next, good) ↦ elim (Option-cases (check_redirect p next (via ++ req ∷ [])).0) [
              | inr (e, stop) ↦
                  rw (do_from, up, more, good, stop)
                    (refused req via w resp next e up (more ∙ ap some good) stop)
              | inl may ↦
                  rw (do_from, up, more, good, may)
                    (followed req via w resp next _ up (more ∙ ap some good) may (rest next may))
            ]
          ]
        ]
      ]

  followed_length :
      (req next : Request) (via : List Request)
      → (check_redirect p next (via ++ req ∷ [])).0 ≡ none
      → length via < max_redirects
  followed_length req next via may =
      let (short, _, _) = (check_redirect-eq-none_iff p next (via ++ req ∷ [])).0 may in
      omega (arith, short, length-append via (req ∷ []))

  do_from-Exchange :
      (rounds : ℕ) (req : Request) (via : List Request) (w : W)
      → max_redirects ≤ length via + rounds
      → Exchange req via w (do_from lib p (suc rounds) req via w)
  do_from-Exchange zero req via w room =
      do_round zero req via w
        (λ next may. absurd (omega (arith, room, followed_length req next via may)))
  do_from-Exchange (suc m) req via w room = do_round (suc m) req via w (λ next may.
      do_from-Exchange m _ (via ++ req ∷ []) _ (omega (arith, room, length-append via (req ∷ []))))

  pub client_do-Exchange : (req : Request) (w : W) → Exchange req [] w (client_do lib p req w)
  unfolding client_do
  client_do-Exchange req w = do_from-Exchange max_redirects req [] w (omega arith)

  round_trip-length : (req : Request) (w : W) → length (round_trip lib p req w).traffic.requests ≤ 1
  round_trip-length req w = elim (round_trip-requests lib p req w) [
    | inl none_sent ↦ rw none_sent (omega arith)
    | inr one_sent ↦ rw one_sent (omega arith)
  ]

  Exchange-length :
      (req : Request) (via : List Request) (w : W) (done : Done W)
      → length via ≤ max_redirects
      → Exchange req via w done
      → length via + length done.traffic.requests ≤ suc max_redirects
  Exchange-length req via _ _ h (broken _ _ w e down) = omega (arith, h, round_trip-length req w)
  Exchange-length req via _ _ h (answered _ _ w resp up last) =
      omega (arith, h, round_trip-length req w)
  Exchange-length req via _ _ h (misled _ _ w resp e up bad) =
      omega (arith, h, round_trip-length req w)
  Exchange-length req via _ _ h (refused _ _ w resp next e up good stop) =
      omega (arith, h, round_trip-length req w)
  Exchange-length req via _ _ h (followed _ _ w resp next rest up good may more) = omega (
    arith,
    h,
    followed_length req next via may,
    round_trip-length req w,
    length-append via (req ∷ []),
    length-append (round_trip lib p req w).traffic.requests rest.traffic.requests,
    Exchange-length _ (via ++ req ∷ []) _ _
        (omega (arith, followed_length req next via may, length-append via (req ∷ []))) more,
  )

  -- Every call of `Do` ends by an answer, an error of the transport, a redirect that cannot be
  -- understood or one that `checkRedirect` refuses, and never for want of rounds; it sends each
  -- next request only as `checkRedirect` leaves it, and at most as many requests as there are
  -- redirects allowed and one more.
  pub client_do-ends :
      (req : Request) (w : W)
      → Exchange req [] w (client_do lib p req w)
        × (length (client_do lib p req w).traffic.requests ≤ suc max_redirects)
  client_do-ends req w =
      let run = client_do-Exchange req w in
      (run, omega (arith, Exchange-length req [] w _ (omega arith) run))
