-- ===== src/Http/Program/Ending.antt =====
-- How the process ends.
use feeds_server.Base.{
  ℕ, zero, suc, ◌≡◌, ◌≢◌, ◌⊎◌, inl, inr, refl, subst, String, Bool, true, false, Bool-cases, Option,
  none, some, List, [], ◌∷◌, ◌++◌,
}
use feeds_server.Http.Program.{
  waiting, draining, is_shut, running, returned, fatal, HttpServer, Message, listening_on,
  server_failed, Process, launched, listen_address, drained, finished, Step, requested, responded,
  signalled, shut, served, Reach, start, step,
}

module _ {E : Type 0} (http : HttpServer E) (listen : Option String) where
  -- Status 0 only behind a call of `Shutdown`, and status 1 only with its error in the log.
  abbrev pub EndsWell : Process E → Type 0
  EndsWell p =
      (p.status ≡ running)
      ⊎ (((p.status ≡ returned) × (p.goroutine ≢ waiting))
          ⊎ ((p.status ≡ fatal)
              × (e : E) × (http.is_server_closed e ≡ false)
              × (before : List (Message E)) × (p.log ≡ before ++ server_failed e ∷ [])))

  drained-running :
      (p : Process E) (r : Option E) → p.status ≡ running → (drained r p).status ≡ running
  unfolding drained
  drained-running p none h = h
  drained-running p (some e) h = h

  module _ (fails : (b : Bool) → ¬ http.Serves b none)
      (closes : (e : E) → http.Serves false (some e) → http.is_server_closed e ≡ false) where
    finished-EndsWell :
        (p : Process E) (r : Option E)
        → http.Serves (is_shut p.goroutine) r
        → EndsWell (finished http r p)
    unfolding finished
    finished-EndsWell p none h = absurd (fails _ h)
    finished-EndsWell p (some e) h = elim (Bool-cases (http.is_server_closed e)) [
      | inl closed ↦
          rw (closed, finished)
            (inr (
              inl (
                refl,
                λ idle.
                    let early = subst (λ g. http.Serves (is_shut g) (some e)) idle h in
                    let open_still = closes e early in cc,
              )))
      | inr open_still ↦ rw (open_still, finished) (inr (inr (refl, e, open_still, p.log, refl)))
    ]

    Step-EndsWell : (p q : Process E) → Step http p q → EndsWell q
    Step-EndsWell p _ (requested _ up) = inl up
    Step-EndsWell p _ (responded _ n up some_left) = inl up
    Step-EndsWell p _ (signalled _ up idle) = inl up
    Step-EndsWell p _ (shut _ r up called end) = inl (drained-running p r up)
    Step-EndsWell p _ (served _ r up end) = finished-EndsWell p r end

    -- Where `ListenAndServe` always returns an error, and not `http.ErrServerClosed` before
    -- `Shutdown` is called: `main` returns only behind that call, and status 1 has its error in the
    -- log.
    pub Reach-EndsWell : (p : Process E) → Reach http listen p → EndsWell p
    Reach-EndsWell _ start = inl refl
    Reach-EndsWell _ (step p q before next) = Step-EndsWell p q next

  abbrev busy : ℕ → Process E
  busy n = record (launched listen) { in_flight = n }

  Reach-busy : (n : ℕ) → Reach http listen (busy n)
  Reach-busy zero = start
  Reach-busy (suc n) = step (busy n) _ (Reach-busy n) (requested (busy n) refl)

  cut_off :
      (e : E) (p : Process E)
      → http.is_server_closed e ≡ true
      → finished http (some e) p ≡ record p { status = returned }
  unfolding finished
  cut_off e p closed = rw (closed, finished) refl

  -- Where `ListenAndServe` can return an error that is `http.ErrServerClosed` once `Shutdown` has
  -- been called: for every number of requests the process can come to an end by the return of
  -- `main` while all of them have no response and `Shutdown` has not returned.
  pub shutdown_cuts_off :
      (n : ℕ) (e : E)
      → http.Serves true (some e)
      → http.is_server_closed e ≡ true
      → Reach http listen (record {
        goroutine = draining;
        status = returned;
        in_flight = n;
        log = listening_on (listen_address listen) ∷ [];
      })
  unfolding finished
  shutdown_cuts_off n e serves closed =
      let called : Process E = record (busy n) { goroutine = draining } in
      let reached = step (busy n) called (Reach-busy n) (signalled (busy n) refl refl) in
      step called _ reached (rw (← cut_off e called closed) (served called (some e) refl serves))
