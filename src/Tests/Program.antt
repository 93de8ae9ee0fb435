-- ===== src/Tests/Program.antt =====
-- cmd/feeds-server/main.go with two requests in flight when the signal comes.
use feeds_server.Base.{ℕ, ◌≡◌, refl, eqb, Bool, true, false, Option, none, some, [], ◌∷◌}
use feeds_server.Http.Program.{Process, draining, returned, HttpServer, listening_on, Reach}
use feeds_server.Http.Program.Ending.{EndsWell, Reach-EndsWell, shutdown_cuts_off}

-- The errors: 0 is `http.ErrServerClosed`.
abbrev ClosedByShutdown : Bool → Option ℕ → Type 0
ClosedByShutdown b none = ⊥
ClosedByShutdown true (some e) = e ≡ 0
ClosedByShutdown false (some e) = e ≡ 1

abbrev sample_server : HttpServer ℕ
sample_server = record {
  is_server_closed = λ e. eqb e 0;
  Serves = ClosedByShutdown;
  Drains = λ limit n r. Unit {0};
}

-- The process that has ended with two requests in flight.
abbrev cut_short : Process ℕ
cut_short = record {
  goroutine = draining;
  status = returned;
  in_flight = 2;
  log = listening_on "127.0.0.1:8080" ∷ [];
}

shutdown_cuts_off_example : Reach sample_server none cut_short
shutdown_cuts_off_example = shutdown_cuts_off sample_server none 2 0 refl refl

always_fails : (b : Bool) → ¬ ClosedByShutdown b none
always_fails true h = h
always_fails false h = h

other_before : (e : ℕ) → ClosedByShutdown false (some e) → eqb e 0 ≡ false
other_before e h = rw h refl

Reach-EndsWell_example : EndsWell sample_server none cut_short
Reach-EndsWell_example =
    Reach-EndsWell sample_server none always_fails other_before cut_short
      (shutdown_cuts_off sample_server none 2 0 refl refl)
