-- ===== src/Http/Program.antt =====
-- `main` of cmd/feeds-server/main.go: the server that it configures, and the process until its end.
-- What `ListenAndServe` and `Shutdown` of net/http return is a parameter.
pub mod Ending
use feeds_server.Base.{
  ℕ, zero, suc, ◌+◌, ◌*◌, ◌≡◌, String, Bool, true, false, Option, none, some, List, [], ◌∷◌, ◌++◌,
  if◌then◌else◌,
}
use feeds_server.Http.{HttpRequest, HttpResponse, WebLibrary, new_handler}

-- The fields of `http.Server` that are set; the times are in nanoseconds.
pub record Server : Type 0 where
  pub addr : String
  pub handler : HttpRequest → HttpResponse
  pub read_header_timeout : ℕ
  pub read_timeout : ℕ
  pub write_timeout : ℕ
  pub idle_timeout : ℕ

abbrev pub seconds : ℕ → ℕ
seconds n = n * 1_000_000_000

-- The flag `listen`, where it is given, or its default.
abbrev pub listen_address : Option String → String
listen_address none = "127.0.0.1:8080"
listen_address (some address) = address

unfoldable pub server : WebLibrary → Option String → Server
server web listen = record {
  addr = listen_address listen;
  handler = new_handler web;
  read_header_timeout = seconds 5;
  read_timeout = seconds 15;
  write_timeout = seconds 15;
  idle_timeout = seconds 60;
}

abbrev pub shutdown_timeout : ℕ
shutdown_timeout = seconds 10

-- The goroutine: it waits for the signal, it waits for `Shutdown`, or it has come to its end.
pub data Goroutine : Type 0 where
  waiting draining ended : Goroutine

-- Whether `Shutdown` has been called.
abbrev pub is_shut : Goroutine → Bool
is_shut waiting = false
is_shut draining = true
is_shut ended = true

-- The process: it runs, `main` has returned, or `log.Fatalf` has ended it with status 1.
pub data Status : Type 0 where
  running returned fatal : Status

module _ (E : Type 0) where
  -- `errors.Is(err, http.ErrServerClosed)`; what `ListenAndServe` can return, by whether `Shutdown`
  -- has been called; and what `Shutdown` can return with a time limit and so many requests that
  -- have no response yet.
  pub record HttpServer : Type 1 where
    pub is_server_closed : E → Bool
    pub Serves : Bool → Option E → Type 0
    pub Drains : ℕ → ℕ → Option E → Type 0

  -- The lines of the log.
  pub data Message : Type 0 where
    listening_on : String → Message
    shutdown_failed server_failed : E → Message

  pub record Process : Type 0 where
    pub goroutine : Goroutine
    pub status : Status
    -- The requests that have no response yet.
    pub in_flight : ℕ
    pub log : List Message

-- The process when `ListenAndServe` is called.
abbrev pub launched : {E : Type 0} → Option String → Process E
launched listen = record {
  goroutine = waiting;
  status = running;
  in_flight = 0;
  log = listening_on (listen_address listen) ∷ [];
}

-- The end of the goroutine, with what `Shutdown` returns.
unfoldable pub drained : {E : Type 0} → Option E → Process E → Process E
drained none p = record p { goroutine = ended }
drained (some e) p = record p { goroutine = ended; log = p.log ++ shutdown_failed e ∷ [] }

-- The end of `main`, with what `ListenAndServe` returns.
unfoldable pub finished : {E : Type 0} → HttpServer E → Option E → Process E → Process E
finished http none p = record p { status = returned }
finished http (some e) p =
    if http.is_server_closed e
    then record p { status = returned }
    else record p { status = fatal; log = p.log ++ server_failed e ∷ [] }

-- What can happen next, while the process runs.
pub data Step {E : Type 0} (http : HttpServer E) : Process E → Process E → Type 0 where
  requested :
      (p : Process E) → p.status ≡ running → Step http p (record p { in_flight = suc p.in_flight })
  responded :
      (p : Process E) (n : ℕ)
      → p.status ≡ running
      → p.in_flight ≡ suc n
      → Step http p (record p { in_flight = n })
  -- `<-ctx.Done()`, and the call of `Shutdown`.
  signalled :
      (p : Process E)
      → p.status ≡ running
      → p.goroutine ≡ waiting
      → Step http p (record p { goroutine = draining })
  -- `Shutdown` returns.
  shut :
      (p : Process E) (r : Option E)
      → p.status ≡ running
      → p.goroutine ≡ draining
      → http.Drains shutdown_timeout p.in_flight r
      → Step http p (drained r p)
  -- `ListenAndServe` returns.
  served :
      (p : Process E) (r : Option E)
      → p.status ≡ running
      → http.Serves (is_shut p.goroutine) r
      → Step http p (finished http r p)

-- What the process can come to.
pub data Reach {E : Type 0} (http : HttpServer E) (listen : Option String)
    : Process E → Type 0 where
  start : Reach http listen (launched listen)
  step : (p q : Process E) → Reach http listen p → Step http p q → Reach http listen q
