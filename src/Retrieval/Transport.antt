-- ===== src/Retrieval/Transport.antt =====
-- The `http.Client` that `NewClient` of internal/retrieval/client.go puts together: its transport
-- connects by `dialContext`, and its redirects go through `checkRedirect`.
pub mod Sent
pub mod Redirects
pub mod Contained
pub mod Fetches
use feeds_server.Base.{ℕ, zero, suc, ◌+◌, String, Option, none, some, List, [], ◌∷◌, ◌++◌}
use feeds_server.Base.Address.{Addr}
use feeds_server.Base.Text.{Unicode}
use feeds_server.Retrieval.Error.{Error, wrapped, plain}
use feeds_server.Retrieval.Policy.{Result, ok, err, DestinationPolicy, Addresses}
use feeds_server.Retrieval.Redirect.{Request, max_redirects, check_redirect}
use feeds_server.Retrieval.Dial.{Conn, NetDialer, dial_context}
use feeds_server.Retrieval.Exchange.{Response, World}

-- `net/http`: the network and the address that a request must be connected to, or none where an
-- idle connection serves it; the exchange on a connection; and what a response asks for after the
-- requests before it: nothing more, another request, or a redirect that cannot be understood.
pub record HttpLibrary (W : Type 0) : Type 0 where
  pub connects : Request → W → Option (String × String)
  pub exchange : Request → Option Conn → W → Result Response × W
  pub redirected : List Request → Request → Response → Option (Result Request)

-- What goes out: the requests that are sent and the addresses that are dialled, in order.
pub record Traffic : Type 0 where
  pub requests : List Request
  pub dials : List Addr

abbrev pub no_traffic : Traffic
no_traffic = record { requests = []; dials = [] }

abbrev pub then_traffic : Traffic → Traffic → Traffic
then_traffic a b = record { requests = a.requests ++ b.requests; dials = a.dials ++ b.dials }

-- The end of a call of `Do`.
pub record Done (W : Type 0) : Type 0 where
  pub traffic : Traffic
  pub answer : Result Response
  pub world : W

module _ {W : Type 0} ⦃d : NetDialer⦄ ⦃n : Addresses⦄ (lib : HttpLibrary W)
    (p : DestinationPolicy) where
  -- `RoundTrip` of the transport, with the addresses that it dials: one connection, kept or new, and
  -- one exchange on it.
  abbrev pub connected : Request → W → List Addr × Result Conn → Done W
  connected req w (dialled, err e) = record {
    traffic = record { requests = []; dials = dialled };
    answer = err e;
    world = w;
  }
  connected req w (dialled, ok conn) =
      let (answer, w') = lib.exchange req (some conn) w in
      record {
        traffic = record { requests = req ∷ []; dials = dialled };
        answer = answer;
        world = w';
      }

  unfoldable pub round_trip : Request → W → Done W
  unfolding dial_context
  round_trip req w = elim (lib.connects req w) [
    | none ↦
        let (answer, w') = lib.exchange req none w in
        record { traffic = record { requests = req ∷ []; dials = [] }; answer = answer; world = w' }
    | some (network, address) ↦ connected req w (dial_context p network address)
  ]

  -- An error of `Do` stands in a `*url.Error`.
  abbrev pub failed : Done W → Error → Done W
  failed sent e = record sent { answer = err (wrapped "Get" e) }

  abbrev pub after : Done W → Done W → Done W
  after sent rest = record rest { traffic = then_traffic sent.traffic rest.traffic }

  -- The loop of `Do`, with the requests before and the rounds that are left.
  unfoldable pub do_from : ⦃u : Unicode⦄ → ℕ → Request → List Request → W → Done W
  unfolding round_trip check_redirect
  do_from zero req via w = record {
    traffic = no_traffic;
    answer = err (plain "no rounds are left");
    world = w;
  }
  do_from (suc rounds) req via w =
      let sent = round_trip req w in
      elim sent.answer [
        | err e ↦ failed sent e
        | ok resp ↦ elim (lib.redirected via req resp) [
          | none ↦ sent
          | some (err e) ↦ failed sent e
          | some (ok next) ↦
              let (verdict, next') = check_redirect p next (via ++ req ∷ []) in
              elim verdict [
                | some e ↦ failed sent e
                | none ↦ after sent (do_from rounds next' (via ++ req ∷ []) sent.world)
              ]
        ]
      ]

  -- `httpClient.Do`
  unfoldable pub client_do : ⦃u : Unicode⦄ → Request → W → Done W
  unfolding do_from
  client_do req w = do_from (suc max_redirects) req [] w

  -- The world of a fetch whose `Do` is this one, with all the traffic so far.
  abbrev pub networked : ⦃u : Unicode⦄ → World W → World (W × Traffic)
  networked base = record {
    ctx_err = λ s. base.ctx_err s.0;
    now = λ s. base.now s.0;
    acquire = λ s. let (busy, w) = base.acquire s.0 in (busy, (w, s.1));
    release = λ s. (base.release s.0, s.1);
    new_request = base.new_request;
    send = λ req s.
        let done = client_do req s.0 in (done.answer, (done.world, then_traffic s.1 done.traffic));
    sleep = λ delay s. let (woken, w) = base.sleep delay s.0 in (woken, (w, s.1));
  }
