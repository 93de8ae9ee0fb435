-- ===== src/Retrieval/Dial.antt =====
-- `dialContext` of internal/retrieval/client.go: the host is resolved and validated at the time of
-- the connection, and only accepted addresses are dialled, in the order of the answers.
pub mod Attempts
use Prim.Native.String.{◌++◌}
use feeds_server.Base.{
  ℕ, String, ◌==◌, Bool, true, false, ◌&&◌, ◌||◌, not, List, [], ◌∷◌, if◌then◌else◌,
}
use feeds_server.Base.Address.{Addr, is_4, is_6}
use feeds_server.Retrieval.Error.{Error, wrapped, joined, plain, Errors, nil, cons}
use feeds_server.Retrieval.Policy.{Result, ok, err, DestinationPolicy, Addresses, resolve_allowed}

-- A `net.Conn`, by the handle that the system gives it.
abbrev pub Conn : Type 0
Conn = ℕ

-- `net.SplitHostPort`, and `(*net.Dialer).DialContext` with `net.JoinHostPort(addr.String(), port)`.
pub record NetDialer : Type 0 where
  pub split_host_port : String → Result (String × String)
  pub dial : String → Addr → String → Result Conn

-- The two `continue`s of the loop.
abbrev pub is_skipped : String → Addr → Bool
is_skipped network a = (network == "tcp4" && not (is_4 a)) || (network == "tcp6" && not (is_6 a))

abbrev pub dial_failure : String → String → Errors → Error
dial_failure network host nil = plain ("no resolved address matched network " ++ network)
dial_failure network host (cons e es) =
    wrapped ("dial retrieval destination " ++ host) (joined (cons e es))

abbrev pub snoc : Errors → Error → Errors
snoc nil e = cons e nil
snoc (cons d ds) e = cons d (snoc ds e)

module _ ⦃d : NetDialer⦄ where
  -- The loop, with the addresses that it dialled, in order, and the errors so far.
  unfoldable pub dial_loop : String → String → String → Errors → List Addr → List Addr × Result Conn
  dial_loop network host port errors [] = ([], err (dial_failure network host errors))
  dial_loop network host port errors (a ∷ rest) = elim (is_skipped network a) [
    | true ↦ dial_loop network host port errors rest
    | false ↦ elim (d.dial network a port) [
      | ok conn ↦ (a ∷ [], ok conn)
      | err e ↦
          let (dialled, result) = dial_loop network host port (snoc errors e) rest in
          (a ∷ dialled, result)
    ]
  ]

  abbrev pub dial_resolved : String → String → String → Result (List Addr) → List Addr × Result Conn
  dial_resolved network host port (err e) = ([], err e)
  dial_resolved network host port (ok addrs) = dial_loop network host port nil addrs

  -- The connection or the error, with the addresses that were dialled.
  unfoldable pub dial_context :
      ⦃n : Addresses⦄ → DestinationPolicy → String → String → List Addr × Result Conn
  dial_context p network address = elim (d.split_host_port address) [
    | err e ↦ ([], err (wrapped ("parse retrieval destination " ++ address) e))
    | ok (host, port) ↦ dial_resolved network host port (resolve_allowed p host)
  ]
