-- ===== src/Retrieval/Dial/Attempts.antt =====
-- Which addresses `dialContext` connects to.
use feeds_server.Base.{
  ◌≡◌, inl, inr, refl, ap, String, false, List, [], ◌∷◌, Bool-cases, if◌then◌else◌,
}
use feeds_server.Base.Seq.{All}
use feeds_server.Base.Address.{Addr}
use feeds_server.Retrieval.Error.{Error, Errors, nil}
use feeds_server.Retrieval.Policy.{err, DestinationPolicy, Addresses, resolve_allowed}
use feeds_server.Retrieval.Policy.Resolved.{Accepts, Result-cases, resolve_allowed-Accepts}
use feeds_server.Retrieval.Dial.{NetDialer, is_skipped, snoc, dial_loop, dial_context}

-- The addresses of a network's family.
abbrev pub eligible : String → List Addr → List Addr
eligible network [] = []
eligible network (a ∷ rest) =
    let later = eligible network rest in if is_skipped network a then later else a ∷ later

module _ ⦃d : NetDialer⦄ where
  -- What holds of all addresses holds of those that are dialled, and these fit the network.
  dial_loop-All :
      (P : Addr → Type 0) (network host port : String) (errors : Errors) (addrs : List Addr)
      → All P addrs
      → All (λ a. P a × (is_skipped network a ≡ false)) (dial_loop network host port errors addrs).0
  unfolding dial_loop
  dial_loop-All P network host port errors [] h = tt
  dial_loop-All P network host port errors (a ∷ rest) (h, hs) =
      elim (Bool-cases (is_skipped network a)) [
        | inl skipped ↦ rw (skipped, dial_loop) (dial_loop-All P network host port errors rest hs)
        | inr fits ↦ elim (Result-cases (d.dial network a port)) [
          | inl (conn, up) ↦ rw (fits, dial_loop, up) ((h, fits), tt)
          | inr (e, down) ↦
              rw (fits, dial_loop, down)
                ((h, fits), dial_loop-All P network host port (snoc errors e) rest hs)
        ]
      ]

  -- Every address that is dialled, in whatever network, was accepted by the policy for this very
  -- connection and is of the network's family.
  pub dial_context-Accepts :
      ⦃n : Addresses⦄ (p : DestinationPolicy) (network address : String)
      → All (λ a. Accepts p a × (is_skipped network a ≡ false)) (dial_context p network address).0
  unfolding dial_context
  dial_context-Accepts p network address = elim (Result-cases (d.split_host_port address)) [
    | inr (e, bad) ↦ rw (bad, dial_context) tt
    | inl ((host, port), split) ↦ elim (Result-cases (resolve_allowed p host)) [
      | inr (e, blocked) ↦ rw (split, dial_context, blocked) tt
      | inl (addrs, resolved) ↦
          rw (split, dial_context, resolved)
            (dial_loop-All (Accepts p) network host port nil addrs
              (resolve_allowed-Accepts p host addrs resolved).0)
    ]
  ]

  -- Where the loop ends in an error, it has dialled every address of the network, in the order of
  -- the answers, and none of them took the connection.
  pub dial_loop-exhausts :
      (network host port : String) (errors : Errors) (addrs : List Addr) (e : Error)
      → (dial_loop network host port errors addrs).1 ≡ err e
      → ((dial_loop network host port errors addrs).0 ≡ eligible network addrs)
        × All (λ a. (f : Error) × (d.dial network a port ≡ err f)) (eligible network addrs)
  unfolding dial_loop
  dial_loop-exhausts network host port errors [] e h = (refl, tt)
  dial_loop-exhausts network host port errors (a ∷ rest) e h =
      elim (Bool-cases (is_skipped network a)) [
        | inl skipped ↦
            rw (skipped, dial_loop)
              (dial_loop-exhausts network host port errors rest e (rw (skipped, dial_loop) at h))
        | inr fits ↦ elim (Result-cases (d.dial network a port)) [
          | inl (conn, up) ↦ absurd (cc (rw (fits, dial_loop, up) at h))
          | inr (f, down) ↦
              let (tried, failed) =
                dial_loop-exhausts network host port (snoc errors f) rest e
                  (rw (fits, dial_loop, down) at h) in
              rw (fits, dial_loop, down) (ap (λ r. a ∷ r) tried, ((f, refl), failed))
        ]
      ]
