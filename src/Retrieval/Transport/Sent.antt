-- ===== src/Retrieval/Transport/Sent.antt =====
-- What one round of `Do` sends and dials.
use feeds_server.Base.{◌≡◌, refl, ◌⊎◌, inl, inr, Option-cases, List, [], ◌∷◌}
use feeds_server.Base.Seq.{All, All-mono}
use feeds_server.Base.Address.{Addr}
use feeds_server.Retrieval.Policy.{Result, ok, err, DestinationPolicy, Addresses}
use feeds_server.Retrieval.Policy.Resolved.{Accepts}
use feeds_server.Retrieval.Redirect.{Request}
use feeds_server.Retrieval.Dial.{Conn, NetDialer, dial_context}
use feeds_server.Retrieval.Dial.Attempts.{dial_context-Accepts}
use feeds_server.Retrieval.Transport.{HttpLibrary, connected, round_trip}

module _ {W : Type 0} ⦃d : NetDialer⦄ ⦃n : Addresses⦄ (lib : HttpLibrary W)
    (p : DestinationPolicy) where
  connected-dials :
      (req : Request) (w : W) (r : List Addr × Result Conn)
      → (connected lib p req w r).traffic.dials ≡ r.0
  connected-dials req w (dialled, err e) = refl
  connected-dials req w (dialled, ok conn) = refl

  connected-requests :
      (req : Request) (w : W) (r : List Addr × Result Conn)
      → ((connected lib p req w r).traffic.requests ≡ [])
        ⊎ ((connected lib p req w r).traffic.requests ≡ req ∷ [])
  connected-requests req w (dialled, err e) = inl refl
  connected-requests req w (dialled, ok conn) = inr refl

  pub round_trip-requests :
      (req : Request) (w : W)
      → ((round_trip lib p req w).traffic.requests ≡ [])
        ⊎ ((round_trip lib p req w).traffic.requests ≡ req ∷ [])
  unfolding round_trip
  round_trip-requests req w = elim (Option-cases (lib.connects req w)) [
    | inl idle ↦ rw (round_trip, idle) (inr refl)
    | inr ((network, address), new) ↦
        rw (round_trip, new) (connected-requests req w (dial_context p network address))
  ]

  pub round_trip-Accepts :
      (req : Request) (w : W) → All (Accepts p) (round_trip lib p req w).traffic.dials
  unfolding round_trip
  round_trip-Accepts req w = elim (Option-cases (lib.connects req w)) [
    | inl idle ↦ rw (round_trip, idle) tt
    | inr ((network, address), new) ↦
        rw (round_trip, new, connected-dials req w (dial_context p network address))
          (All-mono (dial_context p network address).0 (λ a h. h.0)
            (dial_context-Accepts p network address))
  ]
