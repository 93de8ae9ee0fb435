-- ===== src/Storage/Store/Opened.antt =====
-- What `Open` promises about the pool.
use feeds_server.Base.{
  ◌≡◌, refl, ◌⊎◌, inl, inr, String, Bool-cases, none, some, Option-cases, List, [], ◌∷◌,
}
use feeds_server.Base.Dict.{lookup, lookup-insert}
use feeds_server.Base.Text.{is_blank}
use feeds_server.Storage.Attempt.{Attempt, done, failed, Attempt-cases}
use feeds_server.Storage.Store.{
  PoolConfig, Pgxpool, PoolCall, opened, pinged, closed, Store, bounded, verify_pool, open_store,
  ping_store,
}

-- A configuration with the limits of the package.
pub record IsBounded (c : PoolConfig) : Type 0 where
  pub max_conns : c.max_conns ≡ 4
  pub min_conns : c.min_conns ≡ 0
  pub connect_timeout : c.connect_timeout ≡ 5000000000
  pub named : lookup "application_name" c.runtime_params ≡ some "goreecloud-feeds-server"

bounded-IsBounded : (c : PoolConfig) → IsBounded (bounded c)
bounded-IsBounded c = record {
  max_conns = refl;
  min_conns = refl;
  connect_timeout = refl;
  named =
      lookup-insert "application_name" "application_name" "goreecloud-feeds-server"
        c.runtime_params;
}

module _ {P : Type 0} where
  -- What an open store has behind it: one pool within the limits, which has answered.
  abbrev pub IsLive : Pgxpool P → Attempt (Store P) × List (PoolCall P) → Type 0
  IsLive lib r =
      (c : PoolConfig) × ((p : P) × (IsBounded c
          × ((lib.ping p ≡ none)
              × (r ≡ (
                done (record { pool = some p }),
                opened c p ∷ pinged (some 5000000000) p ∷ [],
              )))))

  -- What a refused one leaves: no pool, or one that is closed.
  abbrev pub IsClosed : Attempt (Store P) × List (PoolCall P) → Type 0
  IsClosed r =
      (e : String) × ((r ≡ (failed e, []))
        ⊎ ((c : PoolConfig) × ((p : P) × (IsBounded c
                × (r ≡ (failed e, opened c p ∷ pinged (some 5000000000) p ∷ closed p ∷ []))))))

module _ {P : Type 0} (lib : Pgxpool P) where
  verify_pool-cases :
      (c : PoolConfig) (p : P)
      → IsBounded c
      → IsLive lib (verify_pool lib c p) ⊎ IsClosed (verify_pool lib c p)
  unfolding verify_pool ping_store
  verify_pool-cases c p b = elim (Option-cases (lib.ping p)) [
    | inl answers ↦ inl (c, (p, (b, (answers, rw (answers, verify_pool) refl))))
    | inr (e, silent) ↦ inr (e, inr (c, (p, (b, rw (silent, verify_pool) refl))))
  ]

  -- `Open` either gives a store on a pool that has answered a ping with the time limit of 5
  -- seconds, or fails and leaves no pool open: it has made none, or has closed the one it made. The
  -- pool, if there is one, has at most 4 connections, has no minimum of them, connects within 5 seconds and
  -- names the application.
  pub open_store-cases :
      (connection : String)
      → IsLive lib (open_store lib connection) ⊎ IsClosed (open_store lib connection)
  unfolding open_store
  open_store-cases connection = elim (Bool-cases (is_blank connection)) [
    | inl blank ↦ rw (blank, open_store) (inr (_, inl refl))
    | inr there ↦ elim (Attempt-cases (lib.parse_config connection)) [
      | inr (e, wrong) ↦ rw (there, wrong, open_store) (inr (e, inl refl))
      | inl (c, right) ↦ elim (Attempt-cases (lib.new_with_config (bounded c))) [
        | inr (e, wrong) ↦ rw (there, right, wrong, open_store) (inr (e, inl refl))
        | inl (p, made) ↦
            rw (there, right, made, open_store)
              (verify_pool-cases (bounded c) p (bounded-IsBounded c))
      ]
    ]
  ]
