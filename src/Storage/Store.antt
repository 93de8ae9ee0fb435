-- ===== src/Storage/Store.antt =====
-- internal/storage/postgres/store.go: the connection pool of a store, and `ensureStore`.
pub mod Opened
use feeds_server.Base.{ℕ, ◌*◌, String, Option, none, some, List, [], ◌∷◌, ◌++◌, if◌then◌else◌}
use feeds_server.Base.Dict.{Dict, insert}
use feeds_server.Base.Text.{is_blank}
use feeds_server.Storage.Attempt.{Attempt, done, failed}

-- The two constants, the time in nanoseconds.
abbrev pub default_connect_timeout : ℕ
default_connect_timeout = 5 * 1000000000

abbrev pub default_max_conns : ℕ
default_max_conns = 4

-- The part of `pgxpool.Config` that `Open` sets. A nil map of parameters is an empty one.
pub record PoolConfig : Type 0 where
  pub connection : String
  pub max_conns : ℕ
  pub min_conns : ℕ
  pub connect_timeout : ℕ
  pub runtime_params : Dict String

-- `pgxpool`, with its type of pools.
pub record Pgxpool (P : Type 0) : Type 0 where
  pub parse_config : String → Attempt PoolConfig
  pub new_with_config : PoolConfig → Attempt P
  pub ping : P → Option String

-- The calls on a pool, in order. The ping of `Open` has a time limit.
pub data PoolCall (P : Type 0) : Type 0 where
  opened : PoolConfig → P → PoolCall P
  pinged : Option ℕ → P → PoolCall P
  closed : P → PoolCall P

-- `type Store struct`
pub record Store (P : Type 0) : Type 0 where
  pub pool : Option P

-- `ensureStore` of repository.go, on a receiver that may be nil.
unfoldable pub ensure_store : {P : Type 0} → Option (Store P) → Option String
ensure_store none = some "postgres store is not open"
ensure_store (some s) = elim s.pool [ none ↦ some "postgres store is not open" | some p ↦ none ]

-- What `Open` writes into the parsed configuration.
abbrev pub bounded : PoolConfig → PoolConfig
bounded c = record c {
  max_conns = default_max_conns;
  min_conns = 0;
  connect_timeout = default_connect_timeout;
  runtime_params = insert "application_name" "goreecloud-feeds-server" c.runtime_params;
}

module _ {P : Type 0} (lib : Pgxpool P) where
  -- `Ping`, with the time limit of its context.
  unfoldable pub ping_store : Option ℕ → Option (Store P) → Option String × List (PoolCall P)
  ping_store limit none = (some "postgres store is not open", [])
  ping_store limit (some s) = elim s.pool [
    | none ↦ (some "postgres store is not open", [])
    | some p ↦ (lib.ping p, pinged limit p ∷ [])
  ]

  -- `Open` behind `NewWithConfig`: a store that does not answer is closed.
  unfoldable pub verify_pool : PoolConfig → P → Attempt (Store P) × List (PoolCall P)
  unfolding ping_store
  verify_pool c p =
      let s : Store P = record { pool = some p } in
      let (answer, calls) = ping_store (some default_connect_timeout) (some s) in
      elim answer [
        | none ↦ (done s, opened c p ∷ calls)
        | some e ↦ (failed e, opened c p ∷ (calls ++ closed p ∷ []))
      ]

  unfoldable pub open_store : String → Attempt (Store P) × List (PoolCall P)
  unfolding is_blank verify_pool insert
  open_store connection =
      if is_blank connection
      then (failed "postgres connection string is required", [])
      else elim (lib.parse_config connection) [
        | failed e ↦ (failed e, [])
        | done c ↦ elim (lib.new_with_config (bounded c)) [
          | failed e ↦ (failed e, [])
          | done p ↦ verify_pool (bounded c) p
        ]
      ]

-- `Close`
unfoldable pub close_store : {P : Type 0} → Option (Store P) → List (PoolCall P)
close_store none = []
close_store (some s) = elim s.pool [ none ↦ [] | some p ↦ closed p ∷ [] ]
