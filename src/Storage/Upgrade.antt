-- ===== src/Storage/Upgrade.antt =====
-- `(*Store).Migrate` of internal/storage/postgres/apply.go as a whole: the store, the embedded
-- directory and the transaction.
pub mod Complete
use feeds_server.Base.{String, Option, none, some, List}
use feeds_server.Base.Text.{Unicode}
use feeds_server.Storage.Migrations.{Entry, migrations}
use feeds_server.Storage.Apply.{Digest, Session, Database, migrate}
use feeds_server.Storage.Store.{Store}

-- The database behind each pool is a parameter, with what reading the directory gives.
module _ {P D : Type 0} ⦃u : Unicode⦄ ⦃d : Digest⦄ (database : P → Database D) where
  unfoldable pub store_migrate :
      Option (Store P) → Option (List Entry) → Session D → Option String × Session D
  unfolding migrate migrations
  store_migrate none directory session = (some "postgres store is not open", session)
  store_migrate (some s) directory session = elim s.pool [
    | none ↦ (some "postgres store is not open", session)
    | some p ↦ migrate (database p) (migrations directory) session
  ]
