-- ===== src/Storage/Upgrade/Complete.antt =====
-- What a whole `Migrate` that returns no error has done.
use feeds_server.Base.{ℕ, ◌≡◌, ◌≢◌, inl, inr, refl, true, Option, Option-cases, none, some, List}
use feeds_server.Base.Seq.{get_elem?}
use feeds_server.Base.Text.{Unicode}
use feeds_server.Storage.Attempt.{done, Attempt-cases}
use feeds_server.Storage.Migrations.{Migration, Entry, is_migration, migrations}
use feeds_server.Storage.Migrations.Listed.{Reads, migrations_complete}
use feeds_server.Storage.Apply.{Digest, Session, Database, migrate}
use feeds_server.Storage.Apply.Steps.{IsRecorded, All-get}
use feeds_server.Storage.Apply.Ledger.{migrate-IsRecorded, migrate_rollback}
use feeds_server.Storage.Store.{Store}
use feeds_server.Storage.Upgrade.{store_migrate}

module _ {P D : Type 0} ⦃u : Unicode⦄ ⦃d : Digest⦄ (database : P → Database D) where
  store_migrate-parts :
      (store : Option (Store P)) (directory : Option (List Entry)) (t : Session D)
      → (store_migrate database store directory t).0 ≡ none
      → (p : P) × (ms : List Migration) × (migrations directory ≡ done ms)
        × (store_migrate database store directory t ≡ migrate (database p) (done ms) t)
  unfolding store_migrate
  store_migrate-parts none directory t h = absurd (cc)
  store_migrate-parts (some s) directory t h = elim (Option-cases s.pool) [
    | inl closed ↦ absurd (cc (rw (closed, store_migrate) at h))
    | inr (p, opened) ↦ elim (Attempt-cases (migrations directory)) [
      | inr (e, bad) ↦ absurd (cc (rw (opened, store_migrate, bad, migrate) at h))
      | inl (ms, read) ↦ (p, ms, read, rw (opened, store_migrate, read) refl)
    ]
  ]

  -- Where `Migrate` on a store returns no error, every SQL file of the directory has its row in the
  -- ledger: under the version of its name, with the name and the digest of its trimmed text.
  pub store_migrate_complete :
      (store : Option (Store P)) (directory : List Entry) (t : Session D) (j : ℕ) (e : Entry)
      → (store_migrate database store (some directory) t).0 ≡ none
      → get_elem? directory j ≡ some e
      → is_migration e ≡ true
      → (m : Migration) × Reads e m
        × IsRecorded (store_migrate database store (some directory) t).1.committed.ledger m
  store_migrate_complete store directory t j e h at sql =
      let (p, ms, read, same) = store_migrate-parts store (some directory) t h in
      let (i, m, there, reads) = migrations_complete directory ms j e read at sql in
      let (all, grown) = migrate-IsRecorded (database p) ms t (rw (← same) h) in
      (m, reads, rw same (All-get (IsRecorded _) ms i m all there))

  -- Where `Migrate` on a store with no open transaction returns an error, whichever statement
  -- failed, the committed tables are those of before and no transaction is open.
  pub store_migrate_rollback :
      (store : Option (Store P)) (directory : Option (List Entry)) (t : Session D)
      → t.pending ≡ none
      → (store_migrate database store directory t).0 ≢ none
      → (store_migrate database store directory t).1 ≡ t
  unfolding store_migrate
  store_migrate_rollback none directory t idle h = refl
  store_migrate_rollback (some s) directory t idle h = elim (Option-cases s.pool) [
    | inl closed ↦ rw (closed, store_migrate) refl
    | inr (p, opened) ↦
        rw (opened, store_migrate)
          (migrate_rollback (database p) (migrations directory) t idle
            (rw (opened, store_migrate) at h))
  ]
