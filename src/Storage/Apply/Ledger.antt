-- ===== src/Storage/Apply/Ledger.antt =====
-- What `Migrate` leaves in the ledger, and what it does when it runs again.
use feeds_server.Base.{
  ℕ, ◌≢◌, ◌≡◌, ◌⊎◌, inl, inr, refl, sym, ◌∙◌, ap, subst, Option-cases, none, some, List,
}
use feeds_server.Base.Seq.{All, get_elem?}
use feeds_server.Base.Text.{Unicode}
use feeds_server.Storage.Attempt.{Attempt, done, failed, Attempt-cases}
use feeds_server.Storage.Migrations.{Migration}
use feeds_server.Storage.Apply.{
  Digest, Row, Tables, Database, Ran, ran, broke, Ran-cases, ran-injective, Session, commit_ran,
  migration_checksum, recorded, apply_all, prepare, in_transaction, migrate,
}
use feeds_server.Storage.Apply.Steps.{
  Extends, IsRecorded, some_injective, recorded-append, All-get, apply_all-IsRecorded,
  apply_all-again,
}

module _ ⦃u : Unicode⦄ ⦃d : Digest⦄ {D : Type 0} (db : Database D) where
  prepare-ledger : (t t' : Tables D) → prepare db t ≡ ran t' → t'.ledger ≡ t.ledger
  unfolding prepare
  prepare-ledger t t' h = elim (Option-cases (db.lock t)) [
    | inr (e, bad) ↦ absurd (cc (rw (bad, prepare) at h))
    | inl locked ↦ elim (Attempt-cases (db.schema t.rest)) [
      | inr (e, bad) ↦ absurd (cc (rw (locked, prepare, bad) at h))
      | inl (rest, made) ↦ elim (Attempt-cases (db.ledger_table rest)) [
        | inr (e, bad) ↦ absurd (cc (rw (locked, prepare, made, bad) at h))
        | inl (rest', ready) ↦
            sym (ap (λ x. x.ledger) (ran-injective (rw (locked, prepare, made, ready) at h)))
      ]
    ]
  ]

  in_transaction-parts :
      (ms : List Migration) (t t' : Tables D)
      → in_transaction db ms t ≡ ran t'
      → (t₁ : Tables D) × (prepare db t ≡ ran t₁) × (apply_all db ms t₁ ≡ ran t')
  unfolding in_transaction
  in_transaction-parts ms t t' h = elim (Ran-cases (prepare db t)) [
    | inr (e, t₁, bad) ↦ absurd (cc (rw (bad, in_transaction) at h))
    | inl (t₁, ready) ↦ (t₁, ready, rw (ready, in_transaction) at h)
  ]

  commit_ran-none :
      (s : Session D) (r : Ran D)
      → (commit_ran db s r).0 ≡ none
      → r ≡ ran (commit_ran db s r).1.committed
  commit_ran-none s (broke e t) h = absurd (cc h)
  commit_ran-none s (ran t) h = elim (Option-cases (db.commit t)) [
    | inr (e, bad) ↦ absurd (cc (rw (bad, commit_ran) at h))
    | inl kept ↦ rw (kept, commit_ran) refl
  ]

  commit_ran-some :
      (s : Session D) (r : Ran D)
      → (commit_ran db s r).0 ≢ none
      → (commit_ran db s r).1.committed ≡ s.committed
  commit_ran-some s (broke e t) h = refl
  commit_ran-some s (ran t) h = elim (Option-cases (db.commit t)) [
    | inr (e, bad) ↦ rw (bad, commit_ran) refl
    | inl kept ↦ absurd (h (rw (kept, commit_ran) refl))
  ]

  migrate-ran :
      (ms : List Migration) (s : Session D)
      → (migrate db (done ms) s).0 ≡ none
      → in_transaction db ms s.committed ≡ ran (migrate db (done ms) s).1.committed
  unfolding migrate
  migrate-ran ms s h = elim (Option-cases (db.begin s.committed)) [
    | inr (e, bad) ↦ absurd (cc (rw (bad, migrate) at h))
    | inl begun ↦
        rw (begun, migrate)
          (commit_ran-none (record s { pending = some s.committed })
            (in_transaction db ms s.committed) (rw (begun, migrate) at h))
  ]

  -- Where `Migrate` returns no error, every migration is in the ledger under its version, with its
  -- name and the digest of its text, and the rows of before still stand in front of the new ones.
  pub migrate-IsRecorded :
      (ms : List Migration) (s : Session D)
      → (migrate db (done ms) s).0 ≡ none
      → All (IsRecorded (migrate db (done ms) s).1.committed.ledger) ms
        × Extends s.committed.ledger (migrate db (done ms) s).1.committed.ledger
  migrate-IsRecorded ms s h =
      let t' = (migrate db (done ms) s).1.committed in
      let (t₁, ready, applied) = in_transaction-parts ms s.committed t' (migrate-ran ms s h) in
      let (all, grown) = apply_all-IsRecorded db ms t₁ t' applied in
      (all, subst (λ x. Extends x t'.ledger) (prepare-ledger s.committed t₁ ready) grown)

  -- Where `Migrate` returns an error, the committed tables are those of before, and no transaction is
  -- left open, whatever ran in it.
  pub migrate_rollback :
      (loaded : Attempt (List Migration)) (s : Session D)
      → s.pending ≡ none
      → (migrate db loaded s).0 ≢ none
      → (migrate db loaded s).1 ≡ s
  unfolding migrate
  migrate_rollback (failed e) s idle h = refl
  migrate_rollback (done ms) s idle h = elim (Option-cases (db.begin s.committed)) [
    | inr (e, bad) ↦ rw (bad, migrate) refl
    | inl begun ↦
        rw (begun, migrate)
          (λ i. record {
            committed =
                commit_ran-some (record s { pending = some s.committed })
                  (in_transaction db ms s.committed) (rw (begun, migrate) at h) i;
            pending = sym idle i;
          })
  ]

  -- Behind a `Migrate` that returned no error, and where the ledger can be read, the loop over the
  -- same migrations succeeds and leaves the tables as they are.
  pub migrate_again :
      (ms : List Migration) (s : Session D)
      → (migrate db (done ms) s).0 ≡ none
      → ((v : ℕ) → db.read v (migrate db (done ms) s).1.committed ≡ none)
      → apply_all db ms (migrate db (done ms) s).1.committed
        ≡ ran (migrate db (done ms) s).1.committed
  migrate_again ms s h good =
      apply_all-again db ms (migrate db (done ms) s).1.committed good (migrate-IsRecorded ms s h).0

  -- A migration whose version stands in the ledger with another name or another digest makes
  -- `Migrate` return an error.
  pub migrate_mismatch :
      (ms : List Migration) (s : Session D) (i : ℕ) (m : Migration) (r : Row)
      → get_elem? ms i ≡ some m
      → recorded m.version s.committed.ledger ≡ some r
      → ((r.name ≢ m.name) ⊎ (r.checksum ≢ migration_checksum m.sql))
      → (migrate db (done ms) s).0 ≢ none
  migrate_mismatch ms s i m r at found differs h =
      let (all, (new, grown)) = migrate-IsRecorded ms s h in
      let (r', found', name, sum) =
        All-get (IsRecorded (migrate db (done ms) s).1.committed.ledger) ms i m all at in
      let same : r' ≡ r =
        some_injective
          (sym found' ∙ rw grown (recorded-append m.version s.committed.ledger new r found)) in
      elim differs [
        | inl other ↦ other (ap (λ x. x.name) (sym same) ∙ name)
        | inr other ↦ other (ap (λ x. x.checksum) (sym same) ∙ sum)
      ]
