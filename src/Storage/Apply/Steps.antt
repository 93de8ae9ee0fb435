-- ===== src/Storage/Apply/Steps.antt =====
-- What the loop of `Migrate` does to the ledger, step by step.
use mathlib.Core.List.{append_assoc, append-nil}
use feeds_server.Base.{
  ℕ, zero, suc, ◌≡◌, inl, inr, refl, sym, ◌∙◌, ap, subst, arith, String, ◌==◌, ◌&&◌, eq_iff,
  Bool-cases, Option-cases, none, some, List, [], ◌∷◌, ◌++◌,
}
use feeds_server.Base.Seq.{All, get_elem?}
use feeds_server.Base.Text.{Unicode}
use feeds_server.Storage.Attempt.{Attempt, done, failed, Attempt-cases}
use feeds_server.Storage.Migrations.{Migration}
use feeds_server.Storage.Apply.{
  Digest, Row, Tables, Database, ran, Ran-cases, ran-injective, migration_checksum, migration_body,
  recorded, row_of, add_row, exec_body, apply_new, accept_row, apply_one, apply_all,
}

pub some_injective : {A : Type 0} {a b : A} → some a ≡ some b → a ≡ b
some_injective e = cc

pub recorded-append :
    (v : ℕ) (rs new : List Row) (r : Row) → recorded v rs ≡ some r → recorded v (rs ++ new) ≡ some r
unfolding recorded
recorded-append v [] new r h = absurd (cc)
recorded-append v (x ∷ rs) new r h = ground (arith, recorded-append v rs new r)

recorded-concat :
    (rs : List Row) (r : Row)
    → recorded r.version rs ≡ none
    → recorded r.version (rs ++ r ∷ []) ≡ some r
unfolding recorded
recorded-concat [] r h = ground arith
recorded-concat (x ∷ rs) r h = ground (arith, recorded-concat rs r)

-- The ledger has grown at its end, if at all.
abbrev pub Extends : List Row → List Row → Type 0
Extends old later = (new : List Row) × (later ≡ old ++ new)

Extends-refl : (rs : List Row) → Extends rs rs
Extends-refl rs = ([], sym (append-nil rs))

Extends-trans : (a b c : List Row) → Extends a b → Extends b c → Extends a c
Extends-trans a b c (new, e) (more, f) = (new ++ more, f ∙ (rw e (append_assoc a new more)))

module _ ⦃d : Digest⦄ where
  -- The ledger has the migration, by its version, with its name and the digest of its text.
  abbrev pub IsRecorded : List Row → Migration → Type 0
  IsRecorded rs m =
      (r : Row) × (recorded m.version rs ≡ some r)
      × (r.name ≡ m.name)
      × (r.checksum ≡ migration_checksum m.sql)

  IsRecorded-Extends :
      (old later : List Row) (m : Migration)
      → Extends old later
      → IsRecorded old m
      → IsRecorded later m
  IsRecorded-Extends old later m (new, e) (r, found, name, sum) =
      (r, rw e (recorded-append m.version old new r found), name, sum)

pub All-get :
    (P : Migration → Type 0) (ms : List Migration) (i : ℕ) (m : Migration)
    → All P ms
    → get_elem? ms i ≡ some m
    → P m
All-get P [] i m h at = absurd (ground arith)
All-get P (x ∷ ms) zero m (h, hs) at = subst P (some_injective at) h
All-get P (x ∷ ms) (suc i) m (h, hs) at = All-get P ms i m hs at

module _ ⦃u : Unicode⦄ ⦃d : Digest⦄ {D : Type 0} (db : Database D) where
  add_row-ledger :
      (r : Row) (t t' : Tables D) → add_row db r t ≡ ran t' → t'.ledger ≡ t.ledger ++ r ∷ []
  add_row-ledger r t t' h = elim (Option-cases (db.record_row r t)) [
    | inr (e, bad) ↦ absurd (cc (rw (bad, add_row) at h))
    | inl good ↦ sym (ap (λ x. x.ledger) (ran-injective (rw (good, add_row) at h)))
  ]

  exec_body-ledger :
      (m : Migration) (t t' : Tables D) (body : Attempt String)
      → exec_body db m t body ≡ ran t'
      → t'.ledger ≡ t.ledger ++ row_of db m ∷ []
  exec_body-ledger m t t' (failed e) h = absurd (cc)
  exec_body-ledger m t t' (done body) h = elim (Attempt-cases (db.exec body t.rest)) [
    | inr (e, bad) ↦ absurd (cc (rw (bad, exec_body) at h))
    | inl (rest, good) ↦
        add_row-ledger (row_of db m) (record { ledger = t.ledger; rest = rest }) t'
          (rw (good, exec_body) at h)
  ]

  accept_row-done :
      (m : Migration) (r : Row) (t t' : Tables D)
      → accept_row db m r t ≡ ran t'
      → (t ≡ t') × (r.name ≡ m.name) × (r.checksum ≡ migration_checksum m.sql)
  accept_row-done m r t t' h =
      elim (Bool-cases (r.name == m.name && r.checksum == migration_checksum m.sql)) [
        | inr other ↦ absurd (cc (rw (other, accept_row) at h))
        | inl same ↦ (
          ran-injective (rw (same, accept_row) at h),
          ground (arith, eq_iff r.name m.name),
          ground (arith, eq_iff r.checksum (migration_checksum m.sql)),
        )
      ]

  apply_new-ledger :
      (m : Migration) (t t' : Tables D)
      → apply_new db m t ≡ ran t'
      → t'.ledger ≡ t.ledger ++ row_of db m ∷ []
  unfolding apply_new
  apply_new-ledger m t t' h = exec_body-ledger m t t' (migration_body m.sql) h

  apply_one-IsRecorded :
      (m : Migration) (t t' : Tables D)
      → apply_one db m t ≡ ran t'
      → IsRecorded t'.ledger m × Extends t.ledger t'.ledger
  unfolding apply_one
  apply_one-IsRecorded m t t' h = elim (Option-cases (db.read m.version t)) [
    | inr (e, bad) ↦ absurd (cc (rw (bad, apply_one) at h))
    | inl good ↦ elim (Option-cases (recorded m.version t.ledger)) [
      | inr (r, found) ↦
          let (same, name, sum) = accept_row-done m r t t' (rw (good, apply_one, found) at h) in
          (rw (← same) (r, found, name, sum), rw (← same) (Extends-refl t.ledger))
      | inl new ↦
          let e = apply_new-ledger m t t' (rw (good, apply_one, new) at h) in
          (
            (row_of db m, rw e (recorded-concat t.ledger (row_of db m) new), refl, refl),
            (row_of db m ∷ [], e),
          )
    ]
  ]

  pub apply_all-IsRecorded :
      (ms : List Migration) (t t' : Tables D)
      → apply_all db ms t ≡ ran t'
      → All (IsRecorded t'.ledger) ms × Extends t.ledger t'.ledger
  unfolding apply_all
  apply_all-IsRecorded [] t t' h =
      (tt, subst (λ x. Extends t.ledger x.ledger) (ran-injective h) (Extends-refl t.ledger))
  apply_all-IsRecorded (m ∷ ms) t t' h = elim (Ran-cases (apply_one db m t)) [
    | inr (e, t₁, bad) ↦ absurd (cc (rw (bad, apply_all) at h))
    | inl (t₁, good) ↦
        let (here, grown) = apply_one-IsRecorded m t t₁ good in
        let (later, grown') = apply_all-IsRecorded ms t₁ t' (rw (good, apply_all) at h) in
        (
          (IsRecorded-Extends t₁.ledger t'.ledger m grown' here, later),
          Extends-trans t.ledger t₁.ledger t'.ledger grown grown',
        )
  ]

  accept_row-same :
      (m : Migration) (r : Row) (t : Tables D)
      → r.name ≡ m.name
      → r.checksum ≡ migration_checksum m.sql
      → accept_row db m r t ≡ ran t
  accept_row-same m r t name sum =
      ground (arith, eq_iff r.name m.name, eq_iff r.checksum (migration_checksum m.sql))

  apply_one-again :
      (m : Migration) (t : Tables D)
      → db.read m.version t ≡ none
      → IsRecorded t.ledger m
      → apply_one db m t ≡ ran t
  unfolding apply_one
  apply_one-again m t good (r, found, name, sum) =
      rw (good, apply_one, found) (accept_row-same m r t name sum)

  pub apply_all-again :
      (ms : List Migration) (t : Tables D)
      → ((v : ℕ) → db.read v t ≡ none)
      → All (IsRecorded t.ledger) ms
      → apply_all db ms t ≡ ran t
  unfolding apply_all
  apply_all-again [] t good h = refl
  apply_all-again (m ∷ ms) t good (h, hs) =
      rw (apply_one-again m t (good m.version) h, apply_all) (apply_all-again ms t good hs)
