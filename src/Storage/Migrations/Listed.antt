-- ===== src/Storage/Migrations/Listed.antt =====
-- Which migrations `Migrations` returns, and in which order.
use feeds_server.Base.{
  ℕ, zero, suc, ◌+◌, ◌≡◌, inl, inr, refl, sym, ◌∙◌, ap, subst, arith, true, Bool-cases, some, List,
  [], ◌∷◌, ltb,
}
use feeds_server.Base.Seq.{get_elem?}
use feeds_server.Storage.Attempt.{done, Attempt-cases}
use feeds_server.Storage.Migrations.{
  Migration, Entry, is_migration, migration_version, entry_body, has_version, read_entry,
  read_entries, snoc_migration, place, sort_by_version, is_contiguous, migrations,
}

contiguous_at :
    (expected : ℕ) (ms : List Migration) (i : ℕ) (m : Migration)
    → is_contiguous expected ms ≡ true
    → get_elem? ms i ≡ some m
    → m.version ≡ expected + i
unfolding is_contiguous
contiguous_at expected [] i m h at = ground arith
contiguous_at expected (x ∷ ms) zero m h at = ground arith
contiguous_at expected (x ∷ ms) (suc i) m h at =
    omega (arith, contiguous_at (expected + 1) ms i m (ground arith) at)

migrations_parts :
    (entries : List Entry) (ms : List Migration)
    → migrations (some entries) ≡ done ms
    → (read : List Migration) × (read_entries [] entries ≡ done read)
      × (sort_by_version read ≡ ms)
      × (is_contiguous 1 ms ≡ true)
unfolding migrations
migrations_parts entries ms h = elim (Attempt-cases (read_entries [] entries)) [
  | inr (message, bad) ↦ absurd (cc (rw (bad, migrations) at h))
  | inl (read, good) ↦ elim (Bool-cases (is_contiguous 1 (sort_by_version read))) [
    | inr gap ↦ absurd (cc (rw (good, migrations, gap) at h))
    | inl fine ↦
        let same : sort_by_version read ≡ ms = ground (arith, rw (good, migrations, fine) at h) in
        (read, good, same, rw (← same) fine)
  ]
]

-- The migrations that are returned are numbered from 1 without a gap: the one at index `i` has
-- version `i + 1`.
pub migrations-version :
    (entries : List Entry) (ms : List Migration) (i : ℕ) (m : Migration)
    → migrations (some entries) ≡ done ms
    → get_elem? ms i ≡ some m
    → m.version ≡ 1 + i
migrations-version entries ms i m h at =
    let (read, good, same, fine) = migrations_parts entries ms h in contiguous_at 1 ms i m fine at

-- What a migration holds of an entry.
abbrev pub Reads : Entry → Migration → Type 0
Reads e m =
    (m.name ≡ e.name)
    × (migration_version e.name ≡ done m.version)
    × (entry_body e.content ≡ done m.sql)

read_entry-Reads :
    (so_far : List Migration) (e : Entry) (m : Migration) → read_entry so_far e ≡ done m → Reads e m
unfolding read_entry
read_entry-Reads so_far e m h = elim (Attempt-cases (migration_version e.name)) [
  | inr (message, bad) ↦ absurd (cc (rw (bad, read_entry) at h))
  | inl (v, version) ↦ elim (Bool-cases (has_version v so_far)) [
    | inl twice ↦ absurd (cc (rw (version, read_entry, twice) at h))
    | inr fresh ↦ elim (Attempt-cases (entry_body e.content)) [
      | inr (message, bad) ↦ absurd (cc (rw (version, read_entry, fresh, bad) at h))
      | inl (sql, body) ↦
          let same : record { version = v; name = e.name; sql = sql } ≡ m =
            ground (arith, rw (version, read_entry, fresh, body) at h) in
          (
            sym (ap (λ x. x.name) same),
            version ∙ ap (λ x. done x.version) same,
            body ∙ ap (λ x. done x.sql) same,
          )
    ]
  ]
]

-- One of the migrations satisfies `P`.
abbrev pub Has : (Migration → Type 0) → List Migration → Type 0
Has P ms = (i : ℕ) × (m : Migration) × (get_elem? ms i ≡ some m) × P m

module _ (P : Migration → Type 0) where
  Has-tail : (x : Migration) (ms : List Migration) → Has P ms → Has P (x ∷ ms)
  Has-tail x ms (i, m, at, h) = (suc i, m, at, h)

  Has-snoc_last : (xs : List Migration) (m : Migration) → P m → Has P (snoc_migration xs m)
  Has-snoc_last [] m h = (0, m, refl, h)
  Has-snoc_last (x ∷ xs) m h = Has-tail x (snoc_migration xs m) (Has-snoc_last xs m h)

  Has-snoc_old : (xs : List Migration) (m : Migration) → Has P xs → Has P (snoc_migration xs m)
  Has-snoc_old [] m (i, a, at, h) = absurd (ground arith)
  Has-snoc_old (x ∷ xs) m (zero, a, at, h) = (zero, a, at, h)
  Has-snoc_old (x ∷ xs) m (suc i, a, at, h) =
      Has-tail x (snoc_migration xs m) (Has-snoc_old xs m (i, a, at, h))

  Has-place : (m : Migration) (ms : List Migration) → P m → Has P (place m ms)
  unfolding place
  Has-place m [] h = (0, m, refl, h)
  Has-place m (x ∷ xs) h = elim (Bool-cases (ltb m.version x.version)) [
    | inl before ↦ rw before (0, m, refl, h)
    | inr after ↦ rw after (Has-tail x (place m xs) (Has-place m xs h))
  ]

  Has-place_old : (m : Migration) (ms : List Migration) → Has P ms → Has P (place m ms)
  unfolding place
  Has-place_old m [] (i, a, at, h) = absurd (ground arith)
  Has-place_old m (x ∷ xs) (zero, a, at, h) = elim (Bool-cases (ltb m.version x.version)) [
    | inl before ↦ rw before (1, a, at, h)
    | inr after ↦ rw after (0, a, at, h)
  ]
  Has-place_old m (x ∷ xs) (suc i, a, at, h) = elim (Bool-cases (ltb m.version x.version)) [
    | inl before ↦ rw before (suc (suc i), a, at, h)
    | inr after ↦ rw after (Has-tail x (place m xs) (Has-place_old m xs (i, a, at, h)))
  ]

  Has-sort : (ms : List Migration) → Has P ms → Has P (sort_by_version ms)
  unfolding sort_by_version
  Has-sort [] (i, a, at, h) = absurd (ground arith)
  Has-sort (x ∷ xs) (zero, a, at, h) =
      Has-place x (sort_by_version xs) (subst P (sym (some_eq x a at)) h)
    where
      some_eq : (x a : Migration) → some x ≡ some a → x ≡ a
      some_eq x a e = cc
  Has-sort (x ∷ xs) (suc i, a, at, h) =
      Has-place_old x (sort_by_version xs) (Has-sort xs (i, a, at, h))

  read_entries-keeps :
      (so_far out : List Migration) (es : List Entry)
      → read_entries so_far es ≡ done out
      → Has P so_far
      → Has P out
  unfolding read_entries
  read_entries-keeps so_far out [] r h = subst (Has P) (done_eq so_far out r) h
    where
      done_eq : (x a : List Migration) → done x ≡ done a → x ≡ a
      done_eq x a e = cc
  read_entries-keeps so_far out (e ∷ es) r h = elim (Bool-cases (is_migration e)) [
    | inr other ↦ read_entries-keeps so_far out es (rw (other, read_entries) at r) h
    | inl sql ↦ elim (Attempt-cases (read_entry so_far e)) [
      | inr (message, bad) ↦ absurd (cc (rw (sql, read_entries, bad) at r))
      | inl (m, good) ↦
          read_entries-keeps (snoc_migration so_far m) out es (rw (sql, read_entries, good) at r)
            (Has-snoc_old so_far m h)
    ]
  ]

read_entries_complete :
    (so_far out : List Migration) (es : List Entry) (j : ℕ) (e : Entry)
    → read_entries so_far es ≡ done out
    → get_elem? es j ≡ some e
    → is_migration e ≡ true
    → Has (Reads e) out
unfolding read_entries
read_entries_complete so_far out [] j e r at sql = absurd (ground arith)
read_entries_complete so_far out (x ∷ es) zero e r at sql =
    let same : x ≡ e = ground arith in
    let sql' : is_migration x ≡ true = rw same sql in
    elim (Attempt-cases (read_entry so_far x)) [
      | inr (message, bad) ↦ absurd (cc (rw (sql', read_entries, bad) at r))
      | inl (m, good) ↦
          read_entries-keeps (Reads e) (snoc_migration so_far m) out es
            (rw (sql', read_entries, good) at r)
            (Has-snoc_last (Reads e) so_far m
              (subst (λ y. Reads y m) same (read_entry-Reads so_far x m good)))
    ]
read_entries_complete so_far out (x ∷ es) (suc j) e r at sql = elim (Bool-cases (is_migration x)) [
  | inr other ↦ read_entries_complete so_far out es j e (rw (other, read_entries) at r) at sql
  | inl sql' ↦ elim (Attempt-cases (read_entry so_far x)) [
    | inr (message, bad) ↦ absurd (cc (rw (sql', read_entries, bad) at r))
    | inl (m, good) ↦
        read_entries_complete (snoc_migration so_far m) out es j e
          (rw (sql', read_entries, good) at r) at sql
  ]
]

-- Where the migrations are returned, no SQL file is left out: for each file of the directory with
-- the suffix there is a migration with its name, its version and its trimmed body.
pub migrations_complete :
    (entries : List Entry) (ms : List Migration) (j : ℕ) (e : Entry)
    → migrations (some entries) ≡ done ms
    → get_elem? entries j ≡ some e
    → is_migration e ≡ true
    → Has (Reads e) ms
migrations_complete entries ms j e h at sql =
    let (read, good, same, fine) = migrations_parts entries ms h in
    subst (Has (Reads e)) same
      (Has-sort (Reads e) read (read_entries_complete [] read entries j e good at sql))
