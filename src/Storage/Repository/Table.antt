-- ===== src/Storage/Repository/Table.antt =====
-- A table with a primary key, as the row at each key, and the statements that write one row.
use feeds_server.Base.{
  ◌≡◌, refl, ◌≢◌, ◌↔◌, ◌⊎◌, ◌∙◌, ap, String, ◌==◌, eq_iff, Bool, true, Bool-cases, inl, inr, Option,
  none, some, Option-cases, some-injective, if◌then◌else◌,
}

-- A type of keys with a test for equality.
pub record Key {ℓ} (K : Type ℓ) : Type ℓ where
  pub same : K → K → Bool
  pub same_iff : (j k : K) → (same j k ≡ true) ↔ (j ≡ k)

instance abbrev pub text_key : Key String
text_key = record { same = λ s t. s == t; same_iff = eq_iff }

abbrev pub Table {ℓ κ} : Type ℓ → Type κ → Type (ℓ ⊔ κ)
Table K R = K → Option R

-- One column of a table, or several.
abbrev pub column {ℓ κ λ'} :
    {K : Type ℓ} {R : Type κ} {V : Type λ'} → (R → V) → Table K R → Table K V
column p t k = elim (t k) [ none ↦ none | some r ↦ some (p r) ]

-- What stands in the first table stands in the second.
abbrev pub Keeps {ℓ κ} : {K : Type ℓ} {V : Type κ} → Table K V → Table K V → Type (ℓ ⊔ κ)
Keeps {K = K} {V = V} t t' = (k : K) (v : V) → t k ≡ some v → t' k ≡ some v

-- The row behind what stands in a column.
pub column-some {ℓ κ λ'} :
    {K : Type ℓ} {R : Type κ} {V : Type λ'} (p : R → V) (t : Table K R) (k : K) (v : V)
    → column p t k ≡ some v
    → (r : R) × (t k ≡ some r) × (p r ≡ v)
column-some p t k v h = elim (Option-cases (t k)) [
  | inl absent ↦ absurd (cc (rw (column, absent) at h))
  | inr (r, there) ↦ (r, there, some-injective (rw (column, there) at h))
]

module _ {ℓ κ} {K : Type ℓ} {R : Type κ} ⦃key : Key K⦄ where
  -- The row at a key is written, new or not.
  unfoldable pub put : K → R → Table K R → Table K R
  put k r t j = if key.same k j then some r else t j

  -- `ON CONFLICT … DO NOTHING`
  unfoldable pub put_new : K → R → Table K R → Table K R
  unfolding put
  put_new k r t = elim (t k) [ some old ↦ t | none ↦ put k r t ]

  pub get-put : (k : K) (r : R) (t : Table K R) → put k r t k ≡ some r
  unfolding put
  get-put k r t = rw ((key.same_iff k k).1 refl, put) refl

  pub put-other : (k j : K) (r : R) (t : Table K R) → k ≢ j → put k r t j ≡ t j
  unfolding put
  put-other k j r t differs = elim (Bool-cases (key.same k j)) [
    | inr other ↦ rw (put, other) refl
    | inl hit ↦ absurd (differs ((key.same_iff k j).0 hit))
  ]

  pub column-put {λ'} :
      {V : Type λ'} (p : R → V) (k : K) (r : R) (t : Table K R)
      → column p (put k r t) k ≡ some (p r)
  column-put p k r t = rw (column, get-put k r t) refl

  -- What stands in a table behind a write stood there before, or was written.
  pub put-cases :
      (k : K) (r : R) (t : Table K R) (j : K) (x : R)
      → put k r t j ≡ some x
      → ((k ≡ j) × (r ≡ x)) ⊎ (t j ≡ some x)
  unfolding put
  put-cases k r t j x h = elim (Bool-cases (key.same k j)) [
    | inr other ↦ inr (rw (put, other) at h)
    | inl hit ↦ inl ((key.same_iff k j).0 hit, some-injective (rw (put, hit) at h))
  ]

  pub put_new-cases :
      (k : K) (r : R) (t : Table K R) (j : K) (x : R)
      → put_new k r t j ≡ some x
      → ((k ≡ j) × (r ≡ x)) ⊎ (t j ≡ some x)
  unfolding put_new
  put_new-cases k r t j x h = elim (Option-cases (t k)) [
    | inr (old, there) ↦ inr (rw (there, put_new) at h)
    | inl free ↦ put-cases k r t j x (rw (free, put_new) at h)
  ]

  -- A row that is written over one with the same columns keeps every such column.
  pub put-Keeps {λ'} :
      {V : Type λ'} (p : R → V) (k : K) (r : R) (t : Table K R)
      → ((old : R) → t k ≡ some old → p r ≡ p old)
      → Keeps (column p t) (column p (put k r t))
  unfolding put
  put-Keeps p k r t same j v h = elim (Bool-cases (key.same k j)) [
    | inr other ↦ rw (column, put, other) h
    | inl hit ↦
        let at_key : column p t k ≡ some v = rw ((key.same_iff k j).0 hit) h in
        elim (Option-cases (t k)) [
          | inl free ↦ absurd (cc (rw (free, column) at at_key))
          | inr (old, there) ↦
              rw (column, put, hit) (ap some (same old there) ∙ rw (there, column) at at_key)
        ]
  ]

  pub put_new-Keeps {λ'} :
      {V : Type λ'} (p : R → V) (k : K) (r : R) (t : Table K R)
      → Keeps (column p t) (column p (put_new k r t))
  unfolding put_new
  put_new-Keeps p k r t j v h = elim (Option-cases (t k)) [
    | inr (old, there) ↦ rw (there, put_new) h
    | inl free ↦
        rw (free, put_new) (put-Keeps p k r t (λ old there. absurd (cc (rw free at there))) j v h)
  ]
