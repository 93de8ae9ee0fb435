-- ===== src/Feed/Dedup/Resolve.antt =====
-- What resolving and registering the keys of one article do to the three indexes.
use feeds_server.Base.{
  ℕ, String, ◌==◌, eq_iff, Option, none, some, List, [], ◌∷◌, ◌++◌, ◌≡◌, ◌≢◌, ◌⊎◌, ◌↔◌, arith,
  if◌then◌else◌,
}
use feeds_server.Base.Dict.{Dict, lookup, lookup-insert}
use feeds_server.Feed.Dedup.Keys.{ArticleKeys}
use feeds_server.Feed.Dedup.{
  DuplicateReason, Indexes, Candidate, probe, agreed, resolve_canonical, register_key,
  duplicate_by_source_identifier, duplicate_by_normalized_url, duplicate_by_content_fingerprint,
}

-- The value that stays where there is one, or the new one.
abbrev pub or_else {ℓ} : {A : Type ℓ} → Option A → Option A → Option A
or_else (some a) o = some a
or_else none o = o

-- A key that is registered is found under its first holder; other keys are as before.
pub lookup-register_key :
    (m : Dict ℕ) (k j : String) (c : ℕ)
    → j ≢ ""
    → lookup j (register_key m k c) ≡ or_else (lookup j m) (if k == j then some c else none)
unfolding register_key
lookup-register_key m k j c h = ground (arith, eq_iff k "", eq_iff k j, lookup-insert k j c m)

-- What a key finds in an index: nothing where there is no key.
unfoldable pub hit : String → Dict ℕ → Option ℕ
hit key index = if key == "" then none else lookup key index

abbrev pub as_candidates : Option ℕ → DuplicateReason → List Candidate
as_candidates none reason = []
as_candidates (some i) reason = record { index = i; reason = reason } ∷ []

probe_lem :
    (key : String) (index : Dict ℕ) (reason : DuplicateReason)
    → probe key index reason ≡ as_candidates (hit key index) reason
unfolding probe hit
probe_lem key index reason = ground arith

-- The article that the strongest of three findings names, and why.
abbrev pub Strongest : Option ℕ → Option ℕ → Option ℕ → Candidate → Type 0
Strongest a b d c =
    ((a ≡ some c.index) × (c.reason ≡ duplicate_by_source_identifier))
    ⊎ (((a ≡ none) × (b ≡ some c.index) × (c.reason ≡ duplicate_by_normalized_url))
        ⊎ ((a ≡ none)
            × (b ≡ none)
            × (d ≡ some c.index)
            × (c.reason ≡ duplicate_by_content_fingerprint)))

-- A finding that does not speak against the article with index `i`.
abbrev pub Allows : Option ℕ → ℕ → Type 0
Allows o i = (o ≡ none) ⊎ (o ≡ some i)

pub agreed_iff :
    (a b d : Option ℕ) (c : Candidate)
    → (agreed (
          as_candidates a duplicate_by_source_identifier
          ++ (as_candidates b duplicate_by_normalized_url
              ++ as_candidates d duplicate_by_content_fingerprint))
        ≡ some c)
      ↔ (Strongest a b d c × Allows a c.index × Allows b c.index × Allows d c.index)
agreed_iff none none none c = ground arith
agreed_iff a none none c = ground arith
agreed_iff a b none c = ground arith
agreed_iff a b d c = ground arith

module _ (keys : ArticleKeys) (maps : Indexes) where
  -- An article is taken for a duplicate of `c` exactly when the strongest key that finds anything
  -- finds `c`, for the reason that goes with this key, and no key finds another article.
  pub resolve_canonical-eq-some_iff :
      (c : Candidate)
      → (resolve_canonical keys maps ≡ some c) ↔ (
          Strongest
            (hit keys.identifier maps.identifier)
            (hit keys.url maps.url)
            (hit keys.fingerprint maps.fingerprint)
            c
          × Allows (hit keys.identifier maps.identifier) c.index
          × Allows (hit keys.url maps.url) c.index
          × Allows (hit keys.fingerprint maps.fingerprint) c.index)
  unfolding resolve_canonical
  resolve_canonical-eq-some_iff c = simp probe_lem (
      agreed_iff (hit keys.identifier maps.identifier) (hit keys.url maps.url)
        (hit keys.fingerprint maps.fingerprint) c)
