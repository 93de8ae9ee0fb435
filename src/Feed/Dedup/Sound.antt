-- ===== src/Feed/Dedup/Sound.antt =====
-- Why `deduplicate_articles` reports an article: an earlier article has one of its keys.
use feeds_server.Base.{
  ℕ, suc, ◌+◌, ◌<◌, ◌≤◌, String, ◌==◌, eq_iff, Option, none, some, List, [], ◌∷◌, ◌++◌, ◌≡◌, ◌≢◌,
  ◌⊎◌, inl, inr, refl, sym, ap, arith, Option-cases, Bool-cases, if◌then◌else◌,
}
use mathlib.Core.List.{append_assoc}
use feeds_server.Base.Seq.{
  length, All, get_elem?, get_elem?-append, get_elem?-concat, get_elem?-length,
  lt-length_of_get_elem?, get_elem?-concat-cases, length-append,
}
use feeds_server.Base.Text.{Unicode}
use feeds_server.Base.Url.{UrlLibrary}
use feeds_server.Feed.Model.{Article}
use feeds_server.Feed.Dedup.Keys.{ArticleKeys, Fingerprinting, keys_for_article}
use feeds_server.Feed.Dedup.{
  Candidate, DuplicateMatch, DuplicateReason, deduplicate_articles, duplicate_by_source_identifier,
  duplicate_by_normalized_url, duplicate_by_content_fingerprint,
}
use feeds_server.Feed.Dedup.Resolve.{as_candidates, agreed_iff, Strongest}
use feeds_server.Feed.Dedup.Reference.{
  Past, verdict, verdicts, kept, numbered, deduplicate-eq-verdicts, first_with, evidence,
}

-- What a kind of key finds in the past.
finding : (ArticleKeys → String) → ArticleKeys → List Past → Option ℕ
finding sel keys past = if sel keys == "" then none else first_with sel (sel keys) past

evidence_lem :
    (sel : ArticleKeys → String) (keys : ArticleKeys) (past : List Past) (reason : DuplicateReason)
    → evidence sel keys past reason ≡ as_candidates (finding sel keys past) reason
unfolding evidence finding
evidence_lem sel keys past reason = ground arith

verdict-Strongest :
    (keys : ArticleKeys) (past : List Past) (c : Candidate)
    → verdict keys past ≡ some c
    → Strongest
        (finding (λ k. k.identifier) keys past)
        (finding (λ k. k.url) keys past)
        (finding (λ k. k.fingerprint) keys past)
        c
unfolding verdict
verdict-Strongest keys past c h =
    ((agreed_iff (finding (λ k. k.identifier) keys past) (finding (λ k. k.url) keys past)
        (finding (λ k. k.fingerprint) keys past) c).0
      (simp evidence_lem at h)).0

-- Two articles have the same key of a kind, and it is not empty.
abbrev pub Shares : (ArticleKeys → String) → ArticleKeys → ArticleKeys → Type 0
Shares sel a b = (sel a ≢ "") × (sel b ≡ sel a)

-- The key that goes with the reason is shared.
abbrev pub SharesKey : DuplicateReason → ArticleKeys → ArticleKeys → Type 0
SharesKey reason a b =
    ((reason ≡ duplicate_by_source_identifier) × Shares (λ k. k.identifier) a b)
    ⊎ (((reason ≡ duplicate_by_normalized_url) × Shares (λ k. k.url) a b)
        ⊎ ((reason ≡ duplicate_by_content_fingerprint) × Shares (λ k. k.fingerprint) a b))

-- A past article with the key, and its place in the past.
first_with-found :
    (sel : ArticleKeys → String) (k : String) (past : List Past) (i : ℕ)
    → first_with sel k past ≡ some i
    → (e : ℕ) × (p : Past) × (get_elem? past e ≡ some p) × (sel p.keys ≡ k) × (p.canonical ≡ i)
unfolding first_with
first_with-found sel k [] i h = ground arith
first_with-found sel k (p ∷ past) i h = elim (Bool-cases (sel p.keys == k)) [
  | inl same ↦ (0, p, refl, (eq_iff (sel p.keys) k).0 same, ground arith)
  | inr other ↦
      let (e, q, at, key, canonical) = first_with-found sel k past i (rw other at h) in
      (suc e, q, at, key, canonical)
]

finding-found :
    (sel : ArticleKeys → String) (keys : ArticleKeys) (past : List Past) (i : ℕ)
    → finding sel keys past ≡ some i
    → (e : ℕ) × (p : Past) × (get_elem? past e ≡ some p)
      × Shares sel keys p.keys
      × (p.canonical ≡ i)
unfolding finding
finding-found sel keys past i h = elim (Bool-cases (sel keys == "")) [
  | inl empty ↦ absurd (cc (rw empty at h))
  | inr there ↦
      let (e, p, at, key, canonical) = first_with-found sel (sel keys) past i (rw there at h) in
      (e, p, at, (ground (arith, eq_iff (sel keys) ""), key), canonical)
]

verdict-found :
    (keys : ArticleKeys) (past : List Past) (c : Candidate)
    → verdict keys past ≡ some c
    → (e : ℕ) × (p : Past) × (get_elem? past e ≡ some p)
      × SharesKey c.reason keys p.keys
      × (p.canonical ≡ c.index)
verdict-found keys past c h = elim (verdict-Strongest keys past c h) [
  | inl (hit, reason) ↦
      let (e, p, at, shared, same) = finding-found _ keys past c.index hit in
      (e, p, at, inl (reason, shared), same)
  | inr (inl (_, hit, reason)) ↦
      let (e, p, at, shared, same) = finding-found _ keys past c.index hit in
      (e, p, at, inr (inl (reason, shared)), same)
  | inr (inr (_, _, hit, reason)) ↦
      let (e, p, at, shared, same) = finding-found _ keys past c.index hit in
      (e, p, at, inr (inr (reason, shared)), same)
]

module _ ⦃u : Unicode⦄ ⦃l : UrlLibrary⦄ ⦃f : Fingerprinting⦄ where
  -- A report is justified: it names an article and an earlier article that share the key of the
  -- reason, and a kept article.
  abbrev pub IsJustified : List Article → ℕ → DuplicateMatch → Type 0
  IsJustified articles total m =
      (e : ℕ) × (a : Article) × (b : Article) × (e < m.duplicate_index)
      × (get_elem? articles e ≡ some b)
      × (get_elem? articles m.duplicate_index ≡ some a)
      × SharesKey m.reason (keys_for_article a) (keys_for_article b)
      × (m.canonical_index < total)

  -- The past is that of the articles that are done, of which `n` were kept.
  record Describes (n : ℕ) (past : List Past) (done : List Article) : Type 0 where
    same_length : length past ≡ length done
    at :
        (e : ℕ) (p : Past)
        → get_elem? past e ≡ some p
        → (b : Article) × (get_elem? done e ≡ some b)
          × (p.keys ≡ keys_for_article b)
          × (p.canonical < n)

  Describes-concat :
      (n n' i : ℕ) (past : List Past) (done : List Article) (a : Article)
      → Describes n past done
      → n ≤ n'
      → i < n'
      → Describes n'
          (past ++ record { keys = keys_for_article a; canonical = i } ∷ [])
          (done ++ a ∷ [])
  Describes-concat n n' i past done a d le lt = record {
    same_length = omega (arith, length-append past _, length-append done _, d.same_length);
    at = λ e p h. elim (get_elem?-concat-cases past _ e h) [
      | inl old ↦
          let (b, at, keys, fits) = d.at e p old in
          (b, get_elem?-append done _ e at, keys, omega arith)
      | inr (last, same) ↦ (
        a,
        rw (last, d.same_length) (get_elem?-concat done a),
        sym (ap (λ q. q.keys) same),
        rw (← same) lt,
      )
    ];
  }

  Describes-nil : Describes 0 [] []
  Describes-nil = record { same_length = refl; at = λ e p h. ground arith }

  found-IsJustified :
      (articles : List Article) (total n : ℕ) (past : List Past) (done rest : List Article)
      (a : Article) (c : Candidate)
      → Describes n past done
      → verdict (keys_for_article a) past ≡ some c
      → done ++ a ∷ rest ≡ articles
      → n ≤ total
      → IsJustified articles total
          (record { duplicate_index = length done; canonical_index = c.index; reason = c.reason })
        × (c.index < n)
  found-IsJustified articles total n past done rest a c d found whole le =
      let (e, q, past_at, shared, same) = verdict-found (keys_for_article a) past c found in
      let (b, done_at, keys, fits) = d.at e q past_at in
      (
        (
          e,
          a,
          b,
          lt-length_of_get_elem? done e done_at,
          rw (← whole) (get_elem?-append done (a ∷ rest) e done_at),
          rw (← whole) (get_elem?-length done rest a),
          rw (← keys) shared,
          omega (arith, same, fits),
        ),
        omega (arith, same, fits),
      )

  numbered-IsJustified :
      (articles : List Article) (total n : ℕ) (past : List Past) (done rest : List Article)
      → Describes n past done
      → done ++ rest ≡ articles
      → n + length (kept (verdicts n past rest) rest) ≡ total
      → All (IsJustified articles total) (numbered (length done) (verdicts n past rest))
  unfolding verdicts kept numbered
  numbered-IsJustified articles total n past done [] d whole sum = tt
  numbered-IsJustified articles total n past done (a ∷ rest) d whole sum =
      let whole' : (done ++ a ∷ []) ++ rest ≡ articles = rw append_assoc whole in
      let next : length (done ++ a ∷ []) ≡ length done + 1 = length-append done (a ∷ []) in
      elim (Option-cases (verdict (keys_for_article a) past)) [
        | inl fresh ↦
            let p : Past = record { keys = keys_for_article a; canonical = n } in
            let d' = Describes-concat n (suc n) n past done a d (omega arith) (omega arith) in
            let sum' = rw (fresh, verdicts) at sum in
            let ih =
              numbered-IsJustified articles total (suc n) (past ++ p ∷ []) (done ++ a ∷ []) rest d'
                whole' (omega (arith, sum')) in
            rw (fresh, ← next) ih
        | inr (c, found) ↦
            let p : Past = record { keys = keys_for_article a; canonical = c.index } in
            let sum' = rw (found, verdicts) at sum in
            let (justified, fits) =
              found-IsJustified articles total n past done rest a c d found whole
                (omega (arith, sum')) in
            let d' = Describes-concat n n c.index past done a d (omega arith) fits in
            let ih =
              numbered-IsJustified articles total n (past ++ p ∷ []) (done ++ a ∷ []) rest d' whole'
                sum' in
            rw (found, ← next) (justified, ih)
      ]

  -- Every report of a duplicate is justified: an article that stands before the reported one has
  -- the same key of the reported kind, and the canonical index is that of a kept article.
  pub deduplicate-IsJustified :
      (articles : List Article)
      → All
          (IsJustified articles (length (deduplicate_articles articles).0))
          (deduplicate_articles articles).1
  deduplicate-IsJustified articles =
      rw deduplicate-eq-verdicts
        (numbered-IsJustified articles _ 0 [] [] articles Describes-nil refl (omega arith))
