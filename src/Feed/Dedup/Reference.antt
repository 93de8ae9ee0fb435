-- ===== src/Feed/Dedup/Reference.antt =====
-- A description of duplicate removal with no index: each article is compared with all that came
-- before it. `dedup_from` of internal/feed/dedup.go computes the same verdicts.
use feeds_server.Base.{
  ℕ, suc, ◌+◌, String, ◌==◌, eq_iff, Option, none, some, List, [], ◌∷◌, ◌++◌, ◌≡◌, ◌≢◌, refl, sym,
  ◌∙◌, arith, if◌then◌else◌,
}
use mathlib.Core.List.{append_assoc, append-nil}
use feeds_server.Base.Seq.{length, length-append}
use feeds_server.Base.Dict.{Dict, lookup, lookup-nil}
use feeds_server.Base.Text.{Unicode}
use feeds_server.Base.Url.{UrlLibrary}
use feeds_server.Feed.Model.{Article}
use feeds_server.Feed.Dedup.Keys.{ArticleKeys, Fingerprinting, keys_for_article}
use feeds_server.Feed.Dedup.{
  DuplicateReason, DuplicateMatch, Indexes, no_indexes, Candidate, DedupState, dedup_start, agreed,
  settle, probe, resolve_canonical, register_key, register_keys, dedup_step, dedup_from,
  deduplicate_articles, duplicate_by_source_identifier, duplicate_by_normalized_url,
  duplicate_by_content_fingerprint,
}
use feeds_server.Feed.Dedup.Resolve.{or_else, lookup-register_key}

-- An article that was handled: its keys, and the index of its canonical article.
pub record Past : Type 0 where
  pub keys : ArticleKeys
  pub canonical : ℕ

-- The canonical article of the first past article with a key, where `sel` picks the kind of key.
unfoldable pub first_with : (ArticleKeys → String) → String → List Past → Option ℕ
first_with sel k [] = none
first_with sel k (p ∷ ps) = if sel p.keys == k then some p.canonical else first_with sel k ps

unfoldable pub evidence :
    (ArticleKeys → String) → ArticleKeys → List Past → DuplicateReason → List Candidate
unfolding first_with
evidence sel keys past reason =
    if sel keys == "" then [] else elim (first_with sel (sel keys) past) [
      | none ↦ []
      | some i ↦ record { index = i; reason = reason } ∷ []
    ]

unfoldable pub verdict : ArticleKeys → List Past → Option Candidate
unfolding evidence
verdict keys past = agreed (
    evidence (λ k. k.identifier) keys past duplicate_by_source_identifier
    ++ (evidence (λ k. k.url) keys past duplicate_by_normalized_url
        ++ evidence (λ k. k.fingerprint) keys past duplicate_by_content_fingerprint))

abbrev pub canonical_of : Option Candidate → ℕ → ℕ
canonical_of none n = n
canonical_of (some c) n = c.index

abbrev pub kept_before : Option Candidate → ℕ → ℕ
kept_before none n = suc n
kept_before (some c) n = n

module _ ⦃u : Unicode⦄ ⦃l : UrlLibrary⦄ ⦃f : Fingerprinting⦄ where
  -- The verdicts on a list of articles, after `n` kept articles and the given past.
  unfoldable pub verdicts : ℕ → List Past → List Article → List (Option Candidate)
  verdicts n past [] = []
  verdicts n past (a ∷ rest) =
      let keys = keys_for_article a in
      let v = verdict keys past in
      v
      ∷ verdicts (kept_before v n)
          (past ++ record { keys = keys; canonical = canonical_of v n } ∷ []) rest

-- The articles with no verdict against them.
unfoldable pub kept : List (Option Candidate) → List Article → List Article
kept (none ∷ vs) (a ∷ as') = a ∷ kept vs as'
kept (some c ∷ vs) (a ∷ as') = kept vs as'
kept _ _ = []

-- The verdicts with their positions, counted from `i`.
unfoldable pub numbered : ℕ → List (Option Candidate) → List DuplicateMatch
numbered i [] = []
numbered i (none ∷ vs) = numbered (i + 1) vs
numbered i (some c ∷ vs) =
    record { duplicate_index = i; canonical_index = c.index; reason = c.reason }
    ∷ numbered (i + 1) vs

-- An index that answers for every key as the past does.
abbrev Indexed : (ArticleKeys → String) → Dict ℕ → List Past → Type 0
Indexed sel m past = (k : String) → k ≢ "" → lookup k m ≡ first_with sel k past

record AreIndexed (maps : Indexes) (past : List Past) : Type 0 where
  by_identifier : Indexed (λ k. k.identifier) maps.identifier past
  by_url : Indexed (λ k. k.url) maps.url past
  by_fingerprint : Indexed (λ k. k.fingerprint) maps.fingerprint past

first_with-append :
    (sel : ArticleKeys → String) (k : String) (past : List Past) (p : Past)
    → first_with sel k (past ++ p ∷ [])
      ≡ or_else (first_with sel k past) (if sel p.keys == k then some p.canonical else none)
unfolding first_with
first_with-append sel k [] p = ground arith
first_with-append sel k (q ∷ past) p = ground (arith, first_with-append sel k past p)

register_key-Indexed :
    (sel : ArticleKeys → String) (m : Dict ℕ) (past : List Past) (p : Past)
    → Indexed sel m past
    → Indexed sel (register_key m (sel p.keys) p.canonical) (past ++ p ∷ [])
register_key-Indexed sel m past p h k ne =
    rw (first_with-append, lookup-register_key m (sel p.keys) k p.canonical ne, h k ne)

probe-eq-evidence :
    (sel : ArticleKeys → String) (m : Dict ℕ) (past : List Past) (keys : ArticleKeys)
    (reason : DuplicateReason)
    → Indexed sel m past
    → probe (sel keys) m reason ≡ evidence sel keys past reason
unfolding probe evidence
probe-eq-evidence sel m past keys reason h = ground (arith, eq_iff (sel keys) "", h (sel keys))

resolve_canonical-eq-verdict :
    (keys : ArticleKeys) (maps : Indexes) (past : List Past)
    → AreIndexed maps past
    → resolve_canonical keys maps ≡ verdict keys past
unfolding resolve_canonical verdict
resolve_canonical-eq-verdict keys maps past h = cc (
  probe-eq-evidence (λ k. k.identifier) maps.identifier past keys duplicate_by_source_identifier
      h.by_identifier,
  probe-eq-evidence (λ k. k.url) maps.url past keys duplicate_by_normalized_url h.by_url,
  probe-eq-evidence (λ k. k.fingerprint) maps.fingerprint past keys duplicate_by_content_fingerprint
      h.by_fingerprint,
)

register_keys-AreIndexed :
    (keys : ArticleKeys) (n : ℕ) (maps : Indexes) (past : List Past)
    → AreIndexed maps past
    → AreIndexed (register_keys keys n maps) (past ++ record { keys = keys; canonical = n } ∷ [])
unfolding register_keys
register_keys-AreIndexed keys n maps past h = record {
  by_identifier =
      register_key-Indexed (λ k. k.identifier) maps.identifier past
        (record { keys = keys; canonical = n }) h.by_identifier;
  by_url =
      register_key-Indexed (λ k. k.url) maps.url past (record { keys = keys; canonical = n })
        h.by_url;
  by_fingerprint =
      register_key-Indexed (λ k. k.fingerprint) maps.fingerprint past
        (record { keys = keys; canonical = n }) h.by_fingerprint;
}

no_indexes-AreIndexed : AreIndexed no_indexes []
unfolding first_with
no_indexes-AreIndexed = record {
  by_identifier = λ k ne. lookup-nil k;
  by_url = λ k ne. lookup-nil k;
  by_fingerprint = λ k ne. lookup-nil k;
}

-- The loop body under a verdict `v`, against the description.
module _ (i : ℕ) (a : Article) (keys : ArticleKeys) (s : DedupState) where
  settle-AreIndexed :
      (v : Option Candidate) (past : List Past)
      → AreIndexed s.maps past
      → AreIndexed
          (settle i a keys v s).maps
          (past ++ record { keys = keys; canonical = canonical_of v (length s.unique) } ∷ [])
  unfolding settle
  settle-AreIndexed none past h = register_keys-AreIndexed keys (length s.unique) s.maps past h
  settle-AreIndexed (some c) past h = register_keys-AreIndexed keys c.index s.maps past h

  length-settle :
      (v : Option Candidate) → length (settle i a keys v s).unique ≡ kept_before v (length s.unique)
  unfolding settle
  length-settle none = omega (arith, length-append s.unique (a ∷ []))
  length-settle (some c) = refl

  settle-kept :
      (v : Option Candidate) (vs : List (Option Candidate)) (rest : List Article)
      → (settle i a keys v s).unique ++ kept vs rest ≡ s.unique ++ kept (v ∷ vs) (a ∷ rest)
  unfolding settle kept
  settle-kept none vs rest = append_assoc s.unique (a ∷ []) (kept vs rest)
  settle-kept (some c) vs rest = refl

  settle-numbered :
      (v : Option Candidate) (vs : List (Option Candidate))
      → (settle i a keys v s).matches ++ numbered (i + 1) vs ≡ s.matches ++ numbered i (v ∷ vs)
  unfolding settle numbered
  settle-numbered none vs = refl
  settle-numbered (some c) vs = rw append_assoc

module _ ⦃u : Unicode⦄ ⦃l : UrlLibrary⦄ ⦃f : Fingerprinting⦄ where
  dedup_from-eq-verdicts :
      (i : ℕ) (s : DedupState) (past : List Past) (rest : List Article)
      → AreIndexed s.maps past
      → ((dedup_from i s rest).unique
          ≡ s.unique ++ kept (verdicts (length s.unique) past rest) rest)
        × ((dedup_from i s rest).matches
            ≡ s.matches ++ numbered i (verdicts (length s.unique) past rest))
  unfolding dedup_from verdicts dedup_step
  dedup_from-eq-verdicts i s past [] h =
      unfold kept numbered in (sym (append-nil _), sym (append-nil _))
  dedup_from-eq-verdicts i s past (a ∷ rest) h =
      let keys = keys_for_article a in
      let v = verdict keys past in
      let past' : List Past =
        past ++ record { keys = keys; canonical = canonical_of v (length s.unique) } ∷ [] in
      let (kept_eq, numbered_eq) =
        dedup_from-eq-verdicts (i + 1) (settle i a keys v s) past' rest
          (settle-AreIndexed i a keys s v past h) in
      let vs = verdicts (kept_before v (length s.unique)) past' rest in
      let same = resolve_canonical-eq-verdict keys s.maps past h in
      rw (same, dedup_from)
        (
          kept_eq ∙ rw length-settle (settle-kept i a keys s v vs rest),
          numbered_eq ∙ rw length-settle (settle-numbered i a keys s v vs),
        )

  -- Duplicate removal keeps the articles, and reports the duplicates, that the description by
  -- comparison with all earlier articles says, in the same order.
  pub deduplicate-eq-verdicts :
      (articles : List Article)
      → deduplicate_articles articles
        ≡ (kept (verdicts 0 [] articles) articles, numbered 0 (verdicts 0 [] articles))
  unfolding deduplicate_articles
  deduplicate-eq-verdicts articles =
      let (kept_eq, numbered_eq) =
        dedup_from-eq-verdicts 0 dedup_start [] articles no_indexes-AreIndexed in
      λ j. (kept_eq j, numbered_eq j)
