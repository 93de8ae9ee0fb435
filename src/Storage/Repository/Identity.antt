-- ===== src/Storage/Repository/Identity.antt =====
-- What a successful write of an article claims, and later writes.
use feeds_server.Base.{
  ℕ, zero, suc, ◌≡◌, ◌≢◌, sym, ap, ◌∙◌, String, inl, inr, Option, none, some, some-injective, List,
  [], ◌∷◌,
}
use feeds_server.Base.Seq.{All, get_elem?}
use feeds_server.Feed.Model.{Time, FeedsId, Float64}
use feeds_server.Storage.Attempt.{done}
use feeds_server.Storage.Store.{Store}
use feeds_server.Storage.Repository.Rows.{Tables}
use feeds_server.Storage.Repository.Writes.{ArticleIdentityKey, ArticleWrite}
use feeds_server.Storage.Repository.Server.{Postgres}
use feeds_server.Storage.Repository.Articles.{
  key_of, ensure_identity_keys, article_transaction, upsert_article,
}
use feeds_server.Storage.Repository.Articles.Inverted.{
  feed_column, key_column, history_column, store_article-done, ensure_identity_key-done,
  ensure_identity_keys-cons, ensure_source_history-done, article_transaction-done,
  upsert_article-cases,
}
use feeds_server.Storage.Repository.Bindings.{
  Extends, Extends-trans, ensure_identity_keys-Extends, with_history-Extends,
  upsert_article-Extends,
}
use feeds_server.Storage.Repository.History.{Operation, perform_all, perform_all-Extends}

-- What an article that is written claims.
pub record IsClaimed {F : Type 0} (w : ArticleWrite) (t : Tables F) : Type 0 where
  pub feed : feed_column t w.article.id ≡ some w.article.feed_id
  pub keys :
      All (λ key. key_column t (key_of w.article.feed_id key) ≡ some w.article.id) w.identity_keys
  pub history : history_column t w.source_history_id ≡ some (w.article.id, w.article.feed_id)

All-get {ℓ κ} :
    {A : Type ℓ} (Q : A → Type κ) (xs : List A) (i : ℕ) (a : A)
    → All Q xs
    → get_elem? xs i ≡ some a
    → Q a
All-get Q [] i a h e = absurd (cc e)
All-get Q (x ∷ xs) zero a h e = rw (← some-injective e) h.0
All-get Q (x ∷ xs) (suc i) a h e = All-get Q xs i a h.1 e

claimed_key :
    {F : Type 0} (w : ArticleWrite) (t : Tables F) (i : ℕ) (key : ArticleIdentityKey)
    → get_elem? w.identity_keys i ≡ some key
    → IsClaimed w t
    → key_column t (key_of w.article.feed_id key) ≡ some w.article.id
claimed_key w t i key at c =
    All-get (λ j. key_column t (key_of w.article.feed_id j) ≡ some w.article.id) w.identity_keys i
      key c.keys at

module _ {F : Type 0} ⦃pg : Postgres F⦄ (now : Time) where
  All-Extends :
      (feed_id article_id : FeedsId) (keys : List ArticleIdentityKey) (t t' : Tables F)
      → Extends t t'
      → All (λ key. key_column t (key_of feed_id key) ≡ some article_id) keys
      → All (λ key. key_column t' (key_of feed_id key) ≡ some article_id) keys
  All-Extends feed_id article_id [] t t' f h = tt
  All-Extends feed_id article_id (key ∷ keys) t t' f (k, h) =
      (f.keys (key_of feed_id key) article_id k, All-Extends feed_id article_id keys t t' f h)

  ensure_identity_keys-claims :
      (feed_id article_id : FeedsId) (keys : List ArticleIdentityKey) (t t' : Tables F)
      → ensure_identity_keys now feed_id article_id keys t ≡ done t'
      → All (λ key. key_column t' (key_of feed_id key) ≡ some article_id) keys
  unfolding ensure_identity_keys
  ensure_identity_keys-claims feed_id article_id [] t t' h = tt
  ensure_identity_keys-claims feed_id article_id (key ∷ keys) t t' h =
      let (t₁, (here, later)) = ensure_identity_keys-cons now feed_id article_id key keys t t' h in
      let (same, bound) = ensure_identity_key-done now feed_id article_id key t t₁ here in
      let kept = ensure_identity_keys-Extends now feed_id article_id keys t₁ t' later in
      (
        kept.keys (key_of feed_id key) article_id bound,
        ensure_identity_keys-claims feed_id article_id keys t₁ t' later,
      )

  article_transaction-IsClaimed :
      (w : ArticleWrite) (t t' : Tables F) → article_transaction now w t ≡ done t' → IsClaimed w t'
  article_transaction-IsClaimed w t t' h =
      let (t₁, (t₂, (stored, (keyed, noted)))) = article_transaction-done now w t t' h in
      let (same₁, fed) = store_article-done now w t t₁ stored in
      let (same₃, bound) = ensure_source_history-done now w t₂ t' noted in
      let feed_id = w.article.feed_id in
      let id = w.article.id in
      let keys = w.identity_keys in
      let kept₂ = ensure_identity_keys-Extends now feed_id id keys t₁ t₂ keyed in
      let kept₃ : Extends t₂ t' = rw (← same₃) (with_history-Extends now w t₂) in
      record {
        feed = kept₃.articles id feed_id (kept₂.articles id feed_id fed);
        keys =
            All-Extends feed_id id keys t₂ t' kept₃
              (ensure_identity_keys-claims feed_id id keys t₁ t₂ keyed);
        history = bound;
      }

module _ {F P : Type 0} ⦃pg : Postgres F⦄ (s : Option (Store P)) where
  -- Where `UpsertArticle` succeeds, the article is stored under its feed, each of its identity keys
  -- is bound to it, and so is its history entry, with the feed.
  pub upsert_article-IsClaimed :
      (now : Time) (w : ArticleWrite) (t t' : Tables F)
      → upsert_article now s w t ≡ (none, t')
      → IsClaimed w t'
  upsert_article-IsClaimed now w t t' h = elim (upsert_article-cases now s w t) [
    | inl (e, refused) ↦ absurd (cc (rw refused at h))
    | inr (t₁, (ran, (valid, right))) ↦
        let same : t₁ ≡ t' = ap (λ r. r.1) (sym ran ∙ h) in
        article_transaction-IsClaimed now w t t' (rw (← same) right)
  ]

  -- An identity key that is bound to one article refuses the write of another one under the same
  -- feed that names it: `UpsertArticle` fails and leaves the tables as they are.
  pub upsert_article-taken :
      (now : Time) (w : ArticleWrite) (t : Tables F) (i : ℕ) (key : ArticleIdentityKey)
      (other : FeedsId)
      → get_elem? w.identity_keys i ≡ some key
      → key_column t (key_of w.article.feed_id key) ≡ some other
      → other ≢ w.article.id
      → (e : String) × (upsert_article now s w t ≡ (some e, t))
  upsert_article-taken now w t i key other at taken differs =
      elim (upsert_article-cases now s w t) [
        | inl refused ↦ refused
        | inr (t', (ran, (valid, right))) ↦
            let claimed = article_transaction-IsClaimed now w t t' right in
            let kept : Extends t t' = rw ran at (upsert_article-Extends s now w t) in
            let k = key_of w.article.feed_id key in
            let mine = claimed_key w t' i key at claimed in
            absurd (differs (some-injective (sym (kept.keys k other taken) ∙ mine)))
      ]

  -- Two successful writes of articles under one feed that share an identity key are writes of one
  -- article, whatever other writes run between them.
  pub upsert_article-agree :
      ⦃f : Float64 F⦄ (now later : Time) (v w : ArticleWrite) (t t₁ t₂ : Tables F)
      (os : List (Time × Operation F)) (i j : ℕ) (key : ArticleIdentityKey)
      → upsert_article now s v t ≡ (none, t₁)
      → upsert_article later s w (perform_all s os t₁) ≡ (none, t₂)
      → v.article.feed_id ≡ w.article.feed_id
      → get_elem? v.identity_keys i ≡ some key
      → get_elem? w.identity_keys j ≡ some key
      → v.article.id ≡ w.article.id
  upsert_article-agree now later v w t t₁ t₂ os i j key h₁ h₂ feed at₁ at₂ =
      let t' = perform_all s os t₁ in
      let first = claimed_key v t₁ i key at₁ (upsert_article-IsClaimed now v t t₁ h₁) in
      let second = claimed_key w t₂ j key at₂ (upsert_article-IsClaimed later w t' t₂ h₂) in
      let kept : Extends t' t₂ = rw h₂ at (upsert_article-Extends s later w t') in
      let all = Extends-trans t₁ t' t₂ (perform_all-Extends s os t₁) kept in
      let k = key_of v.article.feed_id key in
      some-injective (
        sym (all.keys k v.article.id first)
        ∙ (ap (λ g. key_column t₂ (key_of g key)) feed ∙ second))
