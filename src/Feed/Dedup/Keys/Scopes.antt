-- ===== src/Feed/Dedup/Keys/Scopes.antt =====
-- How far the identity keys of `keysForArticle` tell feeds apart.
use Prim.Native.String.{◌++◌}
use text.Mathlib.TextLemmas.{append-eq-nil_iff, append_assoc, append_cancel_left}
use feeds_server.Base.{String, false, ◌≡◌, ◌≢◌, sym, ◌∙◌, ap}
use feeds_server.Base.Text.{Unicode, contains_char}
use feeds_server.Base.Text.Split.{split_unique_at, eq_false_of_ne, append-ne-nil}
use feeds_server.Base.Url.{UrlLibrary}
use feeds_server.Feed.Model.{Article}
use feeds_server.Feed.Dedup.Keys.{
  Fingerprinting, normalize_token, source_scope, scoped, keys_for_article,
}

scoped_lem : (scope kind v : String) → v ≢ "" → scoped scope kind v ≡ scope ++ (kind ++ v)
scoped_lem scope kind v h = rw (eq_false_of_ne v "" h)

-- The part of a key behind the feed, split at its first bar.
feed_part :
    (x v : String) → ("feed:" ++ x) ++ ("|id|" ++ v) ≡ "feed:" ++ (x ++ ("|" ++ ("id|" ++ v)))
feed_part x v =
    append_assoc "feed:" x ("|id|" ++ v) ∙ ap (λ t. "feed:" ++ (x ++ t)) (append_assoc "|" "id|" v)

scoped_parts :
    (x y v w : String)
    → contains_char b'|' x ≡ false
    → contains_char b'|' y ≡ false
    → ("feed:" ++ x) ++ ("|id|" ++ v) ≡ ("feed:" ++ y) ++ ("|id|" ++ w)
    → (x ≡ y) × (v ≡ w)
scoped_parts x y v w hx hy e =
    let (same, rest) =
      split_unique_at "|" x y _ _ hx hy
        (append_cancel_left "feed:" _ _ (sym (feed_part x v) ∙ (e ∙ feed_part y w))) in
    (same, append_cancel_left "id|" v w rest)

scoped_injective :
    (x y v w : String)
    → contains_char b'|' x ≡ false
    → contains_char b'|' y ≡ false
    → scoped ("feed:" ++ x) "|id|" v ≢ ""
    → scoped ("feed:" ++ x) "|id|" v ≡ scoped ("feed:" ++ y) "|id|" w
    → (x ≡ y) × (v ≡ w)
scoped_injective x y v w hx hy ne e =
    let hv : v ≢ "" = λ p. ne (rw p) in
    let hw : w ≢ "" = λ p. ne (e ∙ rw p) in
    scoped_parts x y v w hx hy
      (sym (scoped_lem ("feed:" ++ x) "|id|" v hv) ∙ (e ∙ scoped_lem ("feed:" ++ y) "|id|" w hw))

module _ ⦃u : Unicode⦄ ⦃l : UrlLibrary⦄ ⦃f : Fingerprinting⦄ where
  scope_of_feed : (a : Article) → a.feed_id ≢ "" → source_scope a ≡ "feed:" ++ a.feed_id
  unfolding source_scope
  scope_of_feed a h = rw (eq_false_of_ne a.feed_id "" h)

  -- The identifier key of an article that belongs to a feed.
  identifier_of_feed :
      (a : Article)
      → a.feed_id ≢ ""
      → (keys_for_article a).identifier
        ≡ scoped ("feed:" ++ a.feed_id) "|id|" (normalize_token a.identifier)
  unfolding keys_for_article
  identifier_of_feed a h = rw (
    scope_of_feed a h,
    keys_for_article,
    eq_false_of_ne ("feed:" ++ a.feed_id) "" (append-ne-nil "f" "eed:" a.feed_id),
  )

  -- Two articles of feeds whose ids are not empty and hold no bar have the same identifier key,
  -- where it is not empty, only if the feeds are the same and the normalised identifiers are too.
  pub identifier_key_injective :
      (a b : Article)
      → a.feed_id ≢ ""
      → b.feed_id ≢ ""
      → contains_char b'|' a.feed_id ≡ false
      → contains_char b'|' b.feed_id ≡ false
      → (keys_for_article a).identifier ≢ ""
      → (keys_for_article a).identifier ≡ (keys_for_article b).identifier
      → (a.feed_id ≡ b.feed_id) × (normalize_token a.identifier ≡ normalize_token b.identifier)
  identifier_key_injective a b ha hb ca cb ne e =
      let key_a = identifier_of_feed a ha in
      scoped_injective a.feed_id b.feed_id _ _ ca cb (λ p. ne (key_a ∙ p))
        (sym key_a ∙ (e ∙ identifier_of_feed b hb))

  -- With a bar in the id of a feed the keys of two feeds can be the same: articles of the feeds
  -- `x`, not empty, and `x|id|y` have one identifier key where their normalised identifiers are
  -- `y|id|z` and `z`, not empty.
  pub identifier_key_collision :
      (a b : Article) (y z : String)
      → a.feed_id ≢ ""
      → z ≢ ""
      → b.feed_id ≡ a.feed_id ++ ("|id|" ++ y)
      → normalize_token a.identifier ≡ y ++ ("|id|" ++ z)
      → normalize_token b.identifier ≡ z
      → (keys_for_article a).identifier ≡ (keys_for_article b).identifier
  identifier_key_collision a b y z ha hz feed id_a id_b =
      let hb : b.feed_id ≢ "" =
        λ p. append-ne-nil "|" "id|" y (append-eq-nil_iff.0 (sym feed ∙ p)).1 in
      let ne : y ++ ("|id|" ++ z) ≢ "" = λ p. append-ne-nil "|" "id|" z (append-eq-nil_iff.0 p).1 in
      rw
        (
          identifier_of_feed a ha,
          identifier_of_feed b hb,
          id_a,
          id_b,
          feed,
          scoped_lem _ "|id|" _ ne,
          scoped_lem _ "|id|" z hz,
        )
        (simp append_assoc)
