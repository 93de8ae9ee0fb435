-- ===== src/Feed/Dedup/Keys/Normal.antt =====
-- The texts that `normalizeArticleURL` returns are normal already.
use Prim.Native.Char.{Char}
use Prim.Native.String.{[], ◌∷◌}
use text.Mathlib.TextLemmas.{cons≢nil}
use feeds_server.Base.{
  ◌≡◌, ◌≢◌, refl, sym, ap, ◌∙◌, inl, inr, arith, String, ◌==◌, eq_iff, true, Bool-cases,
  Option-cases, some,
}
use feeds_server.Base.Text.{Unicode, to_lower, trim_space, is_digit, all_chars}
use feeds_server.Base.Url.{Url, UrlLibrary, hostname, port, split_authority}
use feeds_server.Feed.Dedup.Keys.{
  kept_port, normalized_host, normalize_url, is_usable, normalize_parsed, normalize_article_url,
}
use feeds_server.Feed.Dedup.Keys.Canonical.{
  NoBracket, split-normalized_host, kept_port-digits, port-digits, normalize_url_idem,
}

split_empty : split_authority "" ≡ ("", "")
unfolding split_authority
split_empty = refl

module _ ⦃u : Unicode⦄ where
  to_lower-filled : (s : String) → s ≢ "" → to_lower s ≢ ""
  unfolding to_lower
  to_lower-filled [] h = absurd (h refl)
  to_lower-filled (c ∷ s) h = cons≢nil

  normalized_host-filled :
      (name p : String)
      → NoBracket name
      → all_chars is_digit p ≡ true
      → name ≢ ""
      → normalized_host name p ≢ ""
  normalized_host-filled name p plain digits there gone = there (
      ap (λ x. x.0)
        (sym (split-normalized_host name p plain digits) ∙ ap split_authority gone ∙ split_empty))

  -- A usable URL with a host name stays usable.
  is_usable-normalize_url :
      (encode_query : String → String) (url : Url)
      → NoBracket (to_lower (hostname url))
      → hostname url ≢ ""
      → is_usable url ≡ true
      → is_usable (normalize_url encode_query url) ≡ true
  unfolding is_usable normalize_url
  is_usable-normalize_url encode_query url plain named usable =
      let scheme = to_lower url.scheme in
      let name = to_lower (hostname url) in
      let p = kept_port scheme (port url) in
      let host_there =
        normalized_host-filled name p plain (kept_port-digits scheme (port url) (port-digits url))
          (to_lower-filled (hostname url) named) in
      let scheme_filled : url.scheme ≢ "" = ground (arith, eq_iff url.scheme "") in
      let scheme_there = to_lower-filled url.scheme scheme_filled in
      ground (arith, eq_iff scheme "", eq_iff (normalized_host name p) "")

module _ ⦃u : Unicode⦄ ⦃l : UrlLibrary⦄ where
  -- A URL with a host name without brackets that, normalised and printed, is parsed again.
  pub record IsReread (url : Url) : Type 0 where
    pub plain : NoBracket (to_lower (hostname url))
    pub named : hostname url ≢ ""
    pub trimmed :
        trim_space (l.print (normalize_url l.encode_query url))
        ≡ l.print (normalize_url l.encode_query url)
    pub reread :
        l.parse (l.print (normalize_url l.encode_query url))
        ≡ some (normalize_url l.encode_query url)

  blank_again : normalize_article_url "" ≡ ""
  unfolding normalize_article_url
  blank_again = refl

  normalize_parsed_idem :
      (url : Url)
      → ((c : Char) → u.to_lower (u.to_lower c) ≡ u.to_lower c)
      → ((q : String) → l.encode_query (l.encode_query q) ≡ l.encode_query q)
      → IsReread url
      → normalize_article_url (normalize_parsed (some url)) ≡ normalize_parsed (some url)
  unfolding normalize_parsed normalize_article_url
  normalize_parsed_idem url lowers encodes fine = elim (Bool-cases (is_usable url)) [
    | inr refused ↦ rw (refused, normalize_parsed) blank_again
    | inl usable ↦
        let n = normalize_url l.encode_query url in
        elim (Bool-cases (l.print n == "")) [
          | inl blank ↦
              rw (usable, normalize_parsed, normalize_article_url, fine.trimmed, blank)
                (sym ((eq_iff (l.print n) "").0 blank))
          | inr there ↦
              rw
                (
                  usable,
                  normalize_parsed,
                  normalize_article_url,
                  fine.trimmed,
                  there,
                  fine.reread,
                  is_usable-normalize_url l.encode_query url fine.plain fine.named usable,
                )
                (ap l.print (normalize_url_idem l.encode_query url lowers encodes fine.plain))
        ]
  ]

  -- With case tables that lower a letter once and for all and a query encoder that leaves its own
  -- output as it is: where the text is parsed as a URL only if that has a host name without
  -- brackets and, normalised and printed, is parsed again without trimming, what
  -- `normalizeArticleURL` returns for the text it returns again for its own result.
  pub normalize_article_url_idem :
      (raw : String)
      → ((c : Char) → u.to_lower (u.to_lower c) ≡ u.to_lower c)
      → ((q : String) → l.encode_query (l.encode_query q) ≡ l.encode_query q)
      → ((url : Url) → l.parse (trim_space raw) ≡ some url → IsReread url)
      → normalize_article_url (normalize_article_url raw) ≡ normalize_article_url raw
  unfolding normalize_article_url
  normalize_article_url_idem raw lowers encodes fine = elim (Bool-cases (trim_space raw == "")) [
    | inl blank ↦ rw (normalize_article_url, blank) blank_again
    | inr there ↦ elim (Option-cases (l.parse (trim_space raw))) [
      | inl bad ↦
          let gone : normalize_article_url raw ≡ "" =
            rw (normalize_article_url, there, bad, normalize_parsed) refl in
          ap normalize_article_url gone ∙ (blank_again ∙ sym gone)
      | inr (url, read) ↦
          let result : normalize_article_url raw ≡ normalize_parsed (some url) =
            rw (normalize_article_url, there, read) refl in
          ap normalize_article_url result
          ∙ (normalize_parsed_idem url lowers encodes (fine url read) ∙ sym result)
    ]
  ]
