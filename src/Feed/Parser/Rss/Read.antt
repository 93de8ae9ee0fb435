-- ===== src/Feed/Parser/Rss/Read.antt =====
-- What `parseRSS` reads of a document that is written.
use Prim.Native.String.{String}
use feeds_server.Base.{◌==◌, true, false, ◌≡◌, refl, ap, ◌∙◌, none, some, List, [], ◌∷◌, map}
use feeds_server.Base.Seq.{All}
use feeds_server.Base.Text.{Unicode, trim_space}
use feeds_server.Feed.Model.{Time, Article}
use feeds_server.Feed.Parser.Tree.{nil, children, child_value, all_named, first_named}
use feeds_server.Feed.Parser.Collect.{DateParser, parse_date, first_non_empty}
use feeds_server.Feed.Parser.Fill.{
  read_date, with_fallbacks, with_dates, keep_article, publication_warning, update_warning,
  add_values,
}
use feeds_server.Feed.Parser.Rss.{
  rss_literal, rss_collected, rss_draft, rss_article, rss_articles, add_keywords, add_enclosures,
  add_contents, add_thumbnails,
}
use feeds_server.Feed.Parser.Rss.Written.{
  Entry, entry_fields, item, element_names, is_in, TellsNames, IsClean, article_of_entry,
  articles_of,
}
use feeds_server.Feed.Parser.Rss.Lookup.{find, found, child_value-leaves, all_named-leaves}

pub first_non_empty-first :
    (v : String) (vs : List String)
    → trim_space v ≡ v
    → (v == "") ≡ false
    → first_non_empty (v ∷ vs) ≡ v
unfolding first_non_empty
first_non_empty-first v vs clean there = rw (first_non_empty, clean, there) refl

blank : trim_space "" ≡ ""
unfolding trim_space
blank = refl

first_non_empty-next : (vs : List String) → first_non_empty ("" ∷ vs) ≡ first_non_empty vs
unfolding first_non_empty trim_space
first_non_empty-next vs = refl

nothing : first_non_empty [] ≡ ""
unfolding first_non_empty
nothing = refl

module _ ⦃d : DateParser⦄ where
  read_date-some :
      (raw warning : String) (t : Time)
      → (raw == "") ≡ false
      → parse_date raw ≡ some t
      → read_date raw warning ≡ (some t, [])
  unfolding read_date
  read_date-some raw warning t there read = rw (read_date, there, read) refl

  read_date-none : (warning : String) → read_date "" warning ≡ (none, [])
  unfolding read_date
  read_date-none warning = refl

module _ ⦃u : Unicode⦄ (tells : TellsNames u) where
  entry_value :
      (e : Entry) (local : String)
      → is_in local element_names ≡ true
      → child_value (item e) local ≡ found (find local (entry_fields e))
  unfolding first_named
  entry_value e local known =
      child_value-leaves tells local (entry_fields e) nil _ [] e.between known refl refl

  entry_absent :
      (e : Entry) (local : String)
      → is_in local element_names ≡ true
      → find local (entry_fields e) ≡ none
      → children (item e) local ≡ []
  unfolding children all_named
  entry_absent e local known absent =
      all_named-leaves tells local (entry_fields e) nil known refl absent

  module _ ⦃d : DateParser⦄ (source_url language : String)
      (clean_language : trim_space language ≡ language) (spoken : (language == "") ≡ false)
      (e : Entry) (clean : IsClean e) where
    literal-item :
        rss_literal source_url language (item e)
        ≡ record (article_of_entry source_url language e clean.time) { published_at = none }
    unfolding rss_literal
    literal-item =
        let author : first_non_empty
              (child_value (item e) "author" ∷ child_value (item e) "creator" ∷ [])
            ≡ e.author =
          ap (λ v. first_non_empty (v ∷ child_value (item e) "creator" ∷ []))
            (entry_value e "author" refl ∙ clean.author)
          ∙ first_non_empty-first e.author (child_value (item e) "creator" ∷ []) clean.author
              clean.signed in
        let spoken_in : first_non_empty (child_value (item e) "language" ∷ language ∷ [])
            ≡ language =
          ap (λ v. first_non_empty (v ∷ language ∷ [])) (entry_value e "language" refl)
          ∙ (first_non_empty-next (language ∷ [])
              ∙ first_non_empty-first language [] clean_language spoken) in
        let guid = entry_value e "guid" refl ∙ clean.guid in
        let link = entry_value e "link" refl ∙ clean.link in
        let title = entry_value e "title" refl ∙ clean.title in
        let description = entry_value e "description" refl ∙ clean.description in
        let content = entry_value e "encoded" refl ∙ clean.content in
        λ i. record (article_of_entry source_url language e clean.time) {
          published_at = none;
          identifier = guid i;
          url = link i;
          title = title i;
          author = author i;
          summary = description i;
          content = content i;
          language = spoken_in i;
        }

    collected-item : (a : Article) → a.categories ≡ [] → a.tags ≡ [] → rss_collected a (item e) ≡ a
    unfolding rss_collected add_keywords add_enclosures add_contents add_thumbnails add_values
    collected-item a no_categories no_tags =
        rw
          (
            rss_collected,
            entry_absent e "category" refl refl,
            entry_absent e "tag" refl refl,
            entry_absent e "keywords" refl refl,
            entry_absent e "enclosure" refl refl,
            entry_absent e "content" refl refl,
            entry_absent e "thumbnail" refl refl,
          )
          refl

    published-item :
        read_date
          (first_non_empty (child_value (item e) "pubDate" ∷ child_value (item e) "published" ∷ []))
          publication_warning
        ≡ (some clean.time, [])
    published-item =
        let raw : first_non_empty
              (child_value (item e) "pubDate" ∷ child_value (item e) "published" ∷ [])
            ≡ e.date =
          ap (λ v. first_non_empty (v ∷ child_value (item e) "published" ∷ []))
            (entry_value e "pubDate" refl ∙ clean.date)
          ∙ first_non_empty-first e.date (child_value (item e) "published" ∷ []) clean.date
              clean.dated in
        ap (λ v. read_date v publication_warning) raw
        ∙ read_date-some e.date publication_warning clean.time clean.dated clean.read

    updated-item :
        read_date
          (first_non_empty (child_value (item e) "updated" ∷ child_value (item e) "modified" ∷ []))
          update_warning
        ≡ (none, [])
    updated-item =
        let raw : first_non_empty
              (child_value (item e) "updated" ∷ child_value (item e) "modified" ∷ [])
            ≡ "" =
          ap (λ v. first_non_empty (v ∷ child_value (item e) "modified" ∷ []))
            (entry_value e "updated" refl)
          ∙ (first_non_empty-next (child_value (item e) "modified" ∷ [])
              ∙ (ap (λ v. first_non_empty (v ∷ [])) (entry_value e "modified" refl)
                  ∙ (first_non_empty-next [] ∙ nothing))) in
        ap (λ v. read_date v update_warning) raw ∙ read_date-none update_warning

    fallbacks :
        (a : Article)
        → (a.identifier == "") ≡ false
        → (a.content == "") ≡ false
        → with_fallbacks a ≡ a
    fallbacks a named there = rw (named, there) refl

    rss_draft-item :
        rss_draft source_url language (item e)
        ≡ (article_of_entry source_url language e clean.time, [])
    unfolding rss_draft
    rss_draft-item =
        let literal : Article = record (article_of_entry source_url language e clean.time) {
          published_at = none;
        } in
        let filled : with_fallbacks (rss_literal source_url language (item e)) ≡ literal =
          ap with_fallbacks literal-item ∙ fallbacks literal clean.identified clean.filled in
        λ i. with_dates (filled i) (published-item i) (updated-item i)

    rss_article-item :
        rss_article source_url language (item e)
        ≡ (article_of_entry source_url language e clean.time, [])
    unfolding rss_article
    rss_article-item =
        ap (λ d. (rss_collected d.0 (item e), d.1)) rss_draft-item
        ∙ ap (λ a. (a, []))
            (collected-item (article_of_entry source_url language e clean.time) refl refl)

  module _ ⦃d : DateParser⦄ (source_url language : String)
      (clean_language : trim_space language ≡ language) (spoken : (language == "") ≡ false) where
    pub rss_articles-items :
        (es : List Entry) (h : All IsClean es)
        → rss_articles source_url language (map item es)
          ≡ (articles_of source_url language es h, [])
    unfolding rss_articles
    rss_articles-items [] h = refl
    rss_articles-items (e ∷ es) (clean, h) =
        let first = rss_article-item source_url language clean_language spoken e clean in
        let others = rss_articles-items es h in
        (λ i. keep_article "empty RSS item skipped" (first i) (others i))
        ∙ rw (clean.titled, keep_article) refl
