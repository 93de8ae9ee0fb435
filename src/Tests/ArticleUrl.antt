-- ===== src/Tests/ArticleUrl.antt =====
-- `normalizeArticleURL` of internal/feed/dedup.go on one URL.
use text.Mathlib.TextLemmas.{cons≢nil}
use feeds_server.Base.{
  String, ◌≡◌, ◌==◌, refl, sym, ◌∙◌, subst, Option, some, none, some-injective, if◌then◌else◌,
}
use feeds_server.Base.Text.{contains_char, trim_space, to_lower}
use feeds_server.Base.Url.{Url, UrlLibrary, hostname, port}
use feeds_server.Feed.Dedup.Keys.{normalize_url, normalize_article_url}
use feeds_server.Feed.Dedup.Keys.Canonical.{NoBracket}
use feeds_server.Feed.Dedup.Keys.Normal.{IsReread, normalize_article_url_idem}
use feeds_server.Tests.Samples.{sample_unicode, sample_print, url_of}
use feeds_server.Tests.Dedup.{lower_letter_idem}

-- The default port and the capitals go, and the path comes.
abbrev loud_url : Url
loud_url = url_of "HTTp" "A.H:80" ""

abbrev quiet_url : Url
quiet_url = url_of "http" "a.h" "/"

abbrev loud_parse : String → Option Url
loud_parse s =
    if s == "HTTp://A.H:80"
    then some loud_url
    else if s == "http://a.h/"
    then some quiet_url
    else none

instance abbrev loud_urls : UrlLibrary
loud_urls = record { parse = loud_parse; print = sample_print; encode_query = λ q. q }

quiet : normalize_url (λ q. q) loud_url ≡ quiet_url
unfolding normalize_url hostname port to_lower
quiet = refl

loud_tests :
    (loud_parse (trim_space " HTTp://A.H:80") ≡ some loud_url)
    × (loud_parse (sample_print quiet_url) ≡ some quiet_url)
    × (trim_space (sample_print quiet_url) ≡ sample_print quiet_url)
    × (hostname loud_url ≡ "A.H")
unfolding trim_space hostname
loud_tests = (refl, refl, refl, refl)

loud_NoBracket : NoBracket (to_lower (hostname loud_url))
unfolding hostname to_lower contains_char
loud_NoBracket = (refl, refl)

loud_IsReread : IsReread loud_url
loud_IsReread = record {
  plain = loud_NoBracket;
  named = λ e. cons≢nil (sym loud_tests.3 ∙ e);
  trimmed = rw quiet loud_tests.2;
  reread = rw quiet loud_tests.1;
}

normalize_article_url_idem_example :
    normalize_article_url (normalize_article_url " HTTp://A.H:80")
    ≡ normalize_article_url " HTTp://A.H:80"
normalize_article_url_idem_example =
    normalize_article_url_idem " HTTp://A.H:80" lower_letter_idem (λ q. refl)
      (λ url read. subst IsReread (some-injective (sym loud_tests.0 ∙ read)) loud_IsReread)
