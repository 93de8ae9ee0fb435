-- ===== src/Feed/Dedup/Keys/Canonical.antt =====
-- The URLs that `normalizeArticleURL` writes are normal already.
use Prim.Native.Char.{Char}
use Prim.Native.String.{[], ◌∷◌, ◌++◌}
use text.Mathlib.TextLemmas.{cons-append, append_assoc}
use mathlib.Core.Path.{ap₂}
use feeds_server.Base.{
  ◌≡◌, refl, sym, ap, ◌∙◌, inl, inr, arith, String, ◌==◌, eq_iff, true, false, ◌&&◌, ◌||◌,
  Bool-cases, if◌then◌else◌,
}
use feeds_server.Base.Text.{
  Unicode, trim_func, trim_left, trim_right, to_lower, contains_char, is_digit, all_chars,
}
use feeds_server.Base.Text.Words.{map_chars_idem}
use feeds_server.Base.Url.{Url, hostname, port, split_authority, join_host_port}
use feeds_server.Base.Url.Authority.{
  Free, Free-tail, one-append, all_digits-Free, split_authority_joined, split_authority-digits,
  split_authority_plain, split_authority_bracketed, strip_brackets-Free, strip_brackets-bracketed,
}
use feeds_server.Feed.Dedup.Keys.{is_bracket, kept_port, normalized_host, normalize_url}

-- A text with no bracket.
abbrev pub NoBracket : String → Type 0
NoBracket s = Free b'[' s × Free b']' s

first_plain : (c : Char) (s : String) → NoBracket (c ∷ s) → (is_bracket c ≡ false) × NoBracket s
first_plain c s (h, k) =
    let (a, hs) = Free-tail b'[' c s h in
    let (b, ks) = Free-tail b']' c s k in (rw (a, b) refl, (hs, ks))

trim_right-NoBracket : (s : String) → NoBracket s → trim_right is_bracket s ≡ s
unfolding trim_right
trim_right-NoBracket [] h = refl
trim_right-NoBracket (c ∷ s) h =
    let (plain, rest) = first_plain c s h in rw (trim_right-NoBracket s rest, plain) refl

trim_right-bracketed : (s : String) → NoBracket s → trim_right is_bracket (s ++ "]") ≡ s
unfolding trim_right
trim_right-bracketed [] h = refl
trim_right-bracketed (c ∷ s) h =
    let (plain, rest) = first_plain c s h in
    rw (cons-append, trim_right-bracketed s rest, plain) refl

trim_left-NoBracket : (s : String) → NoBracket s → trim_left is_bracket s ≡ s
unfolding trim_left
trim_left-NoBracket [] h = refl
trim_left-NoBracket (c ∷ s) h = rw (first_plain c s h).0 refl

trim_brackets_plain : (s : String) → NoBracket s → trim_func is_bracket s ≡ s
unfolding trim_func
trim_brackets_plain s h = rw (trim_func, trim_left-NoBracket s h) (trim_right-NoBracket s h)

-- The trimmed rest behind the first bracket.
trim_behind : (s : String) → NoBracket s → trim_func is_bracket (s ++ "]") ≡ s
unfolding trim_func trim_left trim_right
trim_behind [] h = refl
trim_behind (c ∷ s) h =
    let (plain, rest) = first_plain c s h in
    let tail : trim_right is_bracket (s ++ "]") ≡ s = trim_right-bracketed s rest in
    rw (cons-append, plain, tail, plain) refl

trim_first : (s : String) → trim_func is_bracket ("[" ∷ s) ≡ trim_func is_bracket s
unfolding trim_func trim_left
trim_first s = refl

trim_brackets : (s : String) → NoBracket s → trim_func is_bracket ("[" ++ (s ++ "]")) ≡ s
trim_brackets s h = rw (one-append "[" (s ++ "]"), trim_first (s ++ "]")) (trim_behind s h)

colon_over_digits : (p : String) → all_chars is_digit p ≡ true → Free b':' p
colon_over_digits p digits = all_digits-Free b':' p (omega arith) digits

-- A host in brackets with a port, taken apart at the colon in front of the port.
split_authority_whole :
    (name p : String)
    → all_chars is_digit p ≡ true
    → split_authority ("[" ++ (name ++ ("]:" ++ p))) ≡ (name, p)
split_authority_whole name p digits =
    let bracketed = "[" ++ (name ++ "]") in
    let shape : bracketed ++ (":" ++ p) ≡ "[" ++ (name ++ ("]:" ++ p)) =
      append_assoc "[" (name ++ "]") (":" ++ p)
      ∙ ap (λ t. "[" ++ t)
          (append_assoc name "]" (":" ++ p) ∙ ap (λ t. name ++ t) (sym (append_assoc "]" ":" p))) in
    rw
      (
        ← shape,
        split_authority_joined bracketed p (colon_over_digits p digits) digits,
        strip_brackets-bracketed name,
      )
      refl

module _ ⦃u : Unicode⦄ where
  pub split-normalized_host :
      (name p : String)
      → NoBracket name
      → all_chars is_digit p ≡ true
      → split_authority (normalized_host name p) ≡ (name, p)
  unfolding normalized_host join_host_port
  split-normalized_host name p h digits =
      let bare = strip_brackets-Free name h.0 in
      elim (Bool-cases (p == "")) [
        | inl no_port ↦
            let empty : p ≡ "" = (eq_iff p "").0 no_port in
            elim (Bool-cases (contains_char b':' name)) [
              | inl colons ↦
                  rw (normalized_host, no_port, colons, empty) (split_authority_bracketed name)
              | inr plain ↦
                  rw
                    (normalized_host, no_port, plain, split_authority_plain name plain, bare, empty)
                    refl
            ]
        | inr with_port ↦ elim (Bool-cases (contains_char b':' name)) [
          | inl colons ↦
              rw (normalized_host, with_port, colons, trim_brackets name h, join_host_port, colons)
                (split_authority_whole name p digits)
          | inr plain ↦
              rw
                (
                  normalized_host,
                  with_port,
                  plain,
                  trim_brackets_plain name h,
                  join_host_port,
                  plain,
                  split_authority_joined name p (colon_over_digits p digits) digits,
                  bare,
                )
                refl
        ]
      ]

  pub port-digits : (url : Url) → all_chars is_digit (port url) ≡ true
  unfolding port
  port-digits url = split_authority-digits url.host

  pub kept_port-digits :
      (scheme p : String)
      → all_chars is_digit p ≡ true
      → all_chars is_digit (kept_port scheme p) ≡ true
  unfolding kept_port
  kept_port-digits scheme p h =
      elim (Bool-cases ((scheme == "http" && p == "80") || (scheme == "https" && p == "443"))) [
        | inl default ↦ rw (kept_port, default) refl
        | inr other ↦ rw (kept_port, other) h
      ]

  kept_port_idem : (scheme p : String) → kept_port scheme (kept_port scheme p) ≡ kept_port scheme p
  unfolding kept_port
  kept_port_idem scheme p =
      elim (Bool-cases ((scheme == "http" && p == "80") || (scheme == "https" && p == "443"))) [
        | inl default ↦ rw (kept_port, default) (ground arith)
        | inr other ↦ rw (kept_port, other, other) refl
      ]

  kept_path_idem :
      (path : String)
      → (if (if path == "" then "/" else path) == ""
          then "/"
          else (if path == "" then "/" else path))
        ≡ (if path == "" then "/" else path)
  kept_path_idem path = elim (Bool-cases (path == "")) [
    | inl empty ↦ rw empty refl
    | inr there ↦ rw (there, there) refl
  ]

  -- A host that is written is read again.
  normalized_parts :
      (url : Url) (name p : String)
      → url.host ≡ normalized_host name p
      → NoBracket name
      → all_chars is_digit p ≡ true
      → (hostname url ≡ name) × (port url ≡ p)
  unfolding hostname port
  normalized_parts url name p host plain digits =
      let taken : split_authority url.host ≡ (name, p) =
        rw host (split-normalized_host name p plain digits) in
      (ap (λ x. x.0) taken, ap (λ x. x.1) taken)

  to_lower_idem :
      (s : String)
      → ((c : Char) → u.to_lower (u.to_lower c) ≡ u.to_lower c)
      → to_lower (to_lower s) ≡ to_lower s
  unfolding to_lower
  to_lower_idem s lowers = map_chars_idem u.to_lower s lowers

  -- The changes to the parsed URL are made once and for all.
  pub normalize_url_idem :
      (encode_query : String → String) (url : Url)
      → ((c : Char) → u.to_lower (u.to_lower c) ≡ u.to_lower c)
      → ((q : String) → encode_query (encode_query q) ≡ encode_query q)
      → NoBracket (to_lower (hostname url))
      → normalize_url encode_query (normalize_url encode_query url) ≡ normalize_url encode_query url
  unfolding normalize_url
  normalize_url_idem encode_query url lowers encodes plain =
      let once = normalize_url encode_query url in
      let scheme = to_lower url.scheme in
      let name = to_lower (hostname url) in
      let p = kept_port scheme (port url) in
      let (host_again, port_again) =
        normalized_parts once name p refl plain
          (kept_port-digits scheme (port url) (port-digits url)) in
      let scheme_again : to_lower scheme ≡ scheme = to_lower_idem url.scheme lowers in
      let name_again : to_lower (hostname once) ≡ name =
        ap to_lower host_again ∙ to_lower_idem (hostname url) lowers in
      let kept_again : kept_port (to_lower scheme) (port once) ≡ p =
        ap₂ kept_port scheme_again port_again ∙ kept_port_idem scheme (port url) in
      λ i. record url {
        scheme = scheme_again i;
        host = normalized_host (name_again i) (kept_again i);
        fragment = "";
        path = kept_path_idem url.path i;
        raw_query = encodes url.raw_query i;
      }
