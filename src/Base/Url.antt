-- ===== src/Base/Url.antt =====
-- Go's `net/url` and `net`: the structure `url.URL`, the parts of its host, and, as a parameter,
-- the parser, the printer and the query encoder.
pub mod Authority
use Prim.Native.String.{[], ◌∷◌, ◌++◌}
use Prim.Native.Char.{code}
use mathlib.Core.Option.{Option, none, some}
use mathlib.Core.Bool.{Bool}
use Prim.Native.String.{String}
use feeds_server.Base.Tests.{eqb, if◌then◌else◌}
use feeds_server.Base.Text.{split_last, is_digit, all_chars, contains_char, cut_last}

-- `url.URL`; `user` is the `*Userinfo`, as text.
pub record Url : Type 0 where
  pub scheme : String
  pub opaque : String
  pub user : Option String
  pub host : String
  pub path : String
  pub raw_path : String
  pub omit_host : Bool
  pub force_query : Bool
  pub raw_query : String
  pub fragment : String
  pub raw_fragment : String

-- `url.Parse`, `(*URL).String`, and `Query().Encode()` as a function of `RawQuery`.
pub record UrlLibrary : Type 0 where
  pub parse : String → Option Url
  pub print : Url → String
  pub encode_query : String → String

abbrev pub strip_brackets : String → String
strip_brackets [] = []
strip_brackets (c ∷ s) =
    if eqb (code c) b'[' then elim (cut_last b']' s) [ some t ↦ t | none ↦ c ∷ s ] else c ∷ s

-- The host and the port of an authority: `splitHostPort` of `net/url`.
unfoldable pub split_authority : String → String × String
unfolding split_last cut_last
split_authority authority = elim (split_last b':' authority) [
  | none ↦ (strip_brackets authority, "")
  | some (h, p) ↦
      if all_chars is_digit p then (strip_brackets h, p) else (strip_brackets authority, "")
]

-- `(*URL).Hostname` and `(*URL).Port`
unfoldable pub hostname : Url → String
unfolding split_authority
hostname u = (split_authority u.host).0

unfoldable pub port : Url → String
unfolding split_authority
port u = (split_authority u.host).1

-- `net.JoinHostPort`
unfoldable pub join_host_port : String → String → String
unfolding contains_char
join_host_port host p =
    if contains_char b':' host then "[" ++ (host ++ ("]:" ++ p)) else host ++ (":" ++ p)
