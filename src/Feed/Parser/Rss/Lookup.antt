-- ===== src/Feed/Parser/Rss/Lookup.antt =====
-- Looking up elements by name among those that are written.
use Prim.Native.String.{String}
use feeds_server.Base.{
  ◌==◌, Bool, true, false, Bool-cases, ◌&&◌, ◌≡◌, refl, ap, arith, inl, inr, Option, none, some,
  List, [], ◌∷◌, map, if◌then◌else◌,
}
use feeds_server.Base.Text.{Unicode, trim_space}
use feeds_server.Feed.Parser.Tree.{
  XmlName, Attr, node, Nodes, first_named, all_named, child_value, node_value, child,
}
use feeds_server.Feed.Parser.Rss.Written.{
  Entry, Field, leaves_before, item, items, element_names, is_in, TellsNames,
}

abbrev pub find : String → List Field → Option String
find local [] = none
find local ((name, text) ∷ fs) =
    let rest = find local fs in if name == local then some text else rest

abbrev pub are_names : List Field → Bool
are_names [] = true
are_names ((name, text) ∷ fs) = is_in name element_names && are_names fs

both_true : (a b : Bool) → (a && b) ≡ true → (a ≡ true) × (b ≡ true)
both_true a b h = ground arith

abbrev pub found : Option String → String
found none = ""
found (some text) = trim_space text

module _ ⦃u : Unicode⦄ (tells : TellsNames u) where
  pub child_value-leaves :
      (local : String) (fs : List Field) (ns : Nodes) (name : XmlName) (attrs : List Attr)
      (text : String)
      → is_in local element_names ≡ true
      → are_names fs ≡ true
      → first_named local ns ≡ none
      → child_value (node name attrs text (leaves_before fs ns)) local ≡ found (find local fs)
  unfolding child_value child first_named node_value
  child_value-leaves local [] ns name attrs text known named absent = rw (child_value, absent) refl
  child_value-leaves local ((key, value) ∷ fs) ns name attrs text known named absent =
      let (first, others) = both_true (is_in key element_names) (are_names fs) named in
      let same = tells key local first known in
      elim (Bool-cases (key == local)) [
        | inl hit ↦ rw (child_value, same, hit) refl
        | inr other ↦
            rw (child_value, same, other)
              (child_value-leaves local fs ns name attrs text known others absent)
      ]

  pub first_named-absent :
      (local : String) (fs : List Field) (ns : Nodes)
      → is_in local element_names ≡ true
      → are_names fs ≡ true
      → find local fs ≡ none
      → first_named local ns ≡ none
      → first_named local (leaves_before fs ns) ≡ none
  unfolding first_named
  first_named-absent local [] ns known named absent rest = rest
  first_named-absent local ((key, value) ∷ fs) ns known named absent rest =
      let (first, others) = both_true (is_in key element_names) (are_names fs) named in
      let same = tells key local first known in
      elim (Bool-cases (key == local)) [
        | inl hit ↦ absurd (cc (rw hit at absent))
        | inr other ↦
            rw (same, other) (first_named-absent local fs ns known others (rw other at absent) rest)
      ]

  pub all_named-leaves :
      (local : String) (fs : List Field) (ns : Nodes)
      → is_in local element_names ≡ true
      → are_names fs ≡ true
      → find local fs ≡ none
      → all_named local (leaves_before fs ns) ≡ all_named local ns
  unfolding all_named
  all_named-leaves local [] ns known named absent = refl
  all_named-leaves local ((key, value) ∷ fs) ns known named absent =
      let (first, others) = both_true (is_in key element_names) (are_names fs) named in
      let same = tells key local first known in
      elim (Bool-cases (key == local)) [
        | inl hit ↦ absurd (cc (rw hit at absent))
        | inr other ↦
            rw (same, other) (all_named-leaves local fs ns known others (rw other at absent))
      ]

  pub first_named-items :
      (local : String) (es : List Entry)
      → is_in local element_names ≡ true
      → ("item" == local) ≡ false
      → first_named local (items es) ≡ none
  unfolding first_named
  first_named-items local [] known other = refl
  first_named-items local (e ∷ es) known other =
      rw (tells "item" local refl known, other) (first_named-items local es known other)

  pub all_named-items :
      (local : String) (es : List Entry)
      → is_in local element_names ≡ true
      → ("item" == local) ≡ false
      → all_named local (items es) ≡ []
  unfolding all_named
  all_named-items local [] known other = refl
  all_named-items local (e ∷ es) known other =
      rw (tells "item" local refl known, other) (all_named-items local es known other)

  pub all_items : (es : List Entry) → all_named "item" (items es) ≡ map item es
  unfolding all_named
  all_items [] = refl
  all_items (e ∷ es) = rw (tells "item" "item" refl refl) (ap (λ ns. item e ∷ ns) (all_items es))
