-- ===== src/Tags/Laws.antt =====
-- What the filter of fetchTags lets through.
use wpoven_nobot.Base.{text_equality, if◌then◌else◌, text_eq_iff, ◌==◌, Bool, false, not}
use wpoven_nobot.Tags.{
  filter_tags, filter_node, Attribute, Node, is_one_of, safe_attributes, link_attributes,
  meta_attributes, cons_entry, build,
}
use wpoven_nobot.Base.{
  Bool-cases, is_empty, All, Text, ascii, ◌≡◌, refl, ◌⊎◌, inl, inr, true, ◌&&◌, Option, none, some,
  List, [], ◌∷◌, arith,
}

-- A node of the program's pages: a link or a meta tag, with the attributes that it may have.
abbrev pub IsHarmless : Node → Type 0
IsHarmless n =
    (n.tag ≡ ascii "link") × All (λ a. is_one_of a.key link_attributes ≡ true) n.attr
    ⊎ (n.tag ≡ ascii "meta") × All (λ a. is_one_of a.key meta_attributes ≡ true) n.attr

safe_attributes-All :
    (safe : List Text) (attrs : List Attribute)
    → All (λ a. is_one_of a.key safe ≡ true) (safe_attributes safe attrs)
unfolding safe_attributes
safe_attributes-All safe [] = tt
safe_attributes-All safe (a ∷ attrs) =
    elim (Bool-cases (is_empty a.namespace && is_one_of a.key safe)) [
      | inl b ↦ rw b (ground arith, safe_attributes-All safe attrs)
      | inr b ↦ rw b (safe_attributes-All safe attrs)
    ]

abbrev IsHarmlessEntry : Option Node → Type 0
IsHarmlessEntry none = Unit
IsHarmlessEntry (some n) = IsHarmless n

cons_entry-All :
    (o : Option Node) (ns : List Node)
    → IsHarmlessEntry o
    → All IsHarmless ns
    → All IsHarmless (cons_entry o ns)
cons_entry-All none ns f h = h
cons_entry-All (some n) ns f h = (f, h)

build_link :
    (tag : Text) (attrs : List Attribute)
    → tag ≡ ascii "link"
    → All (λ a. is_one_of a.key link_attributes ≡ true) attrs
    → IsHarmlessEntry (build tag attrs)
build_link tag [] e h = tt
build_link tag (a ∷ attrs) e h = inl (e, h)

build_meta :
    (tag : Text) (attrs : List Attribute)
    → tag ≡ ascii "meta"
    → All (λ a. is_one_of a.key meta_attributes ≡ true) attrs
    → IsHarmlessEntry (build tag attrs)
build_meta tag [] e h = tt
build_meta tag (a ∷ attrs) e h = inr (e, h)

if_harmless :
    (b : Bool) (n m : Option Node)
    → (b ≡ true → IsHarmlessEntry n)
    → IsHarmlessEntry m
    → IsHarmlessEntry (if b then n else m)
if_harmless true n m f g = f refl
if_harmless false n m f g = g

filter_node-IsHarmless : (n : Node) → IsHarmlessEntry (filter_node n)
unfolding filter_node
filter_node-IsHarmless n =
    if_harmless (not (is_empty n.namespace)) none _ (λ e. tt)
      (if_harmless (n.tag == ascii "link") _ _
        (λ link.
          if_harmless _ _ none
            (λ e.
              build_link n.tag _ ((text_eq_iff n.tag (ascii "link")).0 link)
                (safe_attributes-All link_attributes n.attr))
            tt)
        (if_harmless (n.tag == ascii "meta") _ none
          (λ link.
            if_harmless _ _ none
              (λ e.
                build_meta n.tag _ ((text_eq_iff n.tag (ascii "meta")).0 link)
                  (safe_attributes-All meta_attributes n.attr))
              tt)
          tt))

-- Whatever a backend's page holds, the tags that the filter keeps of it are links and meta tags with the attributes named for them only.
pub filter_tags-IsHarmless : (ns : List Node) → All IsHarmless (filter_tags ns)
unfolding filter_tags
filter_tags-IsHarmless [] = tt
filter_tags-IsHarmless (n ∷ ns) =
    cons_entry-All (filter_node n) _ (filter_node-IsHarmless n) (filter_tags-IsHarmless ns)
