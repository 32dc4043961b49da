-- ===== src/HtmlText/Trees.antt =====
-- app/max/html_text.py: what a tree of tags becomes.
use mathlib.Core.Path.{subst}
use mathlib.Core.List.{append_assoc, append-nil}
use tg_my_person.Prelude.{
  ℕ, ◌+◌, ◌-◌, ◌≡◌, refl, Bool, true, false, ◌&&◌, ◌||◌, String, str_eq, eq_iff, Option, none, some,
  List, [], ◌∷◌, ◌++◌, ◌==◌, if◌then◌else◌, arith, Bool-cases, inl, inr, ◌∙◌, ap,
}
use tg_my_person.Prelude.SortBy.{sort_by}
use tg_my_person.HtmlText.{
  utf16_len, Attrs, Found, text, start_tag, end_tag, Element, Parser, new_parser, Parsed, ok, err,
  add, push_tag, handle_starttag, close_tag, handle_endtag, handle_found, feed, comes_first,
  html_to_elements, ElementKind, is_given, href_from, kind_of, in_pre, ◌>>=◌,
}
use tg_my_person.HtmlText.Nested.{utf16_len-append}

mutual
  pub data Node : Type 0 where
    plain : List ℕ → Node
    line_break : Node
    tagged : String → Attrs → Nodes → Node

  pub data Nodes : Type 0 where
    nil : Nodes
    cons : Node → Nodes → Nodes

unfoldable mutual
  pub written : Node → List Found
  written (plain t) = text t ∷ []
  written line_break = start_tag "br" [] ∷ []
  written (tagged tag attrs ns) = start_tag tag attrs ∷ (written_nodes ns ++ (end_tag tag ∷ []))

  pub written_nodes : Nodes → List Found
  written_nodes nil = []
  written_nodes (cons n ns) = written n ++ written_nodes ns

unfoldable mutual
  pub text_of_node : Node → List ℕ
  text_of_node (plain t) = t
  text_of_node line_break = b'\n' ∷ []
  text_of_node (tagged tag attrs ns) = text_of_nodes ns

  pub text_of_nodes : Nodes → List ℕ
  text_of_nodes nil = []
  text_of_nodes (cons n ns) = text_of_node n ++ text_of_nodes ns

abbrev pub url_of : String → Attrs → Option String
url_of tag attrs = if str_eq tag "a" then href_from none attrs else none

-- The element of a tag: none for a tag with no text, and for code right inside pre.
abbrev pub element_of : Bool → ℕ → ℕ → String → Attrs → ElementKind → List Element
element_of inside_pre pos len tag attrs kind =
    if (str_eq tag "code" && inside_pre) || len == 0
    then []
    else record { kind = kind; start = pos; length = len; url = url_of tag attrs } ∷ []

abbrev pub own_element : Bool → ℕ → ℕ → String → Attrs → Option ElementKind → List Element
own_element inside_pre pos len tag attrs none = []
own_element inside_pre pos len tag attrs (some kind) = element_of inside_pre pos len tag attrs kind

unfoldable mutual
  pub elements_of : Bool → ℕ → Node → List Element
  elements_of inside_pre pos (plain t) = []
  elements_of inside_pre pos line_break = []
  elements_of inside_pre pos (tagged tag attrs ns) =
      elements_of_nodes (str_eq tag "pre") pos ns
      ++ own_element inside_pre pos (utf16_len (text_of_nodes ns)) tag attrs (kind_of tag)

  pub elements_of_nodes : Bool → ℕ → Nodes → List Element
  elements_of_nodes inside_pre pos nil = []
  elements_of_nodes inside_pre pos (cons n ns) =
      elements_of inside_pre pos n
      ++ elements_of_nodes inside_pre (pos + utf16_len (text_of_node n)) ns

-- Known tags only, and every link has its address.
abbrev IsKnown : String → Attrs → Type 0
IsKnown tag attrs =
    ((kind : ElementKind) × (kind_of tag ≡ some kind))
    × (str_eq tag "a" ≡ true → is_given (href_from none attrs) ≡ true)

unfoldable mutual
  pub AreMarked : Nodes → Type 0
  AreMarked nil = Unit
  AreMarked (cons n ns) = IsMarked n × AreMarked ns

  pub IsMarked : Node → Type 0
  IsMarked (plain t) = Unit
  IsMarked line_break = Unit
  IsMarked (tagged tag attrs ns) = IsKnown tag attrs × AreMarked ns

abbrev after : List ℕ → List Element → Parser → Parser
after t es p = record p {
  parts = p.parts ++ t;
  pos = p.pos + utf16_len t;
  elements = p.elements ++ es;
}

known_ne_br :
    (tag : String) (kind : ElementKind) → kind_of tag ≡ some kind → str_eq tag "br" ≡ false
unfolding kind_of
known_ne_br tag kind known = elim (Bool-cases (str_eq tag "br")) [
  | inl breaks ↦
      let same : tag ≡ "br" = (eq_iff tag "br").0 breaks in
      let unknown : kind_of "br" ≡ some kind = subst (λ t. kind_of t ≡ some kind) same known in
      absurd (cc unknown)
  | inr other ↦ other
]

starts :
    (tag : String) (attrs : Attrs) (kind : ElementKind) (p : Parser)
    → IsKnown tag attrs
    → kind_of tag ≡ some kind
    → handle_starttag tag attrs p ≡ ok (push_tag tag kind (url_of tag attrs) p)
unfolding handle_starttag
starts tag attrs kind p (found, given) known = elim (Bool-cases (str_eq tag "a")) [
  | inl anchor ↦ rw (known_ne_br tag kind known, known, anchor, given anchor, handle_starttag) refl
  | inr plain_tag ↦ rw (known_ne_br tag kind known, known, plain_tag, handle_starttag) refl
]

>>=-congr :
    (m : Parsed Parser) (f g h : Parser → Parsed Parser)
    → ((p : Parser) → f p ≡ (g p >>= h))
    → (m >>= f) ≡ ((m >>= g) >>= h)
>>=-congr (ok p) f g h e = e p
>>=-congr (err e') f g h e = refl

feed-append : (fs gs : List Found) (p : Parser) → feed (fs ++ gs) p ≡ (feed fs p >>= feed gs)
unfolding feed
feed-append [] gs p = refl
feed-append (f ∷ fs) gs p =
    >>=-congr (handle_found f p) (feed (fs ++ gs)) (feed fs) (feed gs) (feed-append fs gs)

-- Closing a tag right after what stands in it.
ends :
    (tag : String) (attrs : Attrs) (kind : ElementKind) (t : List ℕ) (es : List Element)
    (p : Parser)
    → str_eq tag "br" ≡ false
    → handle_endtag tag (after t es (push_tag tag kind (url_of tag attrs) p))
      ≡ ok (after t (es ++ element_of (in_pre p.opened) p.pos (utf16_len t) tag attrs kind) p)
unfolding handle_endtag close_tag
ends tag attrs kind t es p other =
    let same : str_eq tag tag ≡ true = (eq_iff tag tag).1 refl in
    let len : (p.pos + utf16_len t) - p.pos ≡ utf16_len t = omega arith in
    elim (Bool-cases ((str_eq tag "code" && in_pre p.opened) || utf16_len t == 0)) [
      | inl none_made ↦ rw (other, same, len, none_made, append-nil es) refl
      | inr made ↦
          rw (other, same, len, made)
            (ap ok (
              ap
                (λ all. record p {
                  parts = p.parts ++ t;
                  pos = p.pos + utf16_len t;
                  elements = all;
                })
                (append_assoc p.elements es _)))
    ]

after-after :
    (t u : List ℕ) (es fs : List Element) (p : Parser)
    → after u fs (after t es p) ≡ after (t ++ u) (es ++ fs) p
after-after t u es fs p =
    let pos : p.pos + utf16_len t + utf16_len u ≡ p.pos + utf16_len (t ++ u) =
      omega (arith, utf16_len-append t u) in
    rw (append_assoc p.parts t u, append_assoc p.elements es fs, pos) refl

closed :
    (tag : String) (m : Parsed Parser) (p q : Parser)
    → m ≡ ok p
    → handle_endtag tag p ≡ ok q
    → (m >>= feed (end_tag tag ∷ [])) ≡ ok q
unfolding feed handle_found
closed tag m p q e k = rw (e, k) refl

fed_text : (t : List ℕ) (p : Parser) → feed (text t ∷ []) p ≡ ok (after t [] p)
unfolding feed handle_found add
fed_text t p = rw (append-nil p.elements) refl

fed_break : (p : Parser) → feed (start_tag "br" [] ∷ []) p ≡ ok (after (b'\n' ∷ []) [] p)
unfolding feed handle_found handle_starttag add
fed_break p = rw (append-nil p.elements) refl

fed_nothing : (p : Parser) → feed [] p ≡ ok (after [] [] p)
unfolding feed
fed_nothing p =
    let same : p.pos + utf16_len [] ≡ p.pos = omega arith in
    rw (append-nil p.elements, append-nil p.parts, same) refl

feed_start :
    (tag : String) (attrs : Attrs) (fs : List Found) (p q : Parser)
    → handle_starttag tag attrs p ≡ ok q
    → feed (start_tag tag attrs ∷ fs) p ≡ feed fs q
unfolding feed handle_found
feed_start tag attrs fs p q e = rw e refl

mutual
  unfolding written text_of_node elements_of IsMarked

  feed-written :
      (n : Node) (p : Parser)
      → IsMarked n
      → feed (written n) p ≡ ok (after (text_of_node n) (elements_of (in_pre p.opened) p.pos n) p)
  feed-written (plain t) p h = fed_text t p
  feed-written line_break p h = fed_break p
  feed-written (tagged tag attrs ns) p (((kind, known), given), marked) =
      let opened = push_tag tag kind (url_of tag attrs) p in
      let started : handle_starttag tag attrs p ≡ ok opened =
        starts tag attrs kind p ((kind, known), given) known in
      let es = elements_of_nodes (str_eq tag "pre") p.pos ns in
      let inner : feed (written_nodes ns) opened ≡ ok (after (text_of_nodes ns) es opened) =
        feed-written_nodes ns opened marked in
      let ended = ends tag attrs kind (text_of_nodes ns) es p (known_ne_br tag kind known) in
      rw known (
        feed_start tag attrs (written_nodes ns ++ (end_tag tag ∷ [])) p opened started
        ∙ feed-append (written_nodes ns) (end_tag tag ∷ []) opened
        ∙ closed tag (feed (written_nodes ns) opened) (after (text_of_nodes ns) es opened) _ inner
            ended)

  feed-written_nodes :
      (ns : Nodes) (p : Parser)
      → AreMarked ns
      → feed (written_nodes ns) p
        ≡ ok (after (text_of_nodes ns) (elements_of_nodes (in_pre p.opened) p.pos ns) p)
  feed-written_nodes nil p h = fed_nothing p
  feed-written_nodes (cons n ns) p (h, hs) =
      let q = after (text_of_node n) (elements_of (in_pre p.opened) p.pos n) p in
      feed-append (written n) (written_nodes ns) p
      ∙ ap (λ m. m >>= feed (written_nodes ns)) (feed-written n p h)
      ∙ feed-written_nodes ns q hs
      ∙ ap ok (
          after-after (text_of_node n) (text_of_nodes ns) (elements_of (in_pre p.opened) p.pos n)
            (elements_of_nodes (in_pre p.opened) (p.pos + utf16_len (text_of_node n)) ns) p)

-- Well-formed text is taken: of a tree of supported tags, each link with its address, what remains is
-- its text and, ordered, an element for each tag that holds some text, except code right inside pre;
-- the element starts at the UTF-16 unit where the tag's text does and is as long.
pub html_to_elements-written :
    (ns : Nodes)
    → AreMarked ns
    → html_to_elements (written_nodes ns)
      ≡ ok (text_of_nodes ns, sort_by comes_first (elements_of_nodes false 0 ns))
unfolding html_to_elements
html_to_elements-written ns h = rw (feed-written_nodes ns new_parser h) refl
