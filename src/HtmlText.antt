-- ===== src/HtmlText.antt =====
-- app/max/html_text.py: text in Telegram's HTML to MAX's text with elements.
-- What Python's HTMLParser finds in the text, references decoded and names in lower case, is the
-- input. A text is the list of its code points; it holds no lone surrogate.
mod Nested
mod Trees
mod Tests
use tg_my_person.Prelude.{
  ℕ, ◌+◌, ◌-◌, Bool, true, false, not, ◌&&◌, ◌||◌, String, str_eq, Option, none, some, List, [],
  ◌∷◌, ◌++◌, reverse, leb, ltb, ◌==◌, if◌then◌else◌,
}
use tg_my_person.Prelude.SortBy.{sort_by}

pub data ElementKind : Type 0 where
  strong emphasized underline strikethrough monospaced preformatted link quote : ElementKind

-- TAGS
unfoldable pub kind_of : String → Option ElementKind
kind_of tag =
    if str_eq tag "b" || str_eq tag "strong"
    then some strong
    else if str_eq tag "i" || str_eq tag "em"
    then some emphasized
    else if str_eq tag "u" || str_eq tag "ins"
    then some underline
    else if str_eq tag "s" || str_eq tag "strike" || str_eq tag "del"
    then some strikethrough
    else if str_eq tag "code"
    then some monospaced
    else if str_eq tag "pre"
    then some preformatted
    else if str_eq tag "a"
    then some link
    else if str_eq tag "blockquote"
    then some quote
    else none

pub data HtmlTextError : Type 0 where
  not_supported : String → HtmlTextError
  needs_href : HtmlTextError
  does_not_close : String → Option String → HtmlTextError
  unclosed : List String → HtmlTextError

abbrev pub units : ℕ → ℕ
units c = if leb 0x10000 c then 2 else 1

abbrev pub utf16_len : List ℕ → ℕ
utf16_len [] = 0
utf16_len (c ∷ cs) = units c + utf16_len cs

abbrev pub Attrs : Type 0
Attrs = List (String × Option String)

pub data Found : Type 0 where
  text : List ℕ → Found
  start_tag start_end_tag : String → Attrs → Found
  end_tag : String → Found

pub record Element : Type 0 where
  pub kind : ElementKind
  pub start : ℕ
  pub length : ℕ
  pub url : Option String

-- An open tag; `kind` is its TAGS[tag].
pub record Open : Type 0 where
  pub tag : String
  pub kind : ElementKind
  pub start : ℕ
  pub url : Option String
  pub skipped : Bool

-- The innermost open tag stands first.
pub record Parser : Type 0 where
  pub parts : List ℕ
  pub pos : ℕ
  pub opened : List Open
  pub elements : List Element

abbrev pub new_parser : Parser
new_parser = record { parts = []; pos = 0; opened = []; elements = [] }

pub data Parsed (A : Type 0) : Type 0 where
  ok : A → Parsed A
  err : HtmlTextError → Parsed A

infixl 5 ◌>>=◌
abbrev pub ◌>>=◌ : {A B : Type 0} → Parsed A → (A → Parsed B) → Parsed B
ok a >>= f = f a
err e >>= f = err e

-- `_add`
unfoldable pub add : List ℕ → Parser → Parser
add t p = record p { parts = p.parts ++ t; pos = p.pos + utf16_len t }

-- `dict(attrs).get("href")`: the last one; an attribute without a value has none.
abbrev href_from : Option String → Attrs → Option String
href_from found [] = found
href_from found ((name, value) ∷ attrs) =
    href_from (if str_eq name "href" then value else found) attrs

abbrev is_given : Option String → Bool
is_given none = false
is_given (some url) = not (str_eq url "")

abbrev in_pre : List Open → Bool
in_pre [] = false
in_pre (o ∷ os) = str_eq o.tag "pre"

abbrev push_tag : String → ElementKind → Option String → Parser → Parser
push_tag tag kind url p = record p {
  opened =
      record {
        tag = tag;
        kind = kind;
        start = p.pos;
        url = url;
        skipped = str_eq tag "code" && in_pre p.opened;
      }
      ∷ p.opened;
}

unfoldable pub handle_starttag : String → Attrs → Parser → Parsed Parser
unfolding add kind_of
handle_starttag tag attrs p =
    if str_eq tag "br" then ok (add (b'\n' ∷ []) p) else elim (kind_of tag) [
      | none ↦ err (not_supported tag)
      | some kind ↦
          let url = href_from none attrs in
          if str_eq tag "a"
          then if is_given url then ok (push_tag tag kind url p) else err needs_href
          else ok (push_tag tag kind none p)
    ]

-- An element of some length, unless it is part of another.
unfoldable pub close_tag : Open → List Open → Parser → Parser
close_tag o os p =
    let length = p.pos - o.start in
    if o.skipped || length == 0 then record p { opened = os } else record p {
      opened = os;
      elements =
          p.elements
          ++ record { kind = o.kind; start = o.start; length = length; url = o.url } ∷ [];
    }

abbrev pop_tag : String → List Open → Parser → Parsed Parser
pop_tag tag [] p = err (does_not_close tag none)
pop_tag tag (o ∷ os) p =
    if str_eq o.tag tag then ok (close_tag o os p) else err (does_not_close tag (some o.tag))

unfoldable pub handle_endtag : String → Parser → Parsed Parser
unfolding close_tag
handle_endtag tag p = if str_eq tag "br" then ok p else pop_tag tag p.opened p

unfoldable pub handle_found : Found → Parser → Parsed Parser
unfolding add handle_starttag handle_endtag
handle_found (text t) p = ok (add t p)
handle_found (start_tag tag attrs) p = handle_starttag tag attrs p
handle_found (end_tag tag) p = handle_endtag tag p
handle_found (start_end_tag tag attrs) p =
    if str_eq tag "br"
    then ok (add (b'\n' ∷ []) p)
    else handle_starttag tag attrs p >>= handle_endtag tag

unfoldable pub feed : List Found → Parser → Parsed Parser
feed [] p = ok p
feed (f ∷ fs) p = handle_found f p >>= feed fs

abbrev tags_of : List Open → List String
tags_of [] = []
tags_of (o ∷ os) = o.tag ∷ tags_of os

-- The order of `(from, -length)`.
abbrev pub comes_first : Element → Element → Bool
comes_first e f = ltb e.start f.start || (e.start == f.start && leb f.length e.length)

abbrev pub finish_text : Parser → Parsed (List ℕ × List Element)
finish_text p = elim p.opened [
  | [] ↦ ok (p.parts, sort_by comes_first p.elements)
  | o ∷ os ↦ err (unclosed (reverse (tags_of (o ∷ os))))
]

unfoldable pub html_to_elements : List Found → Parsed (List ℕ × List Element)
unfolding feed
html_to_elements fs = feed fs new_parser >>= finish_text
