-- ===== src/HtmlText/Nested.antt =====
-- app/max/html_text.py: where the elements lie.
use mathlib.Core.Path.{subst}
use tg_my_person.Prelude.{
  ℕ, ◌+◌, ◌-◌, ◌≤◌, ◌<◌, ◌≡◌, refl, Bool, true, false, ◌&&◌, ◌||◌, String, str_eq, Option, none,
  List, [], ◌∷◌, ◌++◌, leb, ◌==◌, if◌then◌else◌, All, All-append, All-map, arith, Bool-cases,
  Option-cases, List-cases, inl, inr,
}
use tg_my_person.Prelude.SortBy.{Pairwise, Before, All-sort_by, Pairwise-sort_by, sort_by-Before}
use tg_my_person.HtmlText.{
  utf16_len, Attrs, Found, text, start_tag, start_end_tag, end_tag, Element, Open, Parser,
  new_parser, Parsed, ok, err, needs_href, ◌>>=◌, add, push_tag, handle_starttag, close_tag,
  handle_endtag, handle_found, feed, comes_first, finish_text, html_to_elements, ElementKind,
  is_given, href_from, kind_of, pop_tag,
}

pub utf16_len-append : (s t : List ℕ) → utf16_len (s ++ t) ≡ utf16_len s + utf16_len t
utf16_len-append [] t = omega arith
utf16_len-append (c ∷ s) t = omega (arith, utf16_len-append s t)

-- An element of some length within the first `n` units.
abbrev pub IsWithin : ℕ → Element → Type 0
IsWithin n e = (0 < e.length) × (e.start + e.length ≤ n)

-- One lies in the other, or they have no unit in common.
abbrev pub are_nested : Element → Element → Bool
are_nested e f =
    leb (e.start + e.length) f.start
    || leb (f.start + f.length) e.start
    || (leb e.start f.start && leb (f.start + f.length) (e.start + e.length))
    || (leb f.start e.start && leb (e.start + e.length) (f.start + f.length))

abbrev pub AreNested : Element → Element → Type 0
AreNested e f = are_nested e f ≡ true

-- An element lies before or after the point where a tag is opened.
abbrev Clears : ℕ → Element → Type 0
Clears start e = (leb (e.start + e.length) start || leb start e.start) ≡ true

-- The open tags, innermost first, all opened by `bound`.
abbrev AreOpen : List Element → ℕ → List Open → Type 0
AreOpen es bound [] = Unit
AreOpen es bound (o ∷ os) = (o.start ≤ bound) × All (Clears o.start) es × AreOpen es o.start os

abbrev IsSound : Parser → Type 0
IsSound p =
    (p.pos ≡ utf16_len p.parts)
    × All (IsWithin p.pos) p.elements
    × Pairwise AreNested p.elements
    × AreOpen p.elements p.pos p.opened

AreNested-sym : (e f : Element) → AreNested e f → AreNested f e
AreNested-sym e f h = ground arith

AreOpen-mono :
    (es : List Element) (m n : ℕ) (os : List Open) → m ≤ n → AreOpen es m os → AreOpen es n os
AreOpen-mono es m n [] le h = tt
AreOpen-mono es m n (o ∷ os) le (k, clear, rest) = (omega arith, clear, rest)

IsWithin-mono : (m n : ℕ) (es : List Element) → m ≤ n → All (IsWithin m) es → All (IsWithin n) es
IsWithin-mono m n es le h = All-map (IsWithin m) (IsWithin n) es (λ e k. (k.0, omega arith)) h

add-IsSound : (t : List ℕ) (p : Parser) → IsSound p → IsSound (add t p)
unfolding add
add-IsSound t p (at, within, nested, opens) = (
  omega (arith, utf16_len-append p.parts t),
  IsWithin-mono p.pos (p.pos + utf16_len t) p.elements (omega arith) within,
  nested,
  AreOpen-mono p.elements p.pos (p.pos + utf16_len t) p.opened (omega arith) opens,
)

clear_at : (n : ℕ) (es : List Element) → All (IsWithin n) es → All (Clears n) es
clear_at n es h = All-map (IsWithin n) (Clears n) es (λ e k. ground arith) h

push_tag-IsSound :
    (tag : String) (kind : ElementKind) (url : Option String) (p : Parser)
    → IsSound p
    → IsSound (push_tag tag kind url p)
push_tag-IsSound tag kind url p (at, within, nested, opens) =
    (at, within, nested, (omega arith, clear_at p.pos p.elements within, opens))

Pairwise-concat :
    (es : List Element) (e : Element)
    → All (λ f. AreNested f e) es
    → Pairwise AreNested es
    → Pairwise AreNested (es ++ e ∷ [])
Pairwise-concat [] e h hs = (tt, tt)
Pairwise-concat (f ∷ es) e (h, hs) (k, ks) =
    (All-append (AreNested f) es (e ∷ []) k (h, tt), Pairwise-concat es e hs ks)

-- A new element from `o` on is nested with those that clear its start.
nested_from :
    (n : ℕ) (e : Element) (es : List Element)
    → e.start + e.length ≡ n
    → All (IsWithin n) es
    → All (Clears e.start) es
    → All (λ f. AreNested f e) es
nested_from n e [] ends within clear = tt
nested_from n e (f ∷ es) ends (h, hs) (k, ks) = (ground arith, nested_from n e es ends hs ks)

AreOpen-concat :
    (es : List Element) (e : Element) (n : ℕ) (os : List Open)
    → n ≤ e.start
    → AreOpen es n os
    → AreOpen (es ++ e ∷ []) n os
AreOpen-concat es e n [] le h = tt
AreOpen-concat es e n (o ∷ os) le (k, clear, rest) = (
  k,
  All-append (Clears o.start) es (e ∷ []) clear (ground arith, tt),
  AreOpen-concat es e o.start os (omega arith) rest,
)

close_tag-IsSound :
    (o : Open) (os : List Open) (p : Parser)
    → IsSound p
    → o.start ≤ p.pos
    → All (Clears o.start) p.elements
    → AreOpen p.elements o.start os
    → IsSound (close_tag o os p)
unfolding close_tag
close_tag-IsSound o os p (at, within, nested, opens) le clear rest =
    elim (Bool-cases (o.skipped || (p.pos - o.start) == 0)) [
      | inl none_made ↦
          rw none_made (at, within, nested, AreOpen-mono p.elements o.start p.pos os le rest)
      | inr made ↦
          let e : Element = record {
            kind = o.kind;
            start = o.start;
            length = p.pos - o.start;
            url = o.url;
          } in
          let some_length : 0 < p.pos - o.start = ground arith in
          let ends : o.start + (p.pos - o.start) ≡ p.pos = omega arith in
          rw made (
            at,
            All-append (IsWithin p.pos) p.elements (e ∷ []) within ((some_length, omega arith), tt),
            Pairwise-concat p.elements e (nested_from p.pos e p.elements ends within clear) nested,
            AreOpen-mono (p.elements ++ e ∷ []) o.start p.pos os le
                (AreOpen-concat p.elements e o.start os (omega arith) rest),
          )
    ]

-- What a handler returns is sound, if it returns.
abbrev Returns : Parsed Parser → Type 0
Returns (ok p) = IsSound p
Returns (err e) = Unit

pop_tag-Returns :
    (tag : String) (os : List Open) (p : Parser)
    → p.opened ≡ os
    → IsSound p
    → Returns (pop_tag tag os p)
pop_tag-Returns tag [] p same h = tt
pop_tag-Returns tag (o ∷ os) p same (at, within, nested, opens) =
    elim (Bool-cases (str_eq o.tag tag)) [
      | inl closes ↦
          let (le, clear, rest) : AreOpen p.elements p.pos (o ∷ os) =
            subst (AreOpen p.elements p.pos) same opens in
          rw closes (close_tag-IsSound o os p (at, within, nested, opens) le clear rest)
      | inr apart ↦ rw apart tt
    ]

handle_endtag-Returns : (tag : String) (p : Parser) → IsSound p → Returns (handle_endtag tag p)
unfolding handle_endtag
handle_endtag-Returns tag p h = elim (Bool-cases (str_eq tag "br")) [
  | inl breaks ↦ rw breaks h
  | inr other ↦ rw other (pop_tag-Returns tag p.opened p refl h)
]

if-Returns : (b : Bool) (m n : Parsed Parser) → Returns m → Returns n → Returns (if b then m else n)
if-Returns true m n h k = h
if-Returns false m n h k = k

handle_starttag-Returns :
    (tag : String) (attrs : Attrs) (p : Parser) → IsSound p → Returns (handle_starttag tag attrs p)
unfolding handle_starttag
handle_starttag-Returns tag attrs p h = elim (Bool-cases (str_eq tag "br")) [
  | inl breaks ↦ rw breaks (add-IsSound (b'\n' ∷ []) p h)
  | inr other ↦ elim (Option-cases (kind_of tag)) [
    | inl unknown ↦ rw (other, unknown, handle_starttag) tt
    | inr (kind, known) ↦
        let url = href_from none attrs in
        elim (Bool-cases (str_eq tag "a")) [
          | inl anchor ↦
              rw (other, known, anchor, handle_starttag)
                (if-Returns (is_given url) (ok (push_tag tag kind url p)) (err needs_href)
                  (push_tag-IsSound tag kind url p h) tt)
          | inr plain ↦
              rw (other, known, plain, handle_starttag) (push_tag-IsSound tag kind none p h)
        ]
  ]
]

>>=-Returns :
    (m : Parsed Parser) (f : Parser → Parsed Parser)
    → Returns m
    → ((p : Parser) → IsSound p → Returns (f p))
    → Returns (m >>= f)
>>=-Returns (ok p) f h k = k p h
>>=-Returns (err e) f h k = tt

handle_found-Returns : (found : Found) (p : Parser) → IsSound p → Returns (handle_found found p)
unfolding handle_found
handle_found-Returns (text t) p h = add-IsSound t p h
handle_found-Returns (start_tag tag attrs) p h = handle_starttag-Returns tag attrs p h
handle_found-Returns (end_tag tag) p h = handle_endtag-Returns tag p h
handle_found-Returns (start_end_tag tag attrs) p h =
    if-Returns (str_eq tag "br") (ok (add (b'\n' ∷ []) p))
      (handle_starttag tag attrs p >>= handle_endtag tag) (add-IsSound (b'\n' ∷ []) p h)
      (>>=-Returns (handle_starttag tag attrs p) (handle_endtag tag)
        (handle_starttag-Returns tag attrs p h) (handle_endtag-Returns tag))

feed-Returns : (fs : List Found) (p : Parser) → IsSound p → Returns (feed fs p)
unfolding feed
feed-Returns [] p h = h
feed-Returns (f ∷ fs) p h =
    >>=-Returns (handle_found f p) (feed fs) (handle_found-Returns f p h) (feed-Returns fs)

abbrev pub IsPlaced : Parsed (List ℕ × List Element) → Type 0
IsPlaced (err e) = Unit
IsPlaced (ok (t, es)) =
    All (IsWithin (utf16_len t)) es × Pairwise AreNested es × Pairwise (Before comes_first) es

comes_first_total : (e f : Element) → comes_first e f ≡ false → comes_first f e ≡ true
comes_first_total e f h = ground arith

comes_first_trans :
    (e f g : Element) → comes_first e f ≡ true → comes_first f g ≡ true → comes_first e g ≡ true
comes_first_trans e f g h k = ground arith

finish_text-IsPlaced : (p : Parser) → IsSound p → IsPlaced (finish_text p)
finish_text-IsPlaced p (at, within, nested, opens) = elim (List-cases p.opened) [
  | inl all_closed ↦
      let inside : All (IsWithin (utf16_len p.parts)) p.elements =
        subst (λ n. All (IsWithin n) p.elements) at within in
      rw all_closed (
        All-sort_by comes_first (IsWithin (utf16_len p.parts)) p.elements inside,
        Pairwise-sort_by comes_first AreNested AreNested-sym p.elements nested,
        sort_by-Before comes_first comes_first_total comes_first_trans p.elements,
      )
  | inr (o, os, left) ↦ rw left tt
]

placed : (m : Parsed Parser) → Returns m → IsPlaced (m >>= finish_text)
placed (ok p) h = finish_text-IsPlaced p h
placed (err e) h = tt

-- The elements of a text that is taken lie within it, counted in UTF-16 units, and are not empty;
-- any two have no unit in common or lie one in the other; they are ordered by their start, of those
-- with one start the longest first.
pub html_to_elements-IsPlaced : (fs : List Found) → IsPlaced (html_to_elements fs)
unfolding html_to_elements
html_to_elements-IsPlaced fs =
    placed (feed fs new_parser) (feed-Returns fs new_parser (refl, tt, tt, tt))
