-- ===== src/HtmlText/Tests.antt =====
-- Runs of app/max/html_text.py.
use tg_my_person.Prelude.{false, ◌≡◌, refl, none, some, List, [], ◌∷◌}
use tg_my_person.Prelude.SortBy.{sort_by}
use tg_my_person.HtmlText.{
  Found, text, start_tag, end_tag, strong, emphasized, link, ok, err, does_not_close, comes_first,
  html_to_elements, handle_found, kind_of,
}
use tg_my_person.HtmlText.Nested.{IsPlaced, html_to_elements-IsPlaced}
use tg_my_person.HtmlText.Trees.{
  plain, tagged, Nodes, nil, cons, written_nodes, text_of_nodes, elements_of_nodes, AreMarked,
  html_to_elements-written,
}

-- `<b>a<i>😀</i></b>`
abbrev bold : List Found
bold =
    start_tag "b" []
    ∷ text (b'a' ∷ [])
    ∷ start_tag "i" []
    ∷ text (0x1F600 ∷ [])
    ∷ end_tag "i"
    ∷ end_tag "b"
    ∷ []

bold_runs :
    html_to_elements bold
    ≡ ok (
      b'a' ∷ 0x1F600 ∷ [],
      record { kind = strong; start = 0; length = 3; url = none }
          ∷ record { kind = emphasized; start = 1; length = 2; url = none }
          ∷ [],
    )
unfolding html_to_elements handle_found sort_by
bold_runs = refl

crossed :
    html_to_elements (start_tag "b" [] ∷ start_tag "i" [] ∷ end_tag "b" ∷ [])
    ≡ err (does_not_close "b" (some "i"))
unfolding html_to_elements handle_found
crossed = refl

html_to_elements-IsPlaced_example : IsPlaced (html_to_elements bold)
html_to_elements-IsPlaced_example = html_to_elements-IsPlaced bold

abbrev tree : Nodes
tree =
    cons
      (tagged "a" (("href", some "https://max.ru") ∷ [])
        (cons (plain (b'a' ∷ [])) (cons (tagged "i" [] (cons (plain (b'b' ∷ [])) nil)) nil)))
      nil

tree-AreMarked : AreMarked tree
unfolding kind_of AreMarked
tree-AreMarked = (
  (((link, refl), λ e. refl), (tt, ((((emphasized, refl), λ e. absurd (cc e)), (tt, tt)), tt))),
  tt,
)

html_to_elements-written_example :
    html_to_elements (written_nodes tree)
    ≡ ok (text_of_nodes tree, sort_by comes_first (elements_of_nodes false 0 tree))
html_to_elements-written_example = html_to_elements-written tree tree-AreMarked
