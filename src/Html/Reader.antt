-- ===== src/Html/Reader.antt =====
-- How a browser reads markup: the tags, with the values of their attributes left out, and the elements that
-- are open. The reader breaks at a tag that is none of the page's own and at a closing tag of another element.
use copilot_api_dashboard.Base.{
  ℕ, Bool, false, List, [], ◌∷◌, ◌++◌, any, ◌==◌, ◌≡◌, if◌then◌else◌, codes, text_eq,
}
use copilot_api_dashboard.Html.{Text}

pub data Mode : Type 0 where
  outside inside quoted broken : Mode

pub record Reader : Type 0 where
  pub mode : Mode
  pub tag : Text
  pub open_names : List Text

-- The tags of web/app.js: the names of an element and of its attributes.
abbrev pub page_tags : List Text
page_tags =
    codes "td class="
    ∷ codes "/td"
    ∷ codes "td"
    ∷ codes "td title="
    ∷ codes "tr"
    ∷ codes "/tr"
    ∷ codes "span class="
    ∷ codes "span"
    ∷ codes "span aria-hidden="
    ∷ codes "/span"
    ∷ codes "div class="
    ∷ codes "div"
    ∷ codes "/div"
    ∷ codes "p class="
    ∷ codes "/p"
    ∷ codes "div class= tabindex= role= aria-label="
    ∷ codes "div class= data-table= tabindex= role= aria-label="
    ∷ codes "table"
    ∷ codes "/table"
    ∷ codes "caption class="
    ∷ codes "/caption"
    ∷ codes "thead"
    ∷ codes "/thead"
    ∷ codes "tbody"
    ∷ codes "/tbody"
    ∷ codes "th scope="
    ∷ codes "th scope= class="
    ∷ codes "th scope= title="
    ∷ codes "th scope= aria-sort="
    ∷ codes "th scope= aria-sort= class="
    ∷ codes "th scope= title= class="
    ∷ codes "th scope= title= aria-sort="
    ∷ codes "th scope= title= aria-sort= class="
    ∷ codes "/th"
    ∷ codes "button type= class= data-sort= data-column="
    ∷ codes "button type= class= data-sort= data-column= disabled title="
    ∷ codes "/button"
    ∷ codes "article class="
    ∷ codes "/article"
    ∷ codes "h2"
    ∷ codes "/h2"
    ∷ codes "h3"
    ∷ codes "/h3"
    ∷ codes "progress value= max= aria-label="
    ∷ codes "progress class= value= max= aria-label="
    ∷ codes "/progress"
    ∷ codes "strong"
    ∷ codes "/strong"
    ∷ codes "dl"
    ∷ codes "/dl"
    ∷ codes "dt"
    ∷ codes "/dt"
    ∷ codes "dd"
    ∷ codes "/dd"
    ∷ codes "a href="
    ∷ codes "/a"
    ∷ codes "svg viewBox= role= aria-label="
    ∷ codes "/svg"
    ∷ codes "polygon class= points=/"
    ∷ codes "polyline class= points=/"
    ∷ codes "line class= x1= x2= y1= y2=/"
    ∷ codes "line class= y1= y2= hidden/"
    ∷ codes "circle class= cx= cy= r=/"
    ∷ codes "circle class= r= hidden/"
    ∷ codes "text x= y= text-anchor="
    ∷ codes "/text"
    ∷ codes "rect class= x= y= width= height=/"
    ∷ codes "div id= class= role= aria-atomic= hidden"
    ∷ codes "details class="
    ∷ codes "details class= open"
    ∷ codes "/details"
    ∷ codes "summary"
    ∷ codes "/summary"
    ∷ []

-- The name of an element, up to the first space.
abbrev pub element_name : Text → Text
element_name [] = []
element_name (c ∷ s) = if c == b' ' then [] else c ∷ element_name s

abbrev pub ends_in_slash : Text → Bool
ends_in_slash [] = false
ends_in_slash (c ∷ []) = c == b'/'
ends_in_slash (c ∷ d ∷ s) = ends_in_slash (d ∷ s)

abbrev pub close_element : Text → List Text → Reader
close_element name [] = record { mode = broken; tag = []; open_names = [] }
close_element name (x ∷ names) =
    if text_eq x name
    then record { mode = outside; tag = []; open_names = names }
    else record { mode = broken; tag = []; open_names = [] }

unfoldable pub is_page_tag : Text → Bool
is_page_tag t = any (text_eq t) page_tags

-- A tag of the page closes an element, stands for itself, or opens an element.
abbrev pub read_page_tag : Text → List Text → Reader
read_page_tag [] names = record { mode = broken; tag = []; open_names = [] }
read_page_tag (c ∷ name) names =
    if c == b'/'
    then close_element name names
    else if ends_in_slash (c ∷ name)
    then record { mode = outside; tag = []; open_names = names }
    else record { mode = outside; tag = []; open_names = element_name (c ∷ name) ∷ names }

abbrev pub read_tag : Text → List Text → Reader
read_tag t names =
    if is_page_tag t
    then read_page_tag t names
    else record { mode = broken; tag = []; open_names = [] }

unfoldable pub step_in : Mode → ℕ → Reader → Reader
step_in outside c r = if c == b'<' then record r { mode = inside; tag = [] } else r
step_in inside c r =
    if c == 34
    then record r { mode = quoted }
    else if c == b'>'
    then read_tag r.tag r.open_names
    else record r { tag = r.tag ++ c ∷ [] }
step_in quoted c r = if c == 34 then record r { mode = inside } else r
step_in broken c r = r

unfoldable pub read : Reader → Text → Reader
unfolding step_in is_page_tag
read r [] = r
read r (c ∷ s) = read (step_in r.mode c r) s

-- Between tags, with these elements open.
abbrev pub between : List Text → Reader
between names = record { mode = outside; tag = []; open_names = names }

-- In the value of an attribute of a tag.
abbrev pub in_value : Text → List Text → Reader
in_value t names = record { mode = quoted; tag = t; open_names = names }

-- Markup that a browser can be given anywhere between tags: the page's own tags only, all of them closed.
abbrev pub IsFragment : Text → Type 0
IsFragment t = (names : List Text) → read (between names) t ≡ between names

-- A text that stays in the value of an attribute.
abbrev pub IsValue : Text → Type 0
IsValue t = (name : Text) (names : List Text) → read (in_value name names) t ≡ in_value name names
