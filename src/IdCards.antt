-- ===== src/IdCards.antt =====
-- client/adminpanel/site/idcards/scripts.js: the identity cards of a list of students, printed on
-- pages. Lengths are in thousandths of a millimetre. Fonts and the pictures themselves are left out.
pub mod Places
pub mod Geometry
pub mod Pictures
pub mod Drawing
use Prim.Native.String.{◌++◌ as str_append}
use schulealsstaat.Base.{
  ℕ, zero, suc, ◌+◌, ◌-◌, ◌*◌, ◌/◌, String, Bool, true, false, ◌&&◌, ◌||◌, Option, none, some, List,
  [], ◌∷◌, ◌++◌, get_elem?, length, sort, ltb, str_eq, if◌then◌else◌,
}
use schulealsstaat.Types.{Student}

abbrev pub page_w : ℕ
page_w = 210000

abbrev pub page_h : ℕ
page_h = 297000

abbrev pub card_w : ℕ
card_w = 70000

abbrev pub card_h : ℕ
card_h = 50800

abbrev pub card_margin_x : ℕ
card_margin_x = 0

abbrev pub card_margin_y : ℕ
card_margin_y = 0

abbrev pub page_offset_x : ℕ
page_offset_x = 0

abbrev pub page_offset_y : ℕ
page_offset_y = 23000

abbrev pub amount_x : ℕ
amount_x = (page_w - page_offset_x + card_margin_x) / (card_w + card_margin_x)

abbrev pub amount_y : ℕ
amount_y = (page_h - page_offset_y + card_margin_y) / (card_h + card_margin_y)

-- `country_readable`
unfoldable pub country_readable : String → String
country_readable countrycode =
    if str_eq countrycode "de"
    then "Deutschland"
    else if str_eq countrycode "fr"
    then "Frankreich"
    else if str_eq countrycode "tr"
    then "Türkei"
    else if str_eq countrycode "gb"
    then "Großbritannien"
    else if str_eq countrycode "it"
    then "Italien"
    else "Kein Land"

-- What a card says.
pub record Readable : Type 0 where
  pub title : String
  pub lines : List String

-- What the page uses of the texts: `toLowerCase`, `toUpperCase`, `date_readable`, and `<` on texts.
pub record Texts : Type 0 where
  pub lower : String → String
  pub upper : String → String
  pub date_readable : String → String
  pub less : String → String → Bool

abbrev pub country_of : Texts → Option String → String
country_of t none = country_readable ""
country_of t (some c) = country_readable (if str_eq c "" then "" else t.lower c)

-- The last branch of `student_readable`: `assert` throws if a name is missing.
unfoldable pub citizen_readable : Texts → String → Student → Option Readable
citizen_readable t cl st = elim st.firstname [
  | none ↦ none
  | some firstname ↦ elim st.lastname [
    | none ↦ none
    | some lastname ↦ some (record {
      title = str_append firstname (str_append " " lastname);
      lines =
          (if str_eq cl "teacher"
            then "Lehrer / Lehrerin" ∷ []
            else if str_eq cl "other"
            then "Sonderausweis" ∷ []
            else str_append "Klasse " (t.upper cl)
              ∷ str_append "* " (t.date_readable st.birth)
              ∷ [])
          ++ country_of t st.country ∷ [];
    })
  ]
]

-- `student_readable`; `none` is an exception.
unfoldable pub student_readable : Texts → Student → Option Readable
student_readable t st =
    let cl = t.lower st.type in
    let citizen = citizen_readable t cl st in
    if str_eq cl "replacement"
    then some (record {
      title = "Name:                                      ";
      lines = "Ersatzkarte /" ∷ "Sonderkarte" ∷ [];
    })
    else if str_eq cl "legalentity"
    then elim st.special_name [
      | none ↦ none
      | some special_name ↦
          some (record { title = special_name; lines = "juristische" ∷ "Person" ∷ [] })
    ]
    else if str_eq cl "visitor"
    then some (record { title = "Besucherausweis"; lines = "Herzlich" ∷ "Willkommen in..." ∷ [] })
    else citizen

-- The counters of the three loops.
pub record Slot : Type 0 where
  pub page : ℕ
  pub y : ℕ
  pub x : ℕ

pub record Card : Type 0 where
  pub slot : Slot
  pub student : Student
  pub readable : Readable

-- `index`
abbrev pub index : Slot → ℕ
index s = amount_x * amount_y * s.page + amount_x * s.y + s.x

abbrev pub xpos : Slot → ℕ
xpos s = page_offset_x + (card_margin_x + card_w) * s.x

abbrev pub ypos : Slot → ℕ
ypos s = page_offset_y + (card_margin_y + card_h) * s.y

-- The counters after a round of the innermost loop. A page is added when the first one goes up.
unfoldable pub next : Slot → Slot
next s =
    if ltb (s.x + 1) amount_x
    then record s { x = s.x + 1 }
    else if ltb (s.y + 1) amount_y
    then record s { y = s.y + 1; x = 0 }
    else record { page = s.page + 1; y = 0; x = 0 }

-- The cards, the pages that were added to the first one, the pictures that were asked for, and
-- whether the loops returned, threw, or are still running when the fuel is used up.
pub data End : Type 0 where
  returned thrown running : End

pub record Printout : Type 0 where
  pub cards : List Card
  pub added_pages : ℕ
  pub pictures : List String
  pub end : End

abbrev pub picture_of : Student → List String
picture_of st = elim st.picname [ none ↦ [] | some p ↦ p ∷ [] ]

-- One card before the others.
abbrev pub with_card : Slot → Student → Option Readable → Printout → Printout
with_card s st none rest = record {
  cards = [];
  added_pages = s.page;
  pictures = picture_of st;
  end = thrown;
}
with_card s st (some r) rest = record rest {
  cards = record { slot = s; student = st; readable = r } ∷ rest.cards;
  pictures = picture_of st ++ rest.pictures;
}

module _ (t : Texts) where
  -- One element of the list; the loops return where there is none.
  abbrev pub with_element : Slot → Option Student → Printout → Printout
  with_element s none rest = record {
    cards = [];
    added_pages = s.page;
    pictures = [];
    end = returned;
  }
  with_element s (some st) rest = with_card s st (student_readable t st) rest

  -- The loops of `render_students` from some counters on, with fuel for their rounds.
  unfoldable pub render_from : ℕ → List Student → Slot → Printout
  render_from zero list s = record {
    cards = [];
    added_pages = s.page;
    pictures = [];
    end = running;
  }
  render_from (suc fuel) list s =
      let rest = render_from fuel list (next s) in with_element s (get_elem? list (index s)) rest

  unfoldable pub render_students : ℕ → List Student → Printout
  render_students fuel list = render_from fuel list (record { page = 0; y = 0; x = 0 })

  -- `makepdf`, which sorts by type before.
  unfoldable pub makepdf : ℕ → List Student → Printout
  makepdf fuel list = render_students fuel (sort (λ (a b : Student). t.less b.type a.type) list)
