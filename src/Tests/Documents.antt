-- ===== src/Tests/Documents.antt =====
-- Documents as values, with the members of the JSON library that the program uses.
use idsproject.Base.{
  Text, ℕ, zero, suc, ℤ, text_eq, Bool, true, false, Option, none, some, List, [], ◌∷◌,
  if◌then◌else◌,
}
use idsproject.Host.{Nlohmann}

mutual
  pub data Doc : Type 0 where
    num : ℤ → Doc
    bool : Bool → Doc
    text : Text → Doc
    arr : Docs → Doc
    obj : Fields → Doc

  pub data Docs : Type 0 where
    nil : Docs
    cons : Doc → Docs → Docs

  pub data Fields : Type 0 where
    end : Fields
    field : Text → Doc → Fields → Fields

abbrev get_field : Fields → Text → Option Doc
get_field end k = none
get_field (field j v fs) k = if text_eq j k then some v else get_field fs k

abbrev member : Doc → Text → Option Doc
member (obj fs) k = get_field fs k
member _ k = none

abbrev elements_of : Docs → List Doc
elements_of nil = []
elements_of (cons d ds) = d ∷ elements_of ds

abbrev nth : List Doc → ℕ → Option Doc
nth [] i = none
nth (d ∷ ds) zero = some d
nth (d ∷ ds) (suc i) = nth ds i

abbrev items : Doc → List Doc
items (arr ds) = elements_of ds
items _ = []

abbrev is_arr : Doc → Bool
is_arr (arr _) = true
is_arr _ = false

abbrev is_text : Doc → Bool
is_text (text _) = true
is_text _ = false

abbrev is_num : Doc → Bool
is_num (num _) = true
is_num _ = false

abbrev int_of : Doc → Option ℤ
int_of (num i) = some i
int_of _ = none

abbrev bool_of : Doc → Option Bool
bool_of (bool b) = some b
bool_of _ = none

abbrev text_of : Doc → Option Text
text_of (text t) = some t
text_of _ = none

abbrev all_of : {A : Type 0} → (Doc → Option A) → List Doc → Option (List A)
all_of get [] = some []
all_of get (d ∷ ds) = elim (get d) [
  | none ↦ none
  | some a ↦ elim (all_of get ds) [ none ↦ none | some rest ↦ some (a ∷ rest) ]
]

abbrev or_default : {A : Type 0} → (Doc → Option A) → Option Doc → A → Option A
or_default get none a = some a
or_default get (some d) a = get d

abbrev has : Option Doc → Bool
has none = false
has (some _) = true

-- The parser knows one text only.
abbrev pub toy_nlohmann : Text → Doc → Nlohmann Doc
toy_nlohmann source document = record {
  parse = λ t. if text_eq source t then some document else none;
  read_stream = λ t. if text_eq source t then some document else none;
  contains = λ j k. has (member j k);
  at_key = member;
  at_index = λ j i. nth (items j) i;
  is_array = is_arr;
  is_string = is_text;
  is_number_integer = is_num;
  elements = items;
  get_int = int_of;
  get_bool = bool_of;
  get_string = text_of;
  get_strings = λ j. all_of text_of (items j);
  get_ints = λ j. all_of int_of (items j);
  value_int = λ j k a. or_default int_of (member j k) a;
  value_bool = λ j k a. or_default bool_of (member j k) a;
  value_string = λ j k a. or_default text_of (member j k) a;
}
