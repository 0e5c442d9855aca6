-- ===== src/Machine/Json.antt =====
-- `serde_json::Value`, and what the state machine reads in the agent's component dumps:
-- ibctl/src/state_machine/mod.rs and ibctl/src/handlers/totp_entry.rs. The members of an object
-- stand in the order of its map, which has a key once.
use ibctl.Base.{
  ℕ, Bool, true, false, not, ◌&&◌, ◌||◌, Option, none, some, List, [], ◌∷◌, ◌++◌, map, ◌>>=◌, min,
  length, take, if◌then◌else◌,
}
use ibctl.Base.Text.{Text, codes, text_eq, trim}
use ibctl.Base.Decimal.{parse_u64}
use ibctl.Base.Words.{Casing, ascii_lower, contains, contains_any, join, split_whitespace}

mutual
  pub data Json : Type 0 where
    null : Json
    boolean : Bool → Json
    number : Text → Json
    string : Text → Json
    array : Elements → Json
    object : Members → Json

  pub data Elements : Type 0 where
    end : Elements
    element : Json → Elements → Elements

  pub data Members : Type 0 where
    empty : Members
    member : Text → Json → Members → Members

abbrev pub listed : Elements → List Json
listed end = []
listed (element v vs) = v ∷ listed vs

unfoldable get_member : Text → Members → Option Json
unfolding text_eq
get_member key empty = none
get_member key (member k v vs) = if text_eq k key then some v else get_member key vs

-- `get(key)`
unfoldable pub get : Text → Json → Option Json
unfolding get_member
get key (object members) = get_member key members
get key _ = none

abbrev pub as_array : Json → Option (List Json)
as_array (array vs) = some (listed vs)
as_array _ = none

abbrev pub as_str : Json → Option Text
as_str (string t) = some t
as_str _ = none

abbrev as_bool : Json → Option Bool
as_bool (boolean b) = some b
as_bool _ = none

abbrev pub get_array : Text → Json → Option (List Json)
get_array key v = get key v >>= as_array

abbrev nonempty : {A : Type 0} → Option (List A) → Bool
nonempty none = false
nonempty (some []) = false
nonempty (some (_ ∷ _)) = true

unfoldable pub components_have_login_form : Json → Bool
unfolding get
components_have_login_form components = nonempty (get_array (codes "textfields") components)

-- `filter_map`
abbrev pub strings_of : List Json → List Text
strings_of [] = []
strings_of (string t ∷ vs) = t ∷ strings_of vs
strings_of (_ ∷ vs) = strings_of vs

-- The text after the first label for the API server that has one after it.
unfoldable pub status_after : List Text → Option Text
unfolding contains
status_after [] = none
status_after (text ∷ []) = none
status_after (text ∷ status ∷ rest) =
    let later = status_after (status ∷ rest) in
    if contains text (codes "api server") then some status else later

unfoldable mutual
  pub collect_strings : Json → List Text
  collect_strings (string t) = t ∷ []
  collect_strings (array vs) = collect_elements vs
  collect_strings (object vs) = collect_members vs
  collect_strings _ = []

  collect_elements : Elements → List Text
  collect_elements end = []
  collect_elements (element v vs) = collect_strings v ++ collect_elements vs

  collect_members : Members → List Text
  collect_members empty = []
  collect_members (member _ v vs) = collect_strings v ++ collect_members vs

abbrev is_text_key : Option Text → Bool
is_text_key none = false
is_text_key (some key) = text_eq key (codes "text")

abbrev is_empty : Text → Bool
is_empty [] = true
is_empty (_ ∷ _) = false

unfoldable semantic_string : Text → Option Text → List Text
unfolding trim text_eq
semantic_string t key = if not (is_text_key key) && not (is_empty (trim t)) then t ∷ [] else []

-- The values of fields named `text` are passed over.
unfoldable mutual
  unfolding semantic_string

  collect_semantic_strings : Json → Option Text → List Text
  collect_semantic_strings (string t) key = semantic_string t key
  collect_semantic_strings (array vs) key = semantic_elements vs key
  collect_semantic_strings (object vs) key = semantic_members vs
  collect_semantic_strings _ key = []

  semantic_elements : Elements → Option Text → List Text
  semantic_elements end key = []
  semantic_elements (element v vs) key = collect_semantic_strings v key ++ semantic_elements vs key

  semantic_members : Members → List Text
  semantic_members empty = []
  semantic_members (member k v vs) = collect_semantic_strings v (some k) ++ semantic_members vs

abbrev or_true : Option Bool → Bool
or_true none = true
or_true (some b) = b

abbrev takes_input : Json → Bool
takes_input field =
    or_true (get (codes "visible") field >>= as_bool)
    && or_true (get (codes "enabled") field >>= as_bool)
    && or_true (get (codes "editable") field >>= as_bool)

abbrev some_takes_input : Option (List Json) → Bool
some_takes_input none = false
some_takes_input (some []) = false
some_takes_input (some (field ∷ fields)) = takes_input field || some_takes_input (some fields)

unfoldable pub looks_like_twofa_components : Json → Bool
unfolding get contains collect_semantic_strings
looks_like_twofa_components components =
    let text = map ascii_lower (join (codes " ") (collect_semantic_strings components none)) in
    some_takes_input (get_array (codes "textfields") components)
    && (contains_any text (
          codes "security code"
          ∷ codes "authentication code"
          ∷ codes "verification code"
          ∷ codes "one-time code"
          ∷ codes "one time code"
          ∷ codes "one-time password"
          ∷ codes "passcode"
          ∷ codes "enter the code"
          ∷ codes "verification"
          ∷ codes " otp "
          ∷ [])
        && not (
            contains_any text (codes "username" ∷ codes "user name" ∷ codes "account username" ∷ [])
            && contains text (codes "password")))

abbrev pub optional : {A B : Type 0} → B → (A → B) → Option A → B
optional b f none = b
optional b f (some a) = f a

module _ (casing : Casing) where
  unfoldable pub api_server_row_status : Json → Option Text
  unfolding status_after get
  api_server_row_status components =
      get_array (codes "labels") components
      >>= (λ labels. status_after (map casing.to_lowercase (strings_of labels)))

  unfoldable pub components_indicate_disconnected : Json → Bool
  unfolding api_server_row_status text_eq
  components_indicate_disconnected components =
      optional false (λ s. text_eq s (codes "disconnected")) (api_server_row_status components)

  unfoldable pub components_indicate_connected : Json → Bool
  unfolding api_server_row_status text_eq
  components_indicate_connected components =
      optional false (λ s. text_eq s (codes "connected")) (api_server_row_status components)

  unfoldable pub components_confirm_authenticated : Json → Bool
  unfolding components_have_login_form components_indicate_connected
  components_confirm_authenticated components =
      not (components_have_login_form components) && components_indicate_connected components

  -- The token before the first "connected", or none at the front; no token "connected" is none.
  unfoldable before_connected : Option Text → List Text → Option (Option Text)
  unfolding text_eq
  before_connected previous [] = none
  before_connected previous (token ∷ tokens) =
      let later = before_connected (some token) tokens in
      if text_eq token (codes "connected") then some previous else later

  abbrev title_of : Json → Option Text
  title_of tab = get (codes "title") tab >>= as_str

  abbrev titles : List Json → List Text
  titles [] = []
  titles (tab ∷ tabs) = optional (titles tabs) (λ t. t ∷ titles tabs) (title_of tab)

  abbrev count_hint : Option Text → Option ℕ
  count_hint previous = previous >>= parse_u64

  abbrev first_titles : ℕ → Option ℕ → Option (List Json) → List Text
  first_titles limit hint none = []
  first_titles limit hint (some tabs) =
      titles (take (min (optional (length tabs) (λ n. n) hint) limit) tabs)

  unfoldable pub derive_client_ids : Json → ℕ → List Text
  unfolding before_connected get split_whitespace parse_u64
  derive_client_ids view limit =
      let status = optional [] (λ t. t) (get (codes "api_client_row_status") view >>= as_str) in
      elim (before_connected none (split_whitespace (casing.to_lowercase status))) [
        | none ↦ []
        | some previous ↦ first_titles limit (count_hint previous) (get_array (codes "tabs") view)
      ]
