-- ===== src/Client/Select.antt =====
-- components/ui/Select.tsx: the list of choices of the page size. The components that use it give numbers.
use csv_product_uploader.Prelude.{ℕ, ◌==◌, Bool, false, not, List, find, Option, none, some, String}

-- `SelectOption`
pub record SelectOption : Type 0 where
  pub value : ℕ
  pub label : String

pub data SelectEvent : Type 0 where
  button_clicked clicked_outside : SelectEvent
  option_clicked : ℕ → SelectEvent

abbrev pub label_of : Option SelectOption → Option String
label_of none = none
label_of (some o) = some o.label

-- The text of the button: nothing if no option has the value.
unfoldable pub selected_label : ℕ → List SelectOption → Option String
selected_label value options = label_of (find (λ o. o.value == value) options)

-- `isOpen` behind an event.
unfoldable pub select_open : SelectEvent → Bool → Bool
select_open button_clicked is_open = not is_open
select_open clicked_outside is_open = false
select_open (option_clicked v) is_open = false

-- What `onChange` is called with.
abbrev pub select_change : SelectEvent → Option ℕ
select_change (option_clicked v) = some v
select_change _ = none
