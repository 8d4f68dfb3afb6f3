-- ===== src/GoClient/Table/Search.antt =====
-- components/FilterPanel.tsx with pages/Dashboard.tsx of the Go pipeline's client: the search box.
use csv_product_uploader.Prelude.{
  Option, none, some, String, str_eq, eq_iff, eq_refl, ◌≡◌, refl, sym, Bool-cases, inl, inr,
}
use csv_product_uploader.Server.Entities.{or_null}
use csv_product_uploader.GoClient.Dashboard.{ImportDashboard, Action, rerender, act, dispatch}
use csv_product_uploader.GoClient.Table.{search_text, search_due}

-- The dashboard after the timer.
abbrev pub after_search : Option Action → ImportDashboard → ImportDashboard
after_search none d = d
after_search (some a) d = dispatch a d

text_null : (s : String) → search_text (or_null (some s)) ≡ s
text_null s = elim (Bool-cases (str_eq s "")) [
  | inl empty ↦ rw empty (sym ((eq_iff s "").0 empty))
  | inr named ↦ rw named refl
]

-- Once the timer has run, the filter is the text that was typed, and the timer asks for nothing more.
pub after_search-settles :
    (typed : String) (d : ImportDashboard)
    → let e = after_search (search_due typed d.filters.filter_name) d in
      (search_text e.filters.filter_name ≡ typed) × (search_due typed e.filters.filter_name ≡ none)
unfolding search_due dispatch act rerender
after_search-settles typed d =
    elim (Bool-cases (str_eq typed (search_text d.filters.filter_name))) [
      | inl same ↦
          rw same (sym ((eq_iff typed (search_text d.filters.filter_name)).0 same), rw same refl)
      | inr other ↦ rw other (text_null typed, rw (text_null typed, eq_refl typed) refl)
    ]
