-- ===== src/Client/Panels/Amounts.antt =====
-- components/ProductTable.tsx: amounts in other currencies, the sort arrows and the footers. An amount is
-- kept as the number, before `toFixed(2)`.
use csv_product_uploader.Prelude.{
  ℕ, ◌==◌, Bool, if◌then◌else◌, List, [], ◌∷◌, ◌++◌, Option, none, some, String, ◌≡◌, All,
}
use csv_product_uploader.Js.Number.{Number}
use csv_product_uploader.Js.Text.{Text, codes, text_eq, to_upper_case}
use csv_product_uploader.Server.Rates.{supported_currencies}
use csv_product_uploader.Server.Products.{Pagination, SortBy, SortOrder}
use csv_product_uploader.Client.Table.{same_column, range_start, range_end}

-- `symbols[currency]`
abbrev pub symbols : List (Text × Text)
symbols =
    (codes "USD", codes "$")
    ∷ (codes "EUR", codes "€")
    ∷ (codes "GBP", codes "£")
    ∷ (codes "JPY", codes "¥")
    ∷ (codes "AUD", codes "A$")
    ∷ []

unfoldable pub symbol_in : List (Text × Text) → Text → Option Text
symbol_in [] currency = none
symbol_in ((c, s) ∷ rest) currency = if text_eq c currency then some s else symbol_in rest currency

abbrev pub symbol_or : Option Text → Text → Text
symbol_or none currency = currency
symbol_or (some s) currency = s

-- What stands around an amount.
pub record Amount : Type 0 where
  pub before : Text
  pub amount : Number
  pub behind : Text

-- `formatCurrency`
unfoldable pub format_currency : Bool → Number → Text → Amount
format_currency show_symbols amount currency =
    if show_symbols
    then record {
      before = symbol_or (symbol_in symbols currency) currency;
      amount = amount;
      behind = [];
    }
    else record { before = []; amount = amount; behind = codes " " ++ currency }

-- Every currency that the server stores, which it stores in capitals, has a symbol of its own.
supported_symbols : All (λ c. symbol_in symbols (to_upper_case c) ≡ none → ⊥) supported_currencies
unfolding symbol_in to_upper_case text_eq
supported_symbols = (λ e. cc, (λ e. cc, (λ e. cc, (λ e. cc, (λ e. cc, tt)))))

-- `sortIcon`: none if the table is not sorted by the column.
abbrev pub sort_icon : SortBy → SortBy → SortOrder → Option SortOrder
sort_icon column sorted_by order = if same_column sorted_by column then some order else none

-- `mobileFooter`: '…-… of …'
abbrev pub mobile_range : Pagination → ℕ → ℕ × ℕ × ℕ
mobile_range p limit = (range_start p limit, range_end p limit, p.total)

-- `desktopFooter`: '… rows available' and 'Page … of …'
pub record TableFooter : Type 0 where
  pub total : ℕ
  pub noun : String
  pub page : ℕ
  pub pages : ℕ

unfoldable pub desktop_footer : Pagination → TableFooter
desktop_footer p = record {
  total = p.total;
  noun = if p.total == 1 then "row" else "rows";
  page = p.page;
  pages = if p.total_pages == 0 then 1 else p.total_pages;
}
