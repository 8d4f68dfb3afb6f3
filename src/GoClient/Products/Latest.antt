-- ===== src/GoClient/Products/Latest.antt =====
-- hooks/useProductsData.ts of the Go pipeline's client: what is shown once no answer is missing.
use csv_product_uploader.Prelude.{
  zero, ◌==◌, ==_iff, Bool, true, false, ◌&&◌, List, [], ◌∷◌, ◌++◌, Option, none, some, ◌≡◌, refl,
  sym, ◌∙◌, subst, arith, Bool-cases, ◌⊎◌, inl, inr,
}
use csv_product_uploader.Client.Dashboard.{is_set, same_id}
use csv_product_uploader.GoClient.Progress.Alive.{same_id-eq}
use csv_product_uploader.GoClient.Products.{
  CatalogProduct, SortColumn, name, price, expiration, Direction, asc, desc, PaginationInfo,
  empty_pagination, CatalogQuery, CatalogData, equal_columns, equal_directions, same_query,
  fetch_page, set_query, awaits_rows, tick_products, use_products, answer_products,
}

-- An answer of the server; none is an error.
abbrev pub Answer : Type 0
Answer = Option (List CatalogProduct × PaginationInfo)

-- What the table shows of an answer.
abbrev pub products_of : Answer → List CatalogProduct
products_of none = []
products_of (some (ps, p)) = ps

abbrev pub pagination_of : Answer → PaginationInfo
pagination_of none = empty_pagination
pagination_of (some (ps, p)) = p

-- The hook's states while the oldest request is answered first. `Says q r`: the server may answer
-- the query `q` with `r`.
pub data Advances (Says : CatalogQuery → Answer → Type 0) : CatalogData → Type 0 where
  started : (d : CatalogData) → is_set d.query.job_id ≡ false → d.requests ≡ [] → Advances Says d
  queried : (q : CatalogQuery) (d : CatalogData) → Advances Says d → Advances Says (set_query q d)
  ticked : (d : CatalogData) → Advances Says d → Advances Says (tick_products d)
  answered :
      (q : CatalogQuery) (rest : List CatalogQuery) (r : Answer) (d : CatalogData)
      → d.requests ≡ q ∷ rest
      → Says q r
      → Advances Says d
      → Advances Says (answer_products zero r d)

-- An answer to the query is shown.
pub record Shows (Says : CatalogQuery → Answer → Type 0) (d : CatalogData) : Type 0 where
  pub answer : Answer
  pub said : Says d.query answer
  pub products : d.products ≡ products_of answer
  pub pagination : d.pagination ≡ pagination_of answer

-- The newest request is the query.
record Asks (d : CatalogData) : Type 0 where
  earlier : List CatalogQuery
  newest : d.requests ≡ earlier ++ d.query ∷ []

abbrev IsFresh : (CatalogQuery → Answer → Type 0) → CatalogData → Type 0
IsFresh Says d = is_set d.query.job_id ≡ true → ((d.requests ≡ []) × Shows Says d) ⊎ Asks d

all_of :
    (a b c d e f : Bool)
    → (a && b && c && d && e && f) ≡ true
    → (a ≡ true) × (b ≡ true) × (c ≡ true) × (d ≡ true) × (e ≡ true) × (f ≡ true)
all_of true true true true true f h = (refl, refl, refl, refl, refl, h)
all_of true true true true false f h = absurd (ground arith)
all_of true true true false e f h = absurd (ground arith)
all_of true true false d e f h = absurd (ground arith)
all_of true false c d e f h = absurd (ground arith)
all_of false b c d e f h = absurd (ground arith)

equal_columns-eq : (a b : SortColumn) → equal_columns a b ≡ true → a ≡ b
equal_columns-eq name name h = refl
equal_columns-eq price price h = refl
equal_columns-eq expiration expiration h = refl
equal_columns-eq name price h = absurd (ground arith)
equal_columns-eq name expiration h = absurd (ground arith)
equal_columns-eq price name h = absurd (ground arith)
equal_columns-eq price expiration h = absurd (ground arith)
equal_columns-eq expiration name h = absurd (ground arith)
equal_columns-eq expiration price h = absurd (ground arith)

equal_directions-eq : (a b : Direction) → equal_directions a b ≡ true → a ≡ b
equal_directions-eq asc asc h = refl
equal_directions-eq desc desc h = refl
equal_directions-eq asc desc h = absurd (ground arith)
equal_directions-eq desc asc h = absurd (ground arith)

same_query-eq : (a b : CatalogQuery) → same_query a b ≡ true → a ≡ b
unfolding same_query
same_query-eq a b h =
    let (j, p, f, c, o, l) =
      all_of (same_id a.job_id b.job_id) (a.page == b.page)
        (same_id a.filters.filter_name b.filters.filter_name)
        (equal_columns a.filters.sort_by b.filters.sort_by)
        (equal_directions a.filters.sort_order b.filters.sort_order)
        (a.filters.limit == b.filters.limit) h in
    let job = same_id-eq a.job_id b.job_id j in
    let page = (==_iff a.page b.page).0 p in
    let text = same_id-eq a.filters.filter_name b.filters.filter_name f in
    let column = equal_columns-eq a.filters.sort_by b.filters.sort_by c in
    let order = equal_directions-eq a.filters.sort_order b.filters.sort_order o in
    let limit = (==_iff a.filters.limit b.filters.limit).0 l in
    λ i. record {
      job_id = job i;
      filters = record {
        filter_name = text i;
        sort_by = column i;
        sort_order = order i;
        limit = limit i;
      };
      page = page i;
    }

pub set_query-query : (q : CatalogQuery) (d : CatalogData) → (set_query q d).query ≡ q
unfolding set_query fetch_page
set_query-query q d = elim (Bool-cases (same_query d.query q)) [
  | inl same ↦ rw same refl
  | inr changed ↦ elim (Bool-cases (is_set q.job_id)) [
    | inl named ↦ rw (changed, named) refl
    | inr empty ↦ rw (changed, empty) refl
  ]
]

use_products-Shows :
    (Says : CatalogQuery → Answer → Type 0) (r : Answer) (d : CatalogData)
    → Says d.query r
    → Shows Says (use_products r d)
use_products-Shows Says none d h = record {
  answer = none;
  said = h;
  products = refl;
  pagination = refl;
}
use_products-Shows Says (some (ps, p)) d h = record {
  answer = some (ps, p);
  said = h;
  products = refl;
  pagination = refl;
}

use_products-IsFresh :
    (Says : CatalogQuery → Answer → Type 0) (r : Answer) (d : CatalogData)
    → ((d.requests ≡ []) × Says d.query r) ⊎ Asks d
    → IsFresh Says (use_products r d)
use_products-IsFresh Says none d (inl (e, s)) = λ h. inl (e, use_products-Shows Says none d s)
use_products-IsFresh Says (some (ps, p)) d (inl (e, s)) =
    λ h. inl (e, use_products-Shows Says (some (ps, p)) d s)
use_products-IsFresh Says none d (inr a) =
    λ h. inr (record { earlier = a.earlier; newest = a.newest })
use_products-IsFresh Says (some (ps, p)) d (inr a) =
    λ h. inr (record { earlier = a.earlier; newest = a.newest })

use_products-query : (r : Answer) (d : CatalogData) → (use_products r d).query ≡ d.query
use_products-query none d = refl
use_products-query (some (ps, p)) d = refl

-- The first of some queries is their last, or the last is among the others.
first_or_later :
    (xs : List CatalogQuery) (x q : CatalogQuery) (rest : List CatalogQuery)
    → xs ++ x ∷ [] ≡ q ∷ rest
    → ((rest ≡ []) × (q ≡ x)) ⊎ (ys : List CatalogQuery) × (rest ≡ ys ++ x ∷ [])
first_or_later [] x q rest e = inl (cc, cc)
first_or_later (y ∷ ys) x q rest e = inr (ys, cc)

nothing_first : (q : CatalogQuery) (rest : List CatalogQuery) → [] ≡ q ∷ rest → ⊥
nothing_first q rest e = absurd (ground arith)

module _ (Says : CatalogQuery → Answer → Type 0) where
  fetch_page-IsFresh : (d : CatalogData) → IsFresh Says (fetch_page d)
  unfolding fetch_page
  fetch_page-IsFresh d = elim (Bool-cases (is_set d.query.job_id)) [
    | inl named ↦ rw named (λ h. inr (record { earlier = d.requests; newest = refl }))
    | inr empty ↦ rw empty (λ h. absurd (ground arith))
  ]

  set_query-IsFresh :
      (q : CatalogQuery) (d : CatalogData) → IsFresh Says d → IsFresh Says (set_query q d)
  unfolding set_query
  set_query-IsFresh q d f = elim (Bool-cases (same_query d.query q)) [
    | inl same ↦
        rw same
          (subst (λ x. IsFresh Says (record d { query = x })) (same_query-eq d.query q same) f)
    | inr changed ↦ rw changed (fetch_page-IsFresh (record d { query = q }))
  ]

  tick_products-IsFresh : (d : CatalogData) → IsFresh Says d → IsFresh Says (tick_products d)
  unfolding tick_products
  tick_products-IsFresh d f = elim (Bool-cases (awaits_rows d)) [
    | inl due ↦ rw due (fetch_page-IsFresh d)
    | inr off ↦ rw off f
  ]

  -- The oldest request is answered: the query's own, if no other is open.
  oldest-IsFresh :
      (q : CatalogQuery) (rest : List CatalogQuery) (r : Answer) (d : CatalogData)
      → d.requests ≡ q ∷ rest
      → Says q r
      → IsFresh Says d
      → IsFresh Says (answer_products zero r d)
  unfolding answer_products
  oldest-IsFresh q rest r d e s f = rw e λ h.
      elim (f (subst (λ x. is_set x.job_id ≡ true) (use_products-query r _) h)) [
        | inl settled ↦ absurd (nothing_first q rest (sym settled.0 ∙ e))
        | inr asks ↦
            use_products-IsFresh Says r (record d { requests = rest })
              (elim (first_or_later asks.earlier d.query q rest (sym asks.newest ∙ e)) [
                | inl alone ↦ inl (alone.0, subst (λ x. Says x r) alone.1 s)
                | inr (ys, later) ↦ inr (record { earlier = ys; newest = later })
              ])
              h
      ]

  Advances-IsFresh : (d : CatalogData) → Advances Says d → IsFresh Says d
  Advances-IsFresh _ (started d unset none_sent) = λ h. absurd (ground arith)
  Advances-IsFresh _ (queried q d a) = set_query-IsFresh q d (Advances-IsFresh d a)
  Advances-IsFresh _ (ticked d a) = tick_products-IsFresh d (Advances-IsFresh d a)
  Advances-IsFresh _ (answered q rest r d e s a) =
      oldest-IsFresh q rest r d e s (Advances-IsFresh d a)

no_last : (xs : List CatalogQuery) (q : CatalogQuery) → [] ≡ xs ++ q ∷ [] → ⊥
no_last [] q e = absurd (ground arith)
no_last (x ∷ xs) q e = absurd (ground arith)

nothing_open : (d : CatalogData) → d.requests ≡ [] → Asks d → ⊥
nothing_open d e a = no_last a.earlier d.query (sym e ∙ a.newest)

-- As long as the server answers the hook's requests in the order in which they were sent, then, in
-- every state of the hook in which a job is set and no answer is missing, whatever queries and
-- polls led to it, the products and the pagination are those of an answer to the query as it is
-- now; after an error there are none.
pub Advances-Shows :
    (Says : CatalogQuery → Answer → Type 0) (d : CatalogData)
    → Advances Says d
    → is_set d.query.job_id ≡ true
    → d.requests ≡ []
    → Shows Says d
Advances-Shows Says d a h e = elim (Advances-IsFresh Says d a h) [
  | inl settled ↦ settled.1
  | inr asks ↦ absurd (nothing_open d e asks)
]
