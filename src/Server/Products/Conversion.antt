-- ===== src/Server/Products/Conversion.antt =====
-- products/products.service.ts, `findAll`: the prices in other currencies, and whose products they
-- are.
use mathlib.Core.List.{Memᴰ}
use csv_product_uploader.Prelude.{
  if◌then◌else◌, All-mono, ℕ, zero, suc, Bool, true, false, List, [], ◌∷◌, ◌++◌, map, take, drop,
  select, any, All, some, String, str_eq, eq_iff, eq_refl, ◌≡◌, refl, ◌∙◌, arith, Bool-cases, inl,
  inr,
}
use csv_product_uploader.Server.Entities.{ExchangeRate, or_null}
use csv_product_uploader.Server.Rates.{get_rates_for_batch}
use csv_product_uploader.Server.Products.{
  Product, GetProductsDto, SortBy, SortOrder, Condition, name_condition, defined_condition,
  text_condition, price_from, price_to, expires_from, expires_to, of_batch, of_user, conditions,
  distinct, rate_object, rates_map, batch_rates, converted, with_rates, own_query, meets, found,
  page_of, find_all, find_own, ProductWithRates,
}

-- The stored rates of a batch, in their order.
unfoldable pub rates_of : String → List ExchangeRate → List ExchangeRate
rates_of b [] = []
rates_of b (r ∷ rs) =
    let rest = rates_of b rs in if str_eq r.upload_batch_id b then r ∷ rest else rest

get_rates_for_batch-rates_of :
    (b : String) (rs : List ExchangeRate) → get_rates_for_batch b rs ≡ rates_of b rs
unfolding get_rates_for_batch rates_of
get_rates_for_batch-rates_of b [] = refl
get_rates_for_batch-rates_of b (r ∷ rs) = elim (Bool-cases (str_eq r.upload_batch_id b)) [
  | inl own ↦ rw (own, get_rates_for_batch-rates_of b rs) refl
  | inr other ↦ rw (other, get_rates_for_batch-rates_of b rs) refl
]

-- A product with the rates of its own batch's snapshot, looked up directly.
unfoldable pub with_own_rates : List ExchangeRate → Product → ProductWithRates
with_own_rates stored p = record {
  id = p.id;
  name = p.name;
  price = p.price;
  expiration_date = p.expiration_date;
  upload_date = p.created_at;
  exchange_rates = converted p.price [] (rate_object [] (rates_of p.upload_batch_id stored));
}

batch_rates-rates_map :
    (stored : List ExchangeRate) (b : String) (bs : List String)
    → any (λ k. str_eq k b) bs ≡ true
    → batch_rates b (rates_map stored bs) ≡ rate_object [] (get_rates_for_batch b stored)
unfolding batch_rates rates_map
batch_rates-rates_map stored b [] h = absurd (ground arith)
batch_rates-rates_map stored b (k ∷ bs) h = elim (Bool-cases (str_eq k b)) [
  | inl same ↦ let key : k ≡ b = ground (arith, eq_iff k b) in rw (same, key) refl
  | inr apart ↦ rw apart (batch_rates-rates_map stored b bs (ground arith))
]

any_flip : (b : String) (ss : List String) → any (str_eq b) ss ≡ any (λ k. str_eq k b) ss
any_flip b [] = refl
any_flip b (s ∷ ss) = ground (arith, eq_iff b s, eq_iff s b, any_flip b ss)

-- A value that is listed, or was seen, is kept or was seen.
any-distinct :
    (b : String) (seen ss : List String)
    → any (λ k. str_eq k b) ss ≡ true
    → any (λ k. str_eq k b) seen ≡ false
    → any (λ k. str_eq k b) (distinct seen ss) ≡ true
unfolding distinct
any-distinct b seen [] h k = absurd (ground arith)
any-distinct b seen (s ∷ ss) h k = elim (Bool-cases (str_eq s b)) [
  | inl same ↦
      let key : s ≡ b = ground (arith, eq_iff s b) in
      let fresh : any (str_eq s) seen ≡ false = rw key (any_flip b seen ∙ k) in
      rw (fresh, same) refl
  | inr apart ↦
      let later : any (λ k. str_eq k b) ss ≡ true = ground arith in
      elim (Bool-cases (any (str_eq s) seen)) [
        | inl old ↦ rw old (any-distinct b seen ss later k)
        | inr fresh ↦ rw (fresh, apart) (any-distinct b (s ∷ seen) ss later (rw apart k))
      ]
]

map-with_rates :
    (stored : List ExchangeRate) (bs : List String) (ps : List Product)
    → All (λ p. any (λ k. str_eq k p.upload_batch_id) bs ≡ true) ps
    → map (with_rates (rates_map stored bs)) ps ≡ map (with_own_rates stored) ps
unfolding with_rates with_own_rates
map-with_rates stored bs [] a = refl
map-with_rates stored bs (p ∷ ps) (h, a) =
    rw
      (
        batch_rates-rates_map stored p.upload_batch_id bs h,
        get_rates_for_batch-rates_of p.upload_batch_id stored,
        map-with_rates stored bs ps a,
      )
      refl

-- Every listed batch is among the batches.
every_batch :
    (ps : List Product)
    → All (λ p. any (λ k. str_eq k p.upload_batch_id) (map (λ p. p.upload_batch_id) ps) ≡ true) ps
every_batch [] = tt
every_batch (p ∷ ps) =
    let b = p.upload_batch_id in
    let bs = map (λ (p : Product). p.upload_batch_id) ps in
    (
      rw (eq_refl b) refl,
      All-mono (λ (p : Product). any (λ k. str_eq k p.upload_batch_id) bs ≡ true)
          (λ p. any (λ k. str_eq k p.upload_batch_id) (b ∷ bs) ≡ true) ps (λ x h. ground arith)
          (every_batch ps),
    )

pub select-meets :
    (P : Product → Type 0) (t : Product → Bool) (l : List Product)
    → ((p : Product) → t p ≡ true → P p)
    → All P (select t l)
select-meets P t [] k = tt
select-meets P t (p ∷ l) k = elim (Bool-cases (t p)) [
  | inl met ↦ rw met (k p met, select-meets P t l k)
  | inr unmet ↦ rw unmet (select-meets P t l k)
]

select-All :
    (P : Product → Type 0) (t : Product → Bool) (l : List Product) → All P l → All P (select t l)
select-All P t [] a = tt
select-All P t (p ∷ l) (h, a) = elim (Bool-cases (t p)) [
  | inl met ↦ rw met (h, select-All P t l a)
  | inr unmet ↦ rw unmet (select-All P t l a)
]

All-Mem :
    (l stored : List Product)
    → ((p : Product) → Memᴰ p l → Memᴰ p stored)
    → All (λ p. Memᴰ p stored) l
All-Mem [] stored k = tt
All-Mem (p ∷ l) stored k = (k p (Memᴰ.head refl), All-Mem l stored (λ x m. k x (Memᴰ.tail m)))

pub All-take : (P : Product → Type 0) (n : ℕ) (l : List Product) → All P l → All P (take n l)
All-take P zero l a = tt
All-take P (suc n) [] a = tt
All-take P (suc n) (x ∷ l) (h, a) = (h, All-take P n l a)

pub All-drop : (P : Product → Type 0) (n : ℕ) (l : List Product) → All P l → All P (drop n l)
All-drop P zero l a = a
All-drop P (suc n) [] a = tt
All-drop P (suc n) (x ∷ l) (h, a) = All-drop P n l a

module _ (holds : Condition → Product → Bool)
    (order_by : SortBy → SortOrder → List Product → List Product) where
  -- The map of rates that `findAll` builds, one query for each batch of the page, changes nothing: the
  -- page is what it would be if the prices of each product were converted by the rates of the snapshot
  -- of the product's own batch.
  pub find_all-with_own_rates :
      (q : GetProductsDto) (stored : List Product) (rates : List ExchangeRate)
      → (find_all holds order_by q stored rates).data_rows
        ≡ map (with_own_rates rates) (page_of holds order_by q stored)
  unfolding find_all
  find_all-with_own_rates q stored rates =
      let ps = page_of holds order_by q stored in
      let bs = map (λ (p : Product). p.upload_batch_id) ps in
      map-with_rates rates (distinct [] bs) ps (
        All-mono (λ (p : Product). any (λ k. str_eq k p.upload_batch_id) bs ≡ true)
          (λ p. any (λ k. str_eq k p.upload_batch_id) (distinct [] bs) ≡ true) ps
          (λ p h. any-distinct p.upload_batch_id [] bs h refl) (every_batch ps))

  pub meets-append :
      (cs ds : List Condition) (p : Product)
      → meets holds order_by (cs ++ ds) p ≡ true
      → meets holds order_by ds p ≡ true
  unfolding meets
  meets-append [] ds p h = h
  meets-append (c ∷ cs) ds p h = meets-append cs ds p (ground arith)

  own_query-meets :
      (u : String) (q : GetProductsDto) (p : Product)
      → str_eq u "" ≡ false
      → meets holds order_by (conditions (own_query (some u) q)) p ≡ true
      → holds (of_user u) p ≡ true
  unfolding own_query conditions meets
  own_query-meets u q p h =
      rw (h, h)
        λ m.
          let m1 = meets-append (name_condition q.filter_name) _ p m in
          let m2 = meets-append (defined_condition price_from q.price_min) _ p m1 in
          let m3 = meets-append (defined_condition price_to q.price_max) _ p m2 in
          let m4 = meets-append (text_condition expires_from (or_null q.expiration_from)) _ p m3 in
          let m5 = meets-append (text_condition expires_to (or_null q.expiration_to)) _ p m4 in
          let m6 = meets-append (text_condition of_batch (or_null q.batch_id)) _ p m5 in
          ground (arith, m6)

  -- A signed-in user is shown the user's own products only, whatever the query asks for, its `userId`
  -- included: the answer's rows are those of some products that are stored and are the user's. Asked of the database is that a row which meets the condition on the user is the user's,
  -- and that ordering adds no rows.
  pub find_own-own :
      (u : String) (q : GetProductsDto) (stored : List Product) (rates : List ExchangeRate)
      (holds_user : (v : String) (p : Product) → holds (of_user v) p ≡ true → p.user_id ≡ some v)
      (ordered : (c : SortBy) (d : SortOrder) (P : Product → Type 0) (l : List Product)
        → All P l
        → All P (order_by c d l))
      → str_eq u "" ≡ false
      → (ps : List Product) × ((find_own holds order_by (some u) q stored rates).data_rows
          ≡ map (with_own_rates rates) ps)
        × All (λ p. p.user_id ≡ some u) ps
        × All (λ p. Memᴰ p stored) ps
  unfolding find_own page_of found
  find_own-own u q stored rates holds_user ordered h =
      let q' = own_query (some u) q in
      let own = λ (p : Product). p.user_id ≡ some u in
      let there = λ (p : Product). Memᴰ p stored in
      (
        page_of holds order_by q' stored,
        find_all-with_own_rates q' stored rates,
        All-take own _ _ (
            All-drop own _ _ (
              ordered _ _ own _ (
                select-meets own (meets holds order_by (conditions q')) stored
                  (λ p m. holds_user u p (own_query-meets u q p h m))))),
        All-take there _ _ (
            All-drop there _ _ (
              ordered _ _ there _ (
                select-All there (meets holds order_by (conditions q')) stored
                  (All-Mem stored stored (λ p m. m))))),
      )
