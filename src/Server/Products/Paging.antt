-- ===== src/Server/Products/Paging.antt =====
-- products/products.service.ts, `findAll`: the pages.

use native.Mathlib.Nat.{div-add-mod', mod-lt}
use mathlib.Core.List.Memᴰ
use mathlib.Core.List.{Memᴰ}
use csv_product_uploader.Prelude.{
  All, refl, subst, select, ◌↔◌, ◌∷◌, ℕ, zero, suc, ◌+◌, ◌-◌, ◌*◌, ◌%◌, ◌≤◌, ◌<◌, ◌==◌, ==_iff,
  Bool, List, [], ◌++◌, length, take, drop, drop_all, take-drop, some, ◌≡◌, sym, ap, ◌∙◌, arith,
  Bool-cases, inl, inr,
}
use csv_product_uploader.Server.Entities.{ExchangeRate}
use csv_product_uploader.Server.Products.{
  Product, GetProductsDto, SortBy, SortOrder, Condition, by_name, ascending, meets, ceil_div,
  conditions, found, page_of, find_all, or_default,
}

-- The query for the n-th page.
abbrev pub at_page : ℕ → GetProductsDto → GetProductsDto
at_page n q = record q { page = some n }

ceil_div_enough : (t l : ℕ) → 0 < l → t ≤ ceil_div t l * l
unfolding ceil_div
ceil_div_enough t l h = elim (Bool-cases (t % l == 0)) [
  | inl whole ↦
      let e : t % l ≡ 0 = ground (arith, ==_iff (t % l) 0) in
      rw whole (omega (arith, div-add-mod' t l))
  | inr rest ↦ rw rest (omega (arith, div-add-mod' t l, mod-lt t h))
]

-- Each row comes before all that follow it.
abbrev pub IsAscending : (Product → Product → Type 0) → List Product → Type 0
IsAscending Before [] = Unit
IsAscending Before (p ∷ ps) = All (Before p) ps × IsAscending Before ps

All-Mem : (P : Product → Type 0) (p : Product) (l : List Product) → Memᴰ p l → All P l → P p
All-Mem P p [] m a = absurd (Memᴰ.not-nil m)
All-Mem P p (x ∷ l) m (h, a) = elim (Memᴰ.cases_cons m) [
  | inl e ↦ subst P (sym e) h
  | inr n ↦ All-Mem P p l n a
]

-- There is one way to sort rows without equal values.
ascending_unique :
    (Before : Product → Product → Type 0) (asym : (p r : Product) → Before p r → Before r p → ⊥)
    (ps rs : List Product)
    → IsAscending Before ps
    → IsAscending Before rs
    → ((p : Product) → Memᴰ p ps → Memᴰ p rs)
    → ((p : Product) → Memᴰ p rs → Memᴰ p ps)
    → ps ≡ rs
ascending_unique Before asym [] [] a b f g = refl
ascending_unique Before asym [] (r ∷ rs) a b f g = absurd (Memᴰ.not-nil (g r (Memᴰ.head refl)))
ascending_unique Before asym (p ∷ ps) [] a b f g = absurd (Memᴰ.not-nil (f p (Memᴰ.head refl)))
ascending_unique Before asym (p ∷ ps) (r ∷ rs) a b f g =
    let same : p ≡ r = elim (Memᴰ.cases_cons (f p (Memᴰ.head refl))) [
      | inl e ↦ e
      | inr m ↦ elim (Memᴰ.cases_cons (g r (Memᴰ.head refl))) [
        | inl e ↦ sym e
        | inr n ↦ absurd (asym r p (All-Mem (Before r) p rs m b.0) (All-Mem (Before p) r ps n a.0))
      ]
    ] in
    let never : (x : Product) → x ≡ p → Before p x → ⊥ =
      λ x e h. let loop = subst (Before p) e h in asym p p loop loop in
    let rest =
      ascending_unique Before asym ps rs a.1 b.1
        (λ x m. elim (Memᴰ.cases_cons (f x (Memᴰ.tail m))) [
          | inl e ↦ absurd (never x (e ∙ sym same) (All-Mem (Before p) x ps m a.0))
          | inr n ↦ n
        ])
        (λ x m. elim (Memᴰ.cases_cons (g x (Memᴰ.tail m))) [
          | inl e ↦
              absurd
                (never x e (subst (λ y. Before y x) (sym same) (All-Mem (Before r) x rs m b.0)))
          | inr n ↦ n
        ]) in
    ap (λ (x : Product). x ∷ ps) same ∙ ap (λ (l : List Product). r ∷ l) rest

-- The order in which the database returns rows is chosen in each query anew: `orders n` is the order
-- of the query for the n-th page, and `orders 0` that of the query whose answer is counted.
module _ (holds : Condition → Product → Bool)
    (orders : ℕ → SortBy → SortOrder → List Product → List Product) where
  -- The products of the pages from the n-th on, `count` of them, one after the other.
  unfoldable pub pages_from : ℕ → ℕ → GetProductsDto → List Product → List Product
  pages_from n zero q stored = []
  pages_from n (suc count) q stored =
      page_of holds (orders n) (at_page n q) stored ++ pages_from (suc n) count q stored

  page_of-drop :
      (n : ℕ) (q : GetProductsDto) (stored : List Product)
      → found holds (orders (suc n)) q stored ≡ found holds (orders 0) q stored
      → page_of holds (orders (suc n)) (at_page (suc n) q) stored
        ≡ take
            (or_default 50 q.limit)
            (drop (n * or_default 50 q.limit) (found holds (orders 0) q stored))
  unfolding page_of found conditions
  page_of-drop n q stored e =
      let l = or_default 50 q.limit in
      let same : suc n - 1 ≡ n = omega arith in
      ap (λ (k : ℕ). take l (drop (k * l) (found holds (orders (suc n)) q stored))) same
      ∙ ap (λ (fs : List Product). take l (drop (n * l) fs)) e

  pages_from-drop :
      (n count : ℕ) (q : GetProductsDto) (stored : List Product)
      → ((k : ℕ) → found holds (orders k) q stored ≡ found holds (orders 0) q stored)
      → length (found holds (orders 0) q stored) ≤ (n + count) * or_default 50 q.limit
      → pages_from (suc n) count q stored
        ≡ drop (n * or_default 50 q.limit) (found holds (orders 0) q stored)
  unfolding pages_from
  pages_from-drop n zero q stored a h =
      sym
        (drop_all (n * or_default 50 q.limit) (found holds (orders 0) q stored) (omega (arith, h)))
  pages_from-drop n (suc count) q stored a h =
      let l = or_default 50 q.limit in
      let fs = found holds (orders 0) q stored in
      let e : n * l + l ≡ suc n * l = omega arith in
      let rest = pages_from-drop (suc n) count q stored a (omega (arith, h)) in
      ap (λ (ps : List Product). ps ++ pages_from (suc (suc n)) count q stored)
        (page_of-drop n q stored (a (suc n)))
      ∙ (ap (λ (ps : List Product). take l (drop (n * l) fs) ++ ps) rest
          ∙ (ap (λ (k : ℕ). take l (drop (n * l) fs) ++ drop k fs) (sym e)
              ∙ take-drop (n * l) l fs))

  module _ (Before : SortBy → SortOrder → Product → Product → Type 0)
      (asym : (c : SortBy) (d : SortOrder) (p r : Product)
        → Before c d p r
        → Before c d r p
        → ⊥) where
    -- Going through all the pages that `totalPages` counts, one after the other, shows exactly what
    -- the query finds, in its order: nothing is left out and nothing comes twice. Asked is a limit of
    -- at least 1; of the database, that every query returns the rows that meet its conditions, sorted;
    -- and of these rows, that no two of them have the same value in the column that is sorted by:
    -- each comes before the other, or the other before it. Rows with the same value may come in another
    -- order in each query, which then may show one of them twice.
    pub find_all_pages :
        (q : GetProductsDto) (stored : List Product) (rates : List ExchangeRate)
        → 0 < or_default 50 q.limit
        → ((k : ℕ) (p : Product)
            → Memᴰ p (found holds (orders k) q stored)
              ↔ Memᴰ p (select (meets holds (orders 0) (conditions q)) stored))
        → ((k : ℕ)
            → IsAscending
                (Before (or_default by_name q.sort_by) (or_default ascending q.sort_order))
                (found holds (orders k) q stored))
        → pages_from 1 (find_all holds (orders 0) q stored rates).pagination.total_pages q stored
          ≡ found holds (orders 0) q stored
    unfolding find_all
    find_all_pages q stored rates h rows sorted =
        let fs = found holds (orders 0) q stored in
        let none_skipped : 0 * or_default 50 q.limit ≡ 0 = omega arith in
        let same : (k : ℕ) → found holds (orders k) q stored ≡ fs = λ k.
          ascending_unique _ (asym _ _) (found holds (orders k) q stored) fs (sorted k) (sorted 0)
            (λ p m. (rows 0 p).1 ((rows k p).0 m)) (λ p m. (rows k p).1 ((rows 0 p).0 m)) in
        pages_from-drop 0 (ceil_div (length fs) (or_default 50 q.limit)) q stored same
          (omega (arith, ceil_div_enough (length fs) (or_default 50 q.limit) h))
        ∙ ap (λ (k : ℕ). drop k fs) none_skipped
