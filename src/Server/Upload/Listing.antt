-- ===== src/Server/Upload/Listing.antt =====
-- upload/upload.service.ts and upload/upload.controller.ts: the list of a user's batches.
use mathlib.Core.List.{Perm}
use mathlib.Core.List.Perm
use csv_product_uploader.Prelude.{
  ℕ, ◌≤◌, leb, leb→le, List, [], ◌∷◌, All, select, some, String, ◌≡◌, refl, arith, Bool-cases, inl,
  inr,
}
use csv_product_uploader.Server.Entities.{UploadBatch, or_null}
use csv_product_uploader.Server.World.{World, ok, settle, call-quiet, IsQuiet}
use csv_product_uploader.Server.Upload.Service.{
  belongs_to, insert_newest, newest_first, get_batches_by_user_id,
}
use csv_product_uploader.Server.Upload.Controller.{answer, get_batches}

-- Each batch is no older than all that follow it.
unfoldable pub IsNewestFirst : List UploadBatch → Type 0
IsNewestFirst [] = Unit
IsNewestFirst (b ∷ bs) = All (λ c. c.created_at ≤ b.created_at) bs × IsNewestFirst bs

insert_newest-perm : (b : UploadBatch) (bs : List UploadBatch) → Perm (insert_newest b bs) (b ∷ bs)
unfolding insert_newest
insert_newest-perm b [] = Perm.refl (b ∷ [])
insert_newest-perm b (c ∷ bs) = elim (Bool-cases (leb c.created_at b.created_at)) [
  | inl later ↦ rw later (Perm.refl (b ∷ c ∷ bs))
  | inr earlier ↦ rw earlier (Perm.trans (Perm.cons c (insert_newest-perm b bs)) (Perm.swap b c bs))
]

newest_first-perm : (bs : List UploadBatch) → Perm (newest_first bs) bs
unfolding newest_first
newest_first-perm [] = Perm.refl []
newest_first-perm (b ∷ bs) =
    Perm.trans (insert_newest-perm b (newest_first bs)) (Perm.cons b (newest_first-perm bs))

insert_newest-All :
    (P : UploadBatch → Type 0) (b : UploadBatch) (bs : List UploadBatch)
    → P b
    → All P bs
    → All P (insert_newest b bs)
unfolding insert_newest
insert_newest-All P b [] p a = (p, tt)
insert_newest-All P b (c ∷ bs) p (h, a) = elim (Bool-cases (leb c.created_at b.created_at)) [
  | inl later ↦ rw later (p, (h, a))
  | inr earlier ↦ rw earlier (h, insert_newest-All P b bs p a)
]

older-All :
    (m n : ℕ) (bs : List UploadBatch)
    → m ≤ n
    → All (λ c. c.created_at ≤ m) bs
    → All (λ c. c.created_at ≤ n) bs
older-All m n [] h a = tt
older-All m n (c ∷ bs) h (k, a) = (omega (arith, h, k), older-All m n bs h a)

insert_newest-IsNewestFirst :
    (b : UploadBatch) (bs : List UploadBatch)
    → IsNewestFirst bs
    → IsNewestFirst (insert_newest b bs)
unfolding insert_newest IsNewestFirst
insert_newest-IsNewestFirst b [] s = (tt, tt)
insert_newest-IsNewestFirst b (c ∷ bs) (h, s) = elim (Bool-cases (leb c.created_at b.created_at)) [
  | inl later ↦
      let l = leb→le c.created_at b.created_at later in
      rw later ((l, older-All c.created_at b.created_at bs l h), (h, s))
  | inr earlier ↦ rw earlier (
    insert_newest-All (λ (d : UploadBatch). d.created_at ≤ c.created_at) b bs (ground arith) h,
    insert_newest-IsNewestFirst b bs s,
  )
]

newest_first-IsNewestFirst : (bs : List UploadBatch) → IsNewestFirst (newest_first bs)
unfolding newest_first IsNewestFirst
newest_first-IsNewestFirst [] = tt
newest_first-IsNewestFirst (b ∷ bs) =
    insert_newest-IsNewestFirst b (newest_first bs) (newest_first-IsNewestFirst bs)

-- When the database does not throw, `getBatches` answers a signed-in user with exactly the user's
-- batches, newest first, and changes no table.
pub get_batches-own :
    (user : String) (w : World)
    → IsQuiet w.script
    → or_null (some user) ≡ some user
    → (bs : List UploadBatch) × (get_batches (some user) w ≡ (ok (answer bs), settle w))
      × Perm bs (select (λ b. belongs_to user b.user_id) w.batches)
      × IsNewestFirst bs
unfolding get_batches get_batches_by_user_id
get_batches-own user w q h =
    let bs = select (λ (b : UploadBatch). belongs_to user b.user_id) w.batches in
    (
      newest_first bs,
      rw (h, call-quiet (λ v. v) w q) refl,
      newest_first-perm bs,
      newest_first-IsNewestFirst bs,
    )
