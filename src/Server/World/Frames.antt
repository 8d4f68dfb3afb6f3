-- ===== src/Server/World/Frames.antt =====
-- What a part of the server's state keeps while calls change other parts, whichever calls throw.
use csv_product_uploader.Prelude.{ℕ, List, Option, ◌≡◌, refl, ◌∙◌, Option-cases, inl, inr}
use csv_product_uploader.Js.Number.{Number}
use csv_product_uploader.Js.Text.{Text}
use csv_product_uploader.Server.Entities.{ExchangeRate}
use csv_product_uploader.Server.World.{
  World, Result, ok, err, crashed, Thrown, after, unhandled, rescue, call, settle, fault_of,
  ApiReply,
}

-- A part of the state that neither the replies nor the exchange rates touch.
pub record IsApart {X : Type 0} (part : World → X) : Type 0 where
  pub settled : (w : World) → part (settle w) ≡ part w
  pub apart :
      (w : World) (a : List ApiReply) (c : Option (List (Text × Number))) (t : ℕ)
      (r : List ExchangeRate)
      → part (record w { api = a; cached_rates = c; cache_timestamp = t; rates = r }) ≡ part w

pub files-IsApart : IsApart (λ w. w.files)
files-IsApart = record { settled = λ w. refl; apart = λ w a c t r. refl }

pub products-IsApart : IsApart (λ w. w.products)
products-IsApart = record { settled = λ w. refl; apart = λ w a c t r. refl }

module _ {X : Type 0} (part : World → X) (p : IsApart part) where
  pub call-part :
      (f : World → World) (w : World)
      → ((v : World) → part (f v) ≡ part v)
      → part (call f w).1 ≡ part w
  unfolding call
  call-part f w h = elim (Option-cases (fault_of w.script)) [
    | inl e ↦ rw e (h (settle w) ∙ p.settled w)
    | inr (t, e) ↦ rw e (p.settled w)
  ]

  pub after-part :
      {A B : Type 0} (w : World) (r : Result A × World) (k : A → World → Result B × World)
      → part r.1 ≡ part w
      → ((a : A) (v : World) → part (k a v).1 ≡ part v)
      → part (after r k).1 ≡ part w
  after-part w (ok a, v) k h g = g a v ∙ h
  after-part w (err e, v) k h g = h
  after-part w (crashed, v) k h g = h

  pub unhandled-part :
      {A : Type 0} (w : World) (r : Result A × World)
      → part r.1 ≡ part w
      → part (unhandled r).1 ≡ part w
  unhandled-part w (ok a, v) h = h
  unhandled-part w (err e, v) h = h
  unhandled-part w (crashed, v) h = h

  pub rescue-part :
      {A : Type 0} (w : World) (r : Result A × World) (k : Thrown → World → Result A × World)
      → part r.1 ≡ part w
      → ((e : Thrown) (v : World) → part (k e v).1 ≡ part v)
      → part (rescue r k).1 ≡ part w
  rescue-part w (ok a, v) k h g = h
  rescue-part w (err e, v) k h g = g e v ∙ h
  rescue-part w (crashed, v) k h g = h
