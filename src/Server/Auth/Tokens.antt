-- ===== src/Server/Auth/Tokens.antt =====
-- auth/auth.guard.ts and auth/auth.service.ts: from a sign-up to the requests that its token opens.
use mathlib.Core.List.{append-nil, append_assoc, reverse, reverse-cons}
use csv_product_uploader.Prelude.{
  ℕ, ◌==◌, ==_iff, Bool, true, ◌≢◌, ◌∙◌, false, List, [], ◌∷◌, ◌++◌, Option, none, some, String,
  str_eq, eq_refl, ◌≡◌, refl, sym, ap, arith, All, ◌↔◌, Bool-cases, inl, inr,
}
use csv_product_uploader.Js.Text.{Text, codes, text_eq, split, split_from}
use csv_product_uploader.Server.Auth.{
  User, Request, truthy, extract_token, admitted, session, find_user, decide_payload, decide_token,
  can_activate, signup, login, session_of, is_bearer, header_parts, second_part,
}

-- A text that can stand in a header: it is not empty and has no space.
abbrev pub IsToken : Text → Type 0
IsToken t = (truthy (some t) ≡ some t) × All (λ c. (c == b' ') ≡ false) t

-- A text without the separator is one part.
split_from-whole :
    (c : ℕ) (part s : Text)
    → All (λ d. (d == c) ≡ false) s
    → split_from c part s ≡ (reverse part ++ s) ∷ []
unfolding split_from
split_from-whole c part [] a = ap (λ (t : Text). t ∷ []) (sym (append-nil (reverse part)))
split_from-whole c part (d ∷ s) (h, a) =
    rw
      (
        h,
        split_from-whole c (d ∷ part) s a,
        reverse-cons d part,
        append_assoc (reverse part) (d ∷ []) s,
      )
      refl

abbrev pub bearer : Text → Request
bearer t = record { authorization = some (codes "Bearer " ++ t); query_token = none }

abbrev pub by_query : Text → Request
by_query t = record { authorization = none; query_token = some t }

extract_token-bearer : (t : Text) → IsToken t → extract_token (bearer t) ≡ some t
unfolding extract_token split split_from text_eq
extract_token-bearer t k = rw (split_from-whole b' ' [] t k.1) refl

extract_token-by_query : (t : Text) → IsToken t → extract_token (by_query t) ≡ some t
unfolding extract_token
extract_token-by_query t k = k.0

find_user-append :
    (id : String) (u : User) (us : List User)
    → find_user id us ≡ none
    → u.id ≡ id
    → find_user id (us ++ u ∷ []) ≡ some u
unfolding find_user
find_user-append id u [] h e = rw (e, eq_refl id) refl
find_user-append id u (v ∷ us) h e = elim (Bool-cases (str_eq v.id id)) [
  | inl same ↦ ground arith
  | inr apart ↦ rw apart (find_user-append id u us (ground arith) e)
]

-- The words of the header begin with `Bearer`.
abbrev pub StartsBearer : Request → List Text → Type 0
StartsBearer r rest =
    (h : Text) × (r.authorization ≡ some h) × (split b' ' h ≡ codes "Bearer" ∷ rest)

-- A request carries a token as the word after `Bearer` in its header, or, if its header does not begin
-- with that word, in its address.
pub data Carries (r : Request) (t : Text) : Type 0 where
  in_header : (rest : List Text) → StartsBearer r (t ∷ rest) → Carries r t
  in_address : ((rest : List Text) → ¬ StartsBearer r rest) → r.query_token ≡ some t → Carries r t

text_eq-eq : (s t : Text) → text_eq s t ≡ true → s ≡ t
unfolding text_eq
text_eq-eq [] [] h = refl
text_eq-eq [] (d ∷ t) h = absurd (ground arith)
text_eq-eq (c ∷ s) [] h = absurd (ground arith)
text_eq-eq (c ∷ s) (d ∷ t) h = elim (Bool-cases (c == d)) [
  | inl same ↦
      let head : c ≡ d = (==_iff c d).0 same in
      let tail : s ≡ t = text_eq-eq s t (ground arith) in rw (head, tail) refl
  | inr apart ↦ absurd (ground arith)
]

bearer_words :
    (ws : List Text) → is_bearer ws ≡ true → (rest : List Text) × (ws ≡ codes "Bearer" ∷ rest)
bearer_words [] h = absurd (ground arith)
bearer_words (w ∷ ws) h = (ws, ap (λ (x : Text). x ∷ ws) (text_eq-eq w (codes "Bearer") h))

bearer_header :
    (r : Request) (o : Option Text)
    → r.authorization ≡ o
    → is_bearer (header_parts o) ≡ true
    → (rest : List Text) × StartsBearer r rest
bearer_header r none e h = absurd (ground arith)
bearer_header r (some a) e h = let (rest, s) = bearer_words (split b' ' a) h in (rest, (a, e, s))

StartsBearer-is_bearer :
    (r : Request) (rest : List Text)
    → StartsBearer r rest
    → header_parts r.authorization ≡ codes "Bearer" ∷ rest
StartsBearer-is_bearer r rest (h, e, s) = rw (e, s) refl

bearer_is_bearer : (rest : List Text) → is_bearer (codes "Bearer" ∷ rest) ≡ true
unfolding text_eq
bearer_is_bearer rest = refl

truthy-some : (o : Option Text) (t : Text) → truthy o ≡ some t → (o ≡ some t) × (t ≢ [])
truthy-some none t h = absurd (ground arith)
truthy-some (some []) t h = absurd (ground arith)
truthy-some (some (c ∷ s)) t h = (h, ground arith)

truthy_full : (t : Text) → t ≢ [] → truthy (some t) ≡ some t
truthy_full [] n = absurd (n refl)
truthy_full (c ∷ s) n = refl

second-StartsBearer :
    (r : Request) (rest : List Text) (t : Text)
    → StartsBearer r rest
    → second_part (codes "Bearer" ∷ rest) ≡ some t
    → Carries r t
second-StartsBearer r [] t s h = absurd (ground arith)
second-StartsBearer r (x ∷ rest) t (a, e, s) h =
    let same : x ≡ t = ground arith in
    in_header rest (a, e, s ∙ ap (λ (y : Text). codes "Bearer" ∷ y ∷ rest) same)

extract_token-Carries :
    (r : Request) (t : Text) → truthy (extract_token r) ≡ some t → Carries r t × (t ≢ [])
unfolding extract_token
extract_token-Carries r t = elim (Bool-cases (is_bearer (header_parts r.authorization))) [
  | inl yes_ ↦ rw yes_ λ h.
      let (rest, s) = bearer_header r r.authorization refl yes_ in
      let (e, n) = truthy-some (second_part (header_parts r.authorization)) t h in
      (
        second-StartsBearer r rest t s (ap second_part (sym (StartsBearer-is_bearer r rest s)) ∙ e),
        n,
      )
  | inr no_ ↦ rw no_ λ h.
      let (e, n) = truthy-some (truthy r.query_token) t h in
      (
        in_address
            (λ rest s. true-ne-false (
              sym (bearer_is_bearer rest)
              ∙ (ap is_bearer (sym (StartsBearer-is_bearer r rest s)) ∙ no_)))
            (truthy-some r.query_token t e).0,
        n,
      )
]
  where
    true-ne-false : ◌≡◌ {A = Bool} true false → ⊥
    true-ne-false e = ground arith

Carries-extract_token :
    {r : Request} {t : Text} → Carries r t → t ≢ [] → truthy (extract_token r) ≡ some t
unfolding extract_token text_eq
Carries-extract_token {r} {t} (in_header rest s) n =
    rw (StartsBearer-is_bearer r (t ∷ rest) s) (truthy_full t n)
Carries-extract_token {r} {t} (in_address none_starts q) n =
    elim (Bool-cases (is_bearer (header_parts r.authorization))) [
      | inl yes_ ↦
          let (rest, s) = bearer_header r r.authorization refl yes_ in absurd (none_starts rest s)
      | inr no_ ↦ rw (no_, q, truthy_full t n) (truthy_full t n)
    ]

module _ (sign : String → Text) (verify : Text → Option String) where
  can_activate-token :
      (r : Request) (id : String)
      → IsToken (sign id)
      → extract_token r ≡ some (sign id)
      → verify (sign id) ≡ some id
      → can_activate sign verify false r ≡ admitted (some id)
  unfolding can_activate
  can_activate-token r id k e v = rw (e, k.0, v) refl

  -- A user who signs up gets a token and an id; the id logs in later and gets the same session; and
  -- the token opens the routes that are not public, in the header or in the address, as that user.
  -- Asked is that the id is new, that the token that is signed for it is verified as that user's,
  -- and that this token is not empty and has no space.
  pub signup-opens :
      (id : String) (now : ℕ) (users : List User)
      → verify (sign id) ≡ some id
      → IsToken (sign id)
      → find_user id users ≡ none
      → ((signup sign verify id now users).0 ≡ session (sign id) id)
        × (login sign verify id (signup sign verify id now users).1 ≡ session (sign id) id)
        × (can_activate sign verify false (bearer (sign id)) ≡ admitted (some id))
        × (can_activate sign verify false (by_query (sign id)) ≡ admitted (some id))
  unfolding signup login
  signup-opens id now users verified written h = (
    refl,
    ap (session_of sign verify)
        (find_user-append id (record { id = id; created_at = now; updated_at = now }) users h refl),
    can_activate-token (bearer (sign id)) id written (extract_token-bearer (sign id) written)
        verified,
    can_activate-token (by_query (sign id)) id written (extract_token-by_query (sign id) written)
        verified,
  )

  decide_payload_sound :
      (p : Option String) (user : Option String)
      → decide_payload sign verify p ≡ admitted user
      → (u : String) × (p ≡ some u) × (user ≡ some u)
  decide_payload_sound none user h = absurd (ground arith)
  decide_payload_sound (some v) user h = (v, refl, cc)

  decide_token_sound :
      (o : Option Text) (user : Option String)
      → decide_token sign verify o ≡ admitted user
      → (t : Text) × (u : String) × (o ≡ some t) × (verify t ≡ some u) × (user ≡ some u)
  decide_token_sound none user h = absurd (ground arith)
  decide_token_sound (some t) user h =
      let (u, e, k) = decide_payload_sound (verify t) user h in (t, u, refl, e, k)

  -- A route that is not public is opened only by a token that the request carries, in its header or
  -- in its address, which is not empty and is verified as that of the user that the guard sets; and by
  -- every such token.
  pub can_activate_iff :
      (r : Request) (user : Option String)
      → (can_activate sign verify false r ≡ admitted user) ↔ (
          (t : Text) × (u : String) × Carries r t
          × (t ≢ [])
          × (verify t ≡ some u)
          × (user ≡ some u))
  unfolding can_activate
  can_activate_iff r user = (
    λ h.
        let (t, u, e, v, k) = decide_token_sound (truthy (extract_token r)) user h in
        let (c, n) = extract_token-Carries r t e in (t, u, c, n, v, k),
    λ (t, u, c, n, v, k). rw (Carries-extract_token c n, v, k) refl,
  )
