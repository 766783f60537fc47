-- ===== src/Client/Identity/Requests.antt =====
-- src/websocket-client.ts: all token requests of a page are made under one client id.
use vip_real_time_collaborat.Base.{
  ℕ, suc, ◌+◌, ◌%◌, ◌≤◌, ◌<◌, ◌==◌, ==_iff, Bool-cases, if◌then◌else◌, ◌≡◌, refl, ◌∙◌, ◌⊎◌, inl,
  inr, Option, none, some, List, [], ◌∷◌, All, arith, Option-cases,
}
use vip_real_time_collaborat.Base.Text.{Text, ◌===◌, ===_refl}
use vip_real_time_collaborat.Base.Maps.{lookup, lookup-set}
use vip_real_time_collaborat.Client.Identity.{
  fill, hex_digit, generate_uuid, memoized, no_arguments, get_wp_client_id, AuthRequest, Page,
  new_page, fetch_auth_token, Fetch, page_after,
}

abbrev pub IsFrom : Text → AuthRequest → Type 0
IsFrom client request = request.wp_client_id ≡ client

-- No id has been made and nothing sent, or the id is kept and everything is sent under it.
abbrev HasClient : Page → Type 0
HasClient page =
    ((lookup no_arguments page.cache ≡ none) × (page.requests ≡ []))
    ⊎ ((client : Text) × ((lookup no_arguments page.cache ≡ some client)
          × All (IsFrom client) page.requests))

kept :
    (client : Text) (o : Option Text)
    → (if no_arguments === no_arguments then some client else o) ≡ some client
kept client o = rw (===_refl no_arguments) refl

keep_client :
    (f : Fetch) (page : Page)
    → HasClient page
    → HasClient (fetch_auth_token f.object_type f.object_id f.source f.reply page).1
unfolding fetch_auth_token get_wp_client_id memoized
keep_client f page (inr (client, (e, a))) = rw e (inr (client, (e, (refl, a))))
keep_client f page (inl (e, r)) = elim (Option-cases (generate_uuid f.source)) [
  | inl n ↦ rw (e, n) (inl (e, r))
  | inr (client, n) ↦
      rw (e, n)
        (inr (
          client,
          (lookup-set no_arguments no_arguments client page.cache ∙ kept client _, (refl, rw r tt)),
        ))
]

page_after-HasClient : (fetches : List Fetch) → HasClient (page_after fetches)
unfolding page_after new_page lookup
page_after-HasClient [] = inl (refl, refl)
page_after-HasClient (f ∷ fetches) =
    keep_client f (page_after fetches) (page_after-HasClient fetches)

-- Whatever the random source gives and the API replies: all token requests that a page sends carry one and
-- the same client id.
pub page_after-IsFrom :
    (fetches : List Fetch)
    → ((page_after fetches).requests ≡ [])
      ⊎ ((client : Text) × All (IsFrom client) (page_after fetches).requests)
page_after-IsFrom fetches = elim (page_after-HasClient fetches) [
  | inl (e, r) ↦ inl r
  | inr (client, (e, a)) ↦ inr (client, a)
]

-- A UUID of version 4, unit by unit along the template.
abbrev IsHexDigit : ℕ → Type 0
IsHexDigit c = ((48 ≤ c) × (c ≤ 57)) ⊎ ((97 ≤ c) × (c ≤ 102))

abbrev IsVariant : ℕ → Type 0
IsVariant c = ((c ≡ 56) ⊎ (c ≡ 57)) ⊎ ((c ≡ 97) ⊎ (c ≡ 98))

abbrev Fits : ℕ → ℕ → Type 0
Fits char c = ((char ≡ 120) × IsHexDigit c) ⊎ (((char ≡ 121) × IsVariant c) ⊎ (char ≡ c))

abbrev pub Matches : Text → Text → Type 0
Matches [] [] = Unit {0}
Matches [] (c ∷ s) = ⊥
Matches (char ∷ t) [] = ⊥
Matches (char ∷ t) (c ∷ s) = Fits char c × Matches t s

hex_digit-IsHexDigit : (n : ℕ) → n < 16 → IsHexDigit (hex_digit n)
hex_digit-IsHexDigit n h = ground (arith, h)

hex_digit-IsVariant : (n : ℕ) → IsVariant (hex_digit (n % 4 + 8))
hex_digit-IsVariant n = ground arith

-- The fallback gives a UUID of version 4 from random values below 16.
pub fill-Matches :
    (random : ℕ → ℕ) (n : ℕ) (t : Text) → ((k : ℕ) → random k < 16) → Matches t (fill random n t)
unfolding fill
fill-Matches random n [] h = tt
fill-Matches random n (char ∷ t) h = elim (Bool-cases (char == 120)) [
  | inl e ↦ rw e (
    inl ((==_iff char 120).0 e, hex_digit-IsHexDigit (random n) (h n)),
    fill-Matches random (suc n) t h,
  )
  | inr e ↦ elim (Bool-cases (char == 121)) [
    | inl k ↦
        rw (e, k)
          (
            inr (inl ((==_iff char 121).0 k, hex_digit-IsVariant (random n))),
            fill-Matches random (suc n) t h,
          )
    | inr k ↦ rw (e, k) (inr (inr refl), fill-Matches random n t h)
  ]
]
