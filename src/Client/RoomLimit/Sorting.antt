-- ===== src/Client/RoomLimit/Sorting.antt =====
-- src/utilities/room-client-limit.ts: sorting by join order keeps the connections, and orders them.
use vip_real_time_collaborat.Base.{
  ℕ, ◌+◌, ◌≡◌, ◌≢◌, refl, ◌⊎◌, inl, inr, Bool, true, false, List, [], ◌∷◌, arith, All,
  if◌then◌else◌, Bool-cases,
}
use vip_real_time_collaborat.Client.RoomLimit.{
  RoomLimitPresence, in_join_order, insert_sorted, sort,
}

abbrev pub DistinctIds : List RoomLimitPresence → Type 0
DistinctIds [] = Unit {0}
DistinctIds (p ∷ ps) =
    All (λ (q : RoomLimitPresence). q.client_id ≢ p.client_id) ps × DistinctIds ps

abbrev pub Among : RoomLimitPresence → List RoomLimitPresence → Type 0
Among p [] = ⊥
Among p (q ∷ qs) = (p ≡ q) ⊎ Among p qs

abbrev pub Ordered : List RoomLimitPresence → Type 0
Ordered [] = Unit {0}
Ordered (p ∷ ps) = All (λ (q : RoomLimitPresence). in_join_order p q ≡ true) ps × Ordered ps

pub in_join_order_total :
    (p q : RoomLimitPresence) → in_join_order p q ≡ false → in_join_order q p ≡ true
unfolding in_join_order
in_join_order_total p q h = ground arith

pub in_join_order_trans :
    (p q r : RoomLimitPresence)
    → in_join_order p q ≡ true
    → in_join_order q r ≡ true
    → in_join_order p r ≡ true
unfolding in_join_order
in_join_order_trans p q r h k = ground arith

-- The tie-break on the client id leaves no two connections level.
pub in_join_order_strict :
    (p q : RoomLimitPresence)
    → p.client_id ≢ q.client_id
    → in_join_order p q ≡ true
    → in_join_order q p ≡ false
unfolding in_join_order
in_join_order_strict p q n h = ground arith

pub in_join_order_refl : (p : RoomLimitPresence) → in_join_order p p ≡ true
unfolding in_join_order
in_join_order_refl p = ground arith

module _ {ℓ} (P : RoomLimitPresence → Type ℓ) where
  All-insert_sorted :
      (p : RoomLimitPresence) (s : List RoomLimitPresence)
      → P p
      → All P s
      → All P (insert_sorted p s)
  unfolding insert_sorted
  All-insert_sorted p [] h a = (h, a)
  All-insert_sorted p (q ∷ s) h a = elim (Bool-cases (in_join_order p q)) [
    | inl e ↦ rw e (h, a)
    | inr e ↦ rw e (a.0, All-insert_sorted p s h a.1)
  ]

  pub All-sort : (ps : List RoomLimitPresence) → All P ps → All P (sort ps)
  unfolding sort
  All-sort [] a = a
  All-sort (p ∷ ps) a = All-insert_sorted p (sort ps) a.0 (All-sort ps a.1)

  pub All-imp {κ} :
      (Q : RoomLimitPresence → Type κ) (s : List RoomLimitPresence)
      → ((q : RoomLimitPresence) → P q → Q q)
      → All P s
      → All Q s
  All-imp Q [] f a = tt
  All-imp Q (q ∷ s) f a = (f q a.0, All-imp Q s f a.1)

Ordered-insert_sorted :
    (p : RoomLimitPresence) (s : List RoomLimitPresence) → Ordered s → Ordered (insert_sorted p s)
unfolding insert_sorted
Ordered-insert_sorted p [] o = (tt, tt)
Ordered-insert_sorted p (q ∷ s) o = elim (Bool-cases (in_join_order p q)) [
  | inl e ↦ rw e ((e, All-imp _ _ s (λ r h. in_join_order_trans p q r e h) o.0), o)
  | inr e ↦ rw e (
    All-insert_sorted (λ r. in_join_order q r ≡ true) p s (in_join_order_total p q e) o.0,
    Ordered-insert_sorted p s o.1,
  )
]

pub Ordered-sort : (ps : List RoomLimitPresence) → Ordered (sort ps)
unfolding sort
Ordered-sort [] = tt
Ordered-sort (p ∷ ps) = Ordered-insert_sorted p (sort ps) (Ordered-sort ps)

DistinctIds-insert_sorted :
    (p : RoomLimitPresence) (s : List RoomLimitPresence)
    → All (λ (q : RoomLimitPresence). q.client_id ≢ p.client_id) s
    → DistinctIds s
    → DistinctIds (insert_sorted p s)
unfolding insert_sorted
DistinctIds-insert_sorted p [] a d = (tt, tt)
DistinctIds-insert_sorted p (q ∷ s) a d = elim (Bool-cases (in_join_order p q)) [
  | inl e ↦ rw e (a, d)
  | inr e ↦ rw e (
    All-insert_sorted (λ r. r.client_id ≢ q.client_id) p s (λ h. a.0 (ground (arith, h))) d.0,
    DistinctIds-insert_sorted p s a.1 d.1,
  )
]

pub DistinctIds-sort : (ps : List RoomLimitPresence) → DistinctIds ps → DistinctIds (sort ps)
unfolding sort
DistinctIds-sort [] d = tt
DistinctIds-sort (p ∷ ps) d =
    DistinctIds-insert_sorted p (sort ps) (All-sort _ ps d.0) (DistinctIds-sort ps d.1)

Among-swap :
    (p q r : RoomLimitPresence) (s t : List RoomLimitPresence)
    → (Among p (q ∷ s) → Among p t)
    → Among p (q ∷ r ∷ s)
    → Among p (r ∷ t)
Among-swap p q r s t f (inl e) = inr (f (inl e))
Among-swap p q r s t f (inr (inl e)) = inl e
Among-swap p q r s t f (inr (inr m)) = inr (f (inr m))

Among-insert_sorted :
    (p q : RoomLimitPresence) (s : List RoomLimitPresence)
    → Among p (q ∷ s)
    → Among p (insert_sorted q s)
unfolding insert_sorted
Among-insert_sorted p q [] m = m
Among-insert_sorted p q (r ∷ s) m = elim (Bool-cases (in_join_order q r)) [
  | inl e ↦ rw e m
  | inr e ↦ rw e (Among-swap p q r s _ (Among-insert_sorted p q s) m)
]

pub Among-sort :
    (p : RoomLimitPresence) (ps : List RoomLimitPresence) → Among p ps → Among p (sort ps)
unfolding sort
Among-sort p (q ∷ ps) (inl e) = Among-insert_sorted p q (sort ps) (inl e)
Among-sort p (q ∷ ps) (inr m) = Among-insert_sorted p q (sort ps) (inr (Among-sort p ps m))
Among-sort p [] m = m

-- How many connections pass a test.
unfoldable pub tally : (RoomLimitPresence → Bool) → List RoomLimitPresence → ℕ
tally f [] = 0
tally f (p ∷ ps) = (if f p then 1 else 0) + tally f ps

tally-insert_sorted :
    (f : RoomLimitPresence → Bool) (p : RoomLimitPresence) (s : List RoomLimitPresence)
    → tally f (insert_sorted p s) ≡ tally f (p ∷ s)
unfolding insert_sorted tally
tally-insert_sorted f p [] = refl
tally-insert_sorted f p (q ∷ s) = ground (arith, tally-insert_sorted f p s)

pub tally-sort :
    (f : RoomLimitPresence → Bool) (ps : List RoomLimitPresence) → tally f (sort ps) ≡ tally f ps
unfolding sort tally
tally-sort f [] = refl
tally-sort f (p ∷ ps) = omega (arith, tally-insert_sorted f p (sort ps), tally-sort f ps)
