-- ===== src/Server/Metrics/Disconnects.antt =====
-- websocket-server/metrics.ts: what the clean-up leaves of the recent disconnects.
use mathlib.Core.Path.{subst}
use vip_real_time_collaborat.Base.{
  ℕ, ◌+◌, ◌*◌, ◌≤◌, ◌<◌, ◌≡◌, refl, ◌⊎◌, inl, inr, true, false, Option, none, some, List, [], ◌∷◌,
  arith, ltb, if◌then◌else◌, Bool-cases,
}
use vip_real_time_collaborat.Base.Text.{Text, ◌===◌, ===_iff}
use vip_real_time_collaborat.Base.Maps.{lookup, has, set, remove, Distinct, has-lookup, lookup-set}
use vip_real_time_collaborat.Server.Metrics.{drop_old}

pub lookup-remove :
    (j k : Text) (m : List (Text × ℕ))
    → Distinct m
    → lookup j (remove k m) ≡ (if k === j then none else lookup j m)
unfolding lookup remove
lookup-remove j k [] d = ground arith
lookup-remove j k ((i, t) ∷ m) d =
    ground (arith, lookup-remove j k m, has-lookup j m, ===_iff i k, ===_iff i j, ===_iff k j)

module _ (window : ℕ) where
  has-drop_old :
      (now : ℕ) (k : Text) (m : List (Text × ℕ))
      → has k m ≡ false
      → has k (drop_old window now m) ≡ false
  unfolding has drop_old
  has-drop_old now k [] h = refl
  has-drop_old now k ((j, t) ∷ m) h = ground (arith, h, has-drop_old now k m)

  pub Distinct-drop_old :
      (now : ℕ) (m : List (Text × ℕ)) → Distinct m → Distinct (drop_old window now m)
  unfolding drop_old
  Distinct-drop_old now [] d = tt
  Distinct-drop_old now ((j, t) ∷ m) d = elim (Bool-cases (ltb (t + (window + 10) * 1000) now)) [
    | inl e ↦ rw e (Distinct-drop_old now m d.1)
    | inr e ↦ rw e (has-drop_old now j m d.0, Distinct-drop_old now m d.1)
  ]

  -- The disconnect is older than the window.
  abbrev pub Stale : ℕ → Option ℕ → Type 0
  Stale now none = ⊥
  Stale now (some t) = t + window * 1000 < now

  dropped_first :
      (now : ℕ) (j k : Text) (m : List (Text × ℕ))
      → (j === k) ≡ true
      → has j m ≡ false
      → lookup k (drop_old window now m) ≡ none
  dropped_first now j k m f h =
      has-lookup k (drop_old window now m)
        (has-drop_old now k m (subst (λ x. has x m ≡ false) ((===_iff j k).0 f) h))

  lookup-drop_old :
      (now : ℕ) (k : Text) (m : List (Text × ℕ))
      → Distinct m
      → (lookup k (drop_old window now m) ≡ lookup k m)
        ⊎ ((lookup k (drop_old window now m) ≡ none) × Stale now (lookup k m))
  unfolding lookup drop_old
  lookup-drop_old now k [] d = inl refl
  lookup-drop_old now k ((j, t) ∷ m) d = elim (Bool-cases (ltb (t + (window + 10) * 1000) now)) [
    | inl e ↦ elim (Bool-cases (j === k)) [
      | inl f ↦ rw (e, f) (inr (dropped_first now j k m f d.0, ground (arith, e)))
      | inr f ↦ rw (e, f) (lookup-drop_old now k m d.1)
    ]
    | inr e ↦ elim (Bool-cases (j === k)) [
      | inl f ↦ rw (e, f) (inl refl)
      | inr f ↦ rw (e, f) (lookup-drop_old now k m d.1)
    ]
  ]

  -- Two states that no later check tells apart: the first may lack disconnects that are stale.
  abbrev pub Covers : ℕ → List (Text × ℕ) → List (Text × ℕ) → Type 0
  Covers now m n =
      (k : Text) → (lookup k m ≡ lookup k n) ⊎ ((lookup k m ≡ none) × Stale now (lookup k n))

  Stale-later : (now later : ℕ) (o : Option ℕ) → now ≤ later → Stale now o → Stale later o
  Stale-later now later none h k = k
  Stale-later now later (some t) h k = omega (arith, h, k)

  pub Covers-later :
      (now later : ℕ) (m n : List (Text × ℕ)) → now ≤ later → Covers now m n → Covers later m n
  Covers-later now later m n h c k = elim (c k) [
    | inl e ↦ inl e
    | inr x ↦ inr (x.0, Stale-later now later (lookup k n) h x.1)
  ]

  pub Covers-set :
      (now : ℕ) (j : Text) (t : ℕ) (m n : List (Text × ℕ))
      → Covers now m n
      → Covers now (set j t m) (set j t n)
  Covers-set now j t m n c k = elim (Bool-cases (j === k)) [
    | inl e ↦ rw (lookup-set k j t m, lookup-set k j t n, e) (inl refl)
    | inr e ↦ rw (lookup-set k j t m, lookup-set k j t n, e) (c k)
  ]

  pub Covers-remove :
      (now : ℕ) (j : Text) (m n : List (Text × ℕ))
      → Distinct m
      → Distinct n
      → Covers now m n
      → Covers now (remove j m) (remove j n)
  Covers-remove now j m n d d' c k = elim (Bool-cases (j === k)) [
    | inl e ↦ rw (lookup-remove k j m d, lookup-remove k j n d', e) (inl refl)
    | inr e ↦ rw (lookup-remove k j m d, lookup-remove k j n d', e) (c k)
  ]

  pub Covers-drop_old :
      (now : ℕ) (m n : List (Text × ℕ))
      → Distinct m
      → Covers now m n
      → Covers now (drop_old window now m) n
  Covers-drop_old now m n d c k = elim (lookup-drop_old now k m d) [
    | inl e ↦ rw e (c k)
    | inr x ↦ elim (c k) [ inl e ↦ inr (x.0, subst (Stale now) e x.1) | inr y ↦ inr (x.0, y.1) ]
  ]
