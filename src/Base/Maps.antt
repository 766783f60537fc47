-- ===== src/Base/Maps.antt =====
-- JavaScript's Map and Set over texts, as lists in insertion order.
use Prim.Native.Nat.{suc}
use mathlib.Core.Path.{◌≡◌, refl}
use mathlib.Core.Bool.{Bool, true, false, ◌||◌}
use mathlib.Core.Option.{Option, none, some}
use mathlib.Core.List.{List, [], ◌∷◌, ◌++◌}
use native.Mathlib.Omega.{arith}
use vip_real_time_collaborat.Base.Lists.{length}
use vip_real_time_collaborat.Base.Tests.{if◌then◌else◌}
use vip_real_time_collaborat.Base.Text.{Text, ◌===◌, ===_iff}

-- Set.prototype.has, add and delete.
unfoldable pub contains : Text → List Text → Bool
contains k [] = false
contains k (j ∷ s) = j === k || contains k s

unfoldable pub add : Text → List Text → List Text
unfolding contains
add k s = if contains k s then s else s ++ k ∷ []

unfoldable pub delete : Text → List Text → List Text
delete k [] = []
delete k (j ∷ s) = let rest = delete k s in if j === k then rest else j ∷ rest

pub contains-append :
    (k : Text) (s t : List Text) → contains k (s ++ t) ≡ (contains k s || contains k t)
unfolding contains
contains-append k [] t = refl
contains-append k (j ∷ s) t = ground (arith, contains-append k s t)

pub contains-add : (j k : Text) (s : List Text) → contains j (add k s) ≡ (k === j || contains j s)
unfolding add
contains-add j k s = ground (arith, contains-append j s (k ∷ []), ===_iff k j)

pub contains-delete :
    (j k : Text) (s : List Text)
    → contains j (delete k s) ≡ (if k === j then false else contains j s)
unfolding contains delete
contains-delete j k [] = ground arith
contains-delete j k (i ∷ s) =
    ground (arith, contains-delete j k s, ===_iff k j, ===_iff i j, ===_iff i k)

module _ {ℓ} {V : Type ℓ} where
  -- Map.prototype.get, has, set on an absent key, and delete.
  unfoldable pub lookup : Text → List (Text × V) → Option V
  lookup k [] = none
  lookup k ((j, v) ∷ m) = if j === k then some v else lookup k m

  unfoldable pub has : Text → List (Text × V) → Bool
  has k [] = false
  has k ((j, v) ∷ m) = j === k || has k m

  unfoldable pub set : Text → V → List (Text × V) → List (Text × V)
  set k v [] = (k, v) ∷ []
  set k v ((j, w) ∷ m) = if j === k then (j, v) ∷ m else (j, w) ∷ set k v m

  unfoldable pub remove : Text → List (Text × V) → List (Text × V)
  remove k [] = []
  remove k ((j, v) ∷ m) = if j === k then m else (j, v) ∷ remove k m

  -- The keys of a Map differ.
  abbrev pub Distinct : List (Text × V) → Type 0
  Distinct [] = Unit {0}
  Distinct ((k, v) ∷ m) = (has k m ≡ false) × Distinct m

  pub has-lookup : (k : Text) (m : List (Text × V)) → has k m ≡ false → lookup k m ≡ none
  unfolding has lookup
  has-lookup k [] h = refl
  has-lookup k ((j, v) ∷ m) h = ground (arith, has-lookup k m)

  pub lookup-has : (k : Text) (m : List (Text × V)) (v : V) → lookup k m ≡ some v → has k m ≡ true
  unfolding has lookup
  lookup-has k [] v h = cc
  lookup-has k ((j, w) ∷ m) v h = ground (arith, lookup-has k m v)

  pub has-none : (k : Text) (m : List (Text × V)) → lookup k m ≡ none → has k m ≡ false
  unfolding has lookup
  has-none k [] h = refl
  has-none k ((j, v) ∷ m) h = ground (arith, has-none k m)

  pub set_absent :
      (k : Text) (v : V) (m : List (Text × V)) → has k m ≡ false → set k v m ≡ m ++ (k, v) ∷ []
  unfolding has set
  set_absent k v [] h = refl
  set_absent k v ((j, w) ∷ m) h = ground (arith, set_absent k v m)

  pub has-set :
      (j k : Text) (v : V) (m : List (Text × V)) → has j (set k v m) ≡ (k === j || has j m)
  unfolding has set
  has-set j k v [] = ground arith
  has-set j k v ((i, w) ∷ m) =
      ground (arith, has-set j k v m, ===_iff i k, ===_iff i j, ===_iff k j)

  pub lookup-set :
      (j k : Text) (v : V) (m : List (Text × V))
      → lookup j (set k v m) ≡ (if k === j then some v else lookup j m)
  unfolding lookup set
  lookup-set j k v [] = ground arith
  lookup-set j k v ((i, w) ∷ m) =
      ground (arith, lookup-set j k v m, ===_iff i k, ===_iff i j, ===_iff k j)

  pub has-remove :
      (j k : Text) (m : List (Text × V))
      → Distinct m
      → has j (remove k m) ≡ (if k === j then false else has j m)
  unfolding has remove
  has-remove j k [] d = ground arith
  has-remove j k ((i, w) ∷ m) d =
      ground (arith, has-remove j k m, ===_iff i k, ===_iff i j, ===_iff k j)

  pub Distinct-set : (k : Text) (v : V) (m : List (Text × V)) → Distinct m → Distinct (set k v m)
  unfolding has set
  Distinct-set k v [] d = (refl, tt)
  Distinct-set k v ((j, w) ∷ m) d =
      ground (arith, Distinct-set k v m, has-set j k v m, ===_iff j k, ===_iff k j)

  pub Distinct-remove : (k : Text) (m : List (Text × V)) → Distinct m → Distinct (remove k m)
  unfolding has remove
  Distinct-remove k [] d = tt
  Distinct-remove k ((j, w) ∷ m) d =
      ground (arith, Distinct-remove k m, has-remove j k m, ===_iff j k, ===_iff k j)

  pub length-set_absent :
      (k : Text) (v : V) (m : List (Text × V))
      → has k m ≡ false
      → length (set k v m) ≡ suc (length m)
  unfolding has set
  length-set_absent k v [] h = refl
  length-set_absent k v ((j, w) ∷ m) h = ground (arith, length-set_absent k v m)

  pub length-remove :
      (k : Text) (m : List (Text × V)) → has k m ≡ true → suc (length (remove k m)) ≡ length m
  unfolding has remove
  length-remove k [] h = cc
  length-remove k ((j, w) ∷ m) h = ground (arith, length-remove k m)
