-- ===== src/Session/Rooms.antt =====
-- websocket-server/multiplex-session.ts: the rooms of a session against its open adapters.
use vip_real_time_collaborat.Base.{
  ℕ, suc, ◌≤◌, ◌<◌, ◌≡◌, refl, false, some, List, [], ◌∷◌, ◌++◌, arith,
}
use vip_real_time_collaborat.Base.Text.{Text, ===_iff}
use vip_real_time_collaborat.Base.Maps.{
  contains, add, delete, contains-add, contains-delete, lookup, has, remove, Distinct, lookup-has,
}
use vip_real_time_collaborat.Session.State.{adapter_room, drop_adapter}

-- The open adapters that the rooms call for.
abbrev pub adapters_of : List (Text × ℕ) → List (ℕ × Text)
adapters_of [] = []
adapters_of ((room, id) ∷ m) = (id, room) ∷ adapters_of m

-- The adapters are numbered in order, from `lo` on and below `hi`.
abbrev pub Rising : ℕ → ℕ → List (Text × ℕ) → Type 0
Rising lo hi [] = lo ≤ hi
Rising lo hi ((room, id) ∷ m) = (lo ≤ id) × Rising (suc id) hi m

-- No room of the session is among the closed ones.
abbrev pub Apart : List (Text × ℕ) → List Text → Type 0
Apart [] t = Unit {0}
Apart ((room, id) ∷ m) t = (contains room t ≡ false) × Apart m t

Rising-bounds : (lo hi : ℕ) (m : List (Text × ℕ)) → Rising lo hi m → lo ≤ hi
Rising-bounds lo hi [] r = r
Rising-bounds lo hi ((k, v) ∷ m) r = omega (arith, Rising-bounds (suc v) hi m r.1)

pub Rising-lookup :
    (room : Text) (id lo hi : ℕ) (m : List (Text × ℕ))
    → Rising lo hi m
    → lookup room m ≡ some id
    → (lo ≤ id) × (id < hi)
unfolding lookup
Rising-lookup room id lo hi [] r e = cc
Rising-lookup room id lo hi ((k, v) ∷ m) r e =
    ground (arith, Rising-lookup room id (suc v) hi m r.1, Rising-bounds (suc v) hi m r.1)

Rising-mono : (lo lo' hi : ℕ) (m : List (Text × ℕ)) → lo ≤ lo' → Rising lo' hi m → Rising lo hi m
Rising-mono lo lo' hi [] h r = omega arith
Rising-mono lo lo' hi ((k, v) ∷ m) h r = (omega arith, r.1)

pub Rising-remove :
    (room : Text) (lo hi : ℕ) (m : List (Text × ℕ)) → Rising lo hi m → Rising lo hi (remove room m)
unfolding remove
Rising-remove room lo hi [] r = r
Rising-remove room lo hi ((k, v) ∷ m) r =
    ground (arith, Rising-remove room (suc v) hi m r.1, Rising-mono lo (suc v) hi m)

pub Rising-append :
    (room : Text) (lo hi : ℕ) (m : List (Text × ℕ))
    → Rising lo hi m
    → Rising lo (suc hi) (m ++ (room, hi) ∷ [])
Rising-append room lo hi [] r = omega arith
Rising-append room lo hi ((k, v) ∷ m) r = (r.0, Rising-append room (suc v) hi m r.1)

pub adapters_of-append :
    (room : Text) (id : ℕ) (m : List (Text × ℕ))
    → adapters_of (m ++ (room, id) ∷ []) ≡ adapters_of m ++ (id, room) ∷ []
adapters_of-append room id [] = refl
adapters_of-append room id ((k, v) ∷ m) = cc (adapters_of-append room id m)

-- The adapter of a room is found under its number, and dropping it is removing the room.
pub adapters_of-remove :
    (room : Text) (id lo hi : ℕ) (m : List (Text × ℕ))
    → Rising lo hi m
    → lookup room m ≡ some id
    → (adapter_room id (adapters_of m) ≡ some room)
      × (drop_adapter id (adapters_of m) ≡ adapters_of (remove room m))
unfolding lookup remove adapter_room drop_adapter
adapters_of-remove room id lo hi [] r e = cc
adapters_of-remove room id lo hi ((k, v) ∷ m) r e = ground (
  arith,
  ===_iff k room,
  Rising-lookup room id (suc v) hi m r.1,
  adapters_of-remove room id (suc v) hi m r.1,
)

pub lookup-adapter_room :
    (room : Text) (id : ℕ) (m : List (Text × ℕ))
    → Distinct m
    → adapter_room id (adapters_of m) ≡ some room
    → lookup room m ≡ some id
unfolding lookup adapter_room
lookup-adapter_room room id [] d e = cc
lookup-adapter_room room id ((k, v) ∷ m) d e =
    ground (arith, ===_iff k room, lookup-adapter_room room id m d.1, lookup-has room m id)

Apart-add :
    (room : Text) (m : List (Text × ℕ)) (t : List Text)
    → has room m ≡ false
    → Apart m t
    → Apart m (add room t)
unfolding has
Apart-add room [] t h a = tt
Apart-add room ((k, v) ∷ m) t h a =
    ground (arith, ===_iff k room, ===_iff room k, contains-add k room t, Apart-add room m t)

pub Apart-remove :
    (room : Text) (m : List (Text × ℕ)) (t : List Text)
    → Distinct m
    → Apart m t
    → Apart (remove room m) (add room t)
unfolding remove
Apart-remove room [] t d a = tt
Apart-remove room ((k, v) ∷ m) t d a = ground (
  arith,
  ===_iff k room,
  ===_iff room k,
  contains-add k room t,
  Apart-remove room m t d.1 a.1,
  Apart-add room m t,
)

pub Apart-append :
    (room : Text) (id : ℕ) (m : List (Text × ℕ)) (t : List Text)
    → Apart m t
    → Apart (m ++ (room, id) ∷ []) (delete room t)
Apart-append room id [] t a = ground (arith, contains-delete room room t, ===_iff room room)
Apart-append room id ((k, v) ∷ m) t a =
    (ground (arith, contains-delete k room t), Apart-append room id m t a.1)
