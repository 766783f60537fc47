-- ===== src/Client/SharedSocket/Counts.antt =====
-- src/shared-websocket.ts: how often a socket stands in the registry, and what a close takes out of it.
use mathlib.Core.Path.{subst}
use mathlib.Core.Option.{some-injective}
use vip_real_time_collaborat.Base.{
  ℕ, suc, ◌+◌, ◌≤◌, ◌≡◌, refl, sym, ap, ◌∙◌, ◌⊎◌, inl, inr, Bool, true, false, Option, none, some,
  List, [], ◌∷◌, ◌==◌, ==_iff, if◌then◌else◌, Bool-cases, arith,
}
use vip_real_time_collaborat.Base.Text.{Text}
use vip_real_time_collaborat.Base.Maps.{lookup, set, remove}
use vip_real_time_collaborat.Client.SharedSocket.{
  SharedWebSocket, Shared, is_active, detached_ready, registered_ready, ready_of, without_socket,
  removed_if, unregister,
}
use vip_real_time_collaborat.Client.SharedSocket.Listeners.{open_room}
use vip_real_time_collaborat.Client.SharedSocket.Kept.{IsFound}

-- How many of the sockets have the id.
abbrev pub sockets_of : ℕ → List (Text × SharedWebSocket) → ℕ
sockets_of i [] = 0
sockets_of i ((room, v) ∷ m) = let rest = sockets_of i m in if v.id == i then suc rest else rest

abbrev pub one_if : Bool → ℕ
one_if true = 1
one_if false = 0

module _ (i : ℕ) where
  remove-fewer :
      (room : Text) (m : List (Text × SharedWebSocket))
      → sockets_of i (remove room m) ≤ sockets_of i m
  unfolding remove
  remove-fewer room [] = omega arith
  remove-fewer room ((r, v) ∷ m) = ground (arith, remove-fewer room m)

  remove-sockets_of :
      (room : Text) (v : SharedWebSocket) (m : List (Text × SharedWebSocket))
      → lookup room m ≡ some v
      → v.id == i ≡ true
      → suc (sockets_of i (remove room m)) ≡ sockets_of i m
  unfolding remove lookup
  remove-sockets_of room v [] e h = absurd cc
  remove-sockets_of room v ((r, u) ∷ m) e h = ground (arith, remove-sockets_of room v m, e, h)

  without-fewer :
      (id : ℕ) (m : List (Text × SharedWebSocket))
      → sockets_of i (without_socket id m) ≤ sockets_of i m
  unfolding without_socket
  without-fewer id [] = omega arith
  without-fewer id ((r, v) ∷ m) = ground (arith, without-fewer id m)

  without-none :
      (id : ℕ) (m : List (Text × SharedWebSocket)) → id ≡ i → sockets_of i (without_socket id m) ≡ 0
  unfolding without_socket
  without-none id [] e = refl
  without-none id ((r, v) ∷ m) e = ground (arith, without-none id m e, e)

  active-sockets_of :
      (m : List (Text × SharedWebSocket))
      → is_active (detached_ready i m) ≡ true
      → 1 ≤ sockets_of i m
  unfolding detached_ready
  active-sockets_of [] a = absurd cc
  active-sockets_of ((r, v) ∷ m) a = ground (arith, active-sockets_of m, a)

  pub set-sockets_of :
      (room : Text) (v : SharedWebSocket) (m : List (Text × SharedWebSocket))
      → sockets_of i (set room v m) ≤ sockets_of i m + one_if (v.id == i)
  unfolding set
  set-sockets_of room v [] = ground arith
  set-sockets_of room v ((r, u) ∷ m) = ground (arith, set-sockets_of room v m)

  pub open_room-sockets_of :
      (room : Text) (m : List (Text × SharedWebSocket))
      → sockets_of i (open_room room m) ≡ sockets_of i m
  unfolding open_room
  open_room-sockets_of room [] = refl
  open_room-sockets_of room ((r, u) ∷ m) = ground (arith, open_room-sockets_of room m)

  removed-fewer :
      (room : Text) (id : ℕ) (m : List (Text × SharedWebSocket)) (o : Option SharedWebSocket)
      → sockets_of i (removed_if room id m o) ≤ sockets_of i m
  unfolding removed_if
  removed-fewer room id m none = omega arith
  removed-fewer room id m (some v) = ground (arith, remove-fewer room m)

  -- The registry and the detached sockets together.
  abbrev pub total : Shared → ℕ
  total s = sockets_of i s.virtual_sockets + sockets_of i s.detached

  found-left :
      (room : Text) (id : ℕ) (m d : List (Text × SharedWebSocket)) (o : Option SharedWebSocket)
      → lookup room m ≡ o
      → id ≡ i
      → ((v : SharedWebSocket) × ((o ≡ some v) × (v.id ≡ id)))
        ⊎ (is_active (registered_ready id (detached_ready id d) o) ≡ true)
      → suc (sockets_of i (removed_if room id m o) + sockets_of i (without_socket id d))
        ≤ sockets_of i m + sockets_of i d
  unfolding removed_if
  found-left room id m d none e same (inl (v, (f, k))) = absurd cc
  found-left room id m d none e same (inr a) = omega (
    arith,
    without-none id d same,
    active-sockets_of d (subst (λ x. is_active (detached_ready x d) ≡ true) same a),
  )
  found-left room id m d (some u) e same f = elim (Bool-cases (u.id == id)) [
    | inl h ↦ rw h (
        omega (
          arith,
          without-none id d same,
          remove-sockets_of room u m e ((==_iff u.id i).1 ((==_iff u.id id).0 h ∙ same)),
        ))
    | inr h ↦ rw h (
        omega (
          arith,
          without-none id d same,
          active-sockets_of d
              (subst (λ x. is_active (detached_ready x d) ≡ true) same (still u f h)),
        ))
  ]
    where
      still :
          (u : SharedWebSocket)
          → ((v : SharedWebSocket) × ((some u ≡ some v) × (v.id ≡ id)))
            ⊎ (is_active (registered_ready id (detached_ready id d) (some u)) ≡ true)
          → u.id == id ≡ false
          → is_active (detached_ready id d) ≡ true
      still u (inl (v, (k, n))) h =
          let same_id : u.id == id ≡ true =
            (==_iff u.id id).1 (ap (λ x. x.id) (some-injective u v k) ∙ n) in
          absurd cc
      still u (inr a) h = sym (rw h refl) ∙ a

  -- A socket that is closed is taken out.
  pub unregister-total :
      (room : Text) (id : ℕ) (s : Shared)
      → IsFound room id s
      → total (unregister room id s) + one_if (id == i) ≤ total s
  unfolding unregister ready_of
  unregister-total room id s f = elim (Bool-cases (id == i)) [
    | inl h ↦ rw h (
        omega (
          arith,
          found-left room id s.virtual_sockets s.detached (lookup room s.virtual_sockets) refl
              ((==_iff id i).0 h) f,
        ))
    | inr h ↦ rw h (
        omega (
          arith,
          without-fewer id s.detached,
          removed-fewer room id s.virtual_sockets (lookup room s.virtual_sockets),
        ))
  ]

  -- So is one that the close of the physical socket closes.
  pub released-total :
      (id : ℕ) (d : List (Text × SharedWebSocket))
      → is_active (detached_ready id d) ≡ true
      → sockets_of i (without_socket id d) + one_if (id == i) ≤ sockets_of i d
  released-total id d a = elim (Bool-cases (id == i)) [
    | inl h ↦ rw h (
        omega (
          arith,
          without-none id d ((==_iff id i).0 h),
          active-sockets_of d
              (subst (λ x. is_active (detached_ready x d) ≡ true) ((==_iff id i).0 h) a),
        ))
    | inr h ↦ rw h (omega (arith, without-fewer id d))
  ]
