-- ===== src/Protocol/VarUint.antt =====
-- websocket-server/protocol.ts: what readVarUint returns, and that it reads lib0's writeVarUint.
use vip_real_time_collaborat.Base.{
  ℕ, zero, suc, ◌+◌, ◌-◌, ◌*◌, ◌/◌, ◌%◌, ◌^◌, ◌≤◌, ◌<◌, ◌≡◌, ◌≢◌, ap, List, [], ◌∷◌, ◌++◌, arith,
  ltb, if◌then◌else◌, length,
}
use mathlib.Core.List.{append_assoc}
use native.Mathlib.Nat.{div-add-mod, pow-suc}
use native.Mathlib.Numerals.{towards_suc}
use vip_real_time_collaborat.Packages.{Lib0, Lib0Laws}
use vip_real_time_collaborat.Protocol.Reader.{ok, read_var_uint_loop, read_var_uint}

-- What a read says of its input `r` and its result.
abbrev pub Takes : List ℕ → ℕ → List ℕ → ℕ → Type 0
Takes r v rest n = (v < 2 ^ 32) × (length rest < length r) × (length r ≤ length rest + n)

loop-Takes :
    (n acc : ℕ) (r : List ℕ) (v : ℕ) (rest : List ℕ)
    → n ≤ 5
    → acc < 2 ^ ((5 - n) * 7)
    → read_var_uint_loop n (5 - n) acc r ≡ ok (v, rest)
    → Takes r v rest n
unfolding read_var_uint_loop
loop-Takes zero acc r v rest h k e = cc
loop-Takes (suc n) acc [] v rest h k e = cc
loop-Takes (suc zero) acc (b ∷ r) v rest h k e = ground arith
loop-Takes (suc (suc zero)) acc (b ∷ r) v rest h k e =
    ground (arith, loop-Takes 1 (acc + b % 128 * 2 ^ 21) r v rest)
loop-Takes (suc (suc (suc zero))) acc (b ∷ r) v rest h k e =
    ground (arith, loop-Takes 2 (acc + b % 128 * 2 ^ 14) r v rest)
loop-Takes (suc (suc (suc (suc zero)))) acc (b ∷ r) v rest h k e =
    ground (arith, loop-Takes 3 (acc + b % 128 * 2 ^ 7) r v rest)
loop-Takes (suc (suc (suc (suc (suc zero))))) acc (b ∷ r) v rest h k e =
    ground (arith, loop-Takes 4 (acc + b % 128) r v rest)
loop-Takes (suc (suc (suc (suc (suc (suc n)))))) acc (b ∷ r) v rest h k e = absurd (omega arith)

-- A read that succeeds returns a 32-bit number and takes one to five bytes.
pub read_var_uint-Takes :
    (r : List ℕ) (v : ℕ) (rest : List ℕ) → read_var_uint r ≡ ok (v, rest) → Takes r v rest 5
unfolding read_var_uint
read_var_uint-Takes r v rest e = loop-Takes 5 0 r v rest (omega arith) (omega arith) e

loop-append :
    (n i acc : ℕ) (r more : List ℕ) (v : ℕ) (rest : List ℕ)
    → read_var_uint_loop n i acc r ≡ ok (v, rest)
    → read_var_uint_loop n i acc (r ++ more) ≡ ok (v, rest ++ more)
unfolding read_var_uint_loop
loop-append zero i acc r more v rest e = cc
loop-append (suc n) i acc [] more v rest e = cc
loop-append (suc n) i acc (b ∷ r) more v rest e =
    ground (arith, loop-append n (i + 1) (acc + b % 128 * 2 ^ (i * 7)) r more v rest)

pub read_var_uint-append :
    (r more : List ℕ) (v : ℕ) (rest : List ℕ)
    → read_var_uint r ≡ ok (v, rest)
    → read_var_uint (r ++ more) ≡ ok (v, rest ++ more)
unfolding read_var_uint
read_var_uint-append r more v rest e = loop-append 5 0 0 r more v rest e

-- The groups of seven bits of `v`, lowest first, with room for `k` groups after the first.
pub groups : ℕ → ℕ → List ℕ
groups zero v = v ∷ []
groups (suc k) v =
    let rest = groups k (v / 128) in if ltb v 128 then v ∷ [] else (v % 128 + 128) ∷ rest

-- A round of the loop on a last byte, and on one with the top bit set.
last_round :
    (n i acc v : ℕ) (rest : List ℕ)
    → v < 128
    → (i ≡ 4 → v < 16)
    → read_var_uint_loop (suc n) i acc (v ∷ rest) ≡ ok (acc + v * 2 ^ (i * 7), rest)
unfolding read_var_uint_loop
last_round n i acc v rest h k = ground arith

inner_round :
    (n i acc v : ℕ) (rest : List ℕ)
    → i ≢ 4
    → read_var_uint_loop (suc n) i acc ((v % 128 + 128) ∷ rest)
      ≡ read_var_uint_loop n (i + 1) (acc + v % 128 * 2 ^ (i * 7)) rest
unfolding read_var_uint_loop
inner_round n i acc v rest h = ground arith

next_weight : (i : ℕ) → 2 ^ ((i + 1) * 7) ≡ 128 * 2 ^ (i * 7)
next_weight i =
    let e : (i + 1) * 7 ≡ i * 7 + 7 = omega arith in rw e (simp towards_suc (omega arith))

-- The lowest group and the rest, at the weight of round `i`.
split_group : (v i : ℕ) → v * 2 ^ (i * 7) ≡ v % 128 * 2 ^ (i * 7) + v / 128 * 2 ^ ((i + 1) * 7)
split_group v i = omega (
  arith,
  ap (λ (t : ℕ). t * 2 ^ (i * 7)) (div-add-mod v 128),
  ap (λ (t : ℕ). v / 128 * t) (next_weight i),
)

loop-groups :
    (k i acc v : ℕ) (rest : List ℕ)
    → k + i ≡ 4
    → v < 16 * 128 ^ k
    → read_var_uint_loop (suc k) i acc (groups k v ++ rest) ≡ ok (acc + v * 2 ^ (i * 7), rest)
unfolding groups
loop-groups zero i acc v rest h b = last_round 0 i acc v rest (omega arith) (λ e. omega arith)
loop-groups (suc k) i acc v rest h b = ground (
  arith,
  last_round (suc k) i acc v rest,
  inner_round (suc k) i acc v (groups k (v / 128) ++ rest),
  split_group v i,
  loop-groups k (i + 1) (acc + v % 128 * 2 ^ (i * 7)) (v / 128) rest (omega arith)
      (omega (arith, pow-suc 128 k)),
)

pub read_var_uint-groups :
    (v : ℕ) (rest : List ℕ) → v < 2 ^ 32 → read_var_uint (groups 4 v ++ rest) ≡ ok (v, rest)
unfolding read_var_uint
read_var_uint-groups v rest h = ground (arith, loop-groups 4 0 0 v rest)

module _ (l : Lib0) (laws : Lib0Laws l) where
  write-groups :
      (k : ℕ) (e : List ℕ) (v : ℕ) → v < 128 ^ suc k → l.write_var_uint e v ≡ e ++ groups k v
  unfolding groups
  write-groups zero e v h = laws.write_last e v (omega arith)
  write-groups (suc k) e v h = ground (
    arith,
    laws.write_last e v,
    laws.write_group e v,
    write-groups k (e ++ (v % 128 + 128) ∷ []) (v / 128) (omega arith),
    append_assoc e ((v % 128 + 128) ∷ []) (groups k (v / 128)),
  )

  -- lib0 writes the groups of a 32-bit number behind what is there.
  pub write_var_uint_lem :
      (e : List ℕ) (v : ℕ) → v < 2 ^ 32 → l.write_var_uint e v ≡ e ++ groups 4 v
  write_var_uint_lem e v h = write-groups 4 e v (omega arith)

  -- readVarUint returns the 32-bit number that lib0's writeVarUint wrote, and leaves what follows.
  pub read_var_uint-write_var_uint :
      (v : ℕ) (rest : List ℕ)
      → v < 2 ^ 32
      → read_var_uint (l.write_var_uint [] v ++ rest) ≡ ok (v, rest)
  read_var_uint-write_var_uint v rest h =
      rw (write_var_uint_lem [] v h) (read_var_uint-groups v rest h)
