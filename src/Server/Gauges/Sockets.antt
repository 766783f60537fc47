-- ===== src/Server/Gauges/Sockets.antt =====
-- websocket-server/server.ts: the sockets that have a close listener, and what leaving does to them.
use vip_real_time_collaborat.Base.{
  ℕ, suc, ◌+◌, ◌≤◌, ◌<◌, ◌≡◌, ◌⊎◌, All, refl, sym, ap, ◌∙◌, inl, inr, true, false, ◌||◌, Option,
  none, some, List, [], ◌∷◌, arith, length, ◌==◌, ==_iff, Bool-cases,
}
use vip_real_time_collaborat.Server.Limits.{
  WebSocketWithIdentity, has_user, same_user, get_active_collaborator_count,
}
use vip_real_time_collaborat.Server.Limits.Counts.{
  leave, admitted, get_active_collaborator_count_cons, new_user,
}
use vip_real_time_collaborat.Server.{is_listed, unlist}
use vip_real_time_collaborat.Server.Timeouts.{is_listed-unlist}

-- The ids of the sockets, newest first, go down from `n`.
abbrev pub Below : ℕ → List WebSocketWithIdentity → Type 0
Below n [] = Unit {0}
Below n (ws ∷ clients) = (ws.id < n) × Below ws.id clients

-- A socket with an identity has the server's close listener.
abbrev pub HasListener : List ℕ → WebSocketWithIdentity → Type 0
HasListener ids ws = (ws.user_id ≡ none) ⊎ (is_listed ws.id ids ≡ true)

pub Below-weaken :
    (m n : ℕ) (clients : List WebSocketWithIdentity) → m ≤ n → Below m clients → Below n clients
Below-weaken m n [] h b = tt
Below-weaken m n (ws ∷ clients) h (a, b) = (omega (arith, a), b)

pub Below-leave :
    (id n : ℕ) (clients : List WebSocketWithIdentity) → Below n clients → Below n (leave id clients)
unfolding leave
Below-leave id n [] b = tt
Below-leave id n (ws ∷ clients) (a, b) = elim (Bool-cases (ws.id == id)) [
  | inl e ↦ rw e (Below-weaken ws.id n clients (omega (arith, a)) b)
  | inr e ↦ rw e (a, Below-leave id ws.id clients b)
]

pub length-unlist : (id : ℕ) (ids : List ℕ) → length (unlist id ids) ≤ length ids
unfolding unlist
length-unlist id [] = omega arith
length-unlist id (i ∷ ids) = ground (arith, length-unlist id ids)

pub length-unlist_listed :
    (id : ℕ) (ids : List ℕ) → is_listed id ids ≡ true → suc (length (unlist id ids)) ≤ length ids
unfolding unlist
length-unlist_listed id [] h = absurd cc
length-unlist_listed id (i ∷ ids) h =
    ground (arith, length-unlist_listed id ids, length-unlist id ids)

-- A socket other than the one that leaves keeps its listener.
pub HasListener-unlist :
    (id : ℕ) (ids : List ℕ) (ws : WebSocketWithIdentity)
    → (ws.id == id) ≡ false
    → HasListener ids ws
    → HasListener (unlist id ids) ws
HasListener-unlist id ids ws e (inl k) = inl k
HasListener-unlist id ids ws e (inr k) = inr (ground (arith, is_listed-unlist ws.id id ids, k, e))

pub heard_other :
    (id : ℕ) (ids : List ℕ) (n : ℕ) (clients : List WebSocketWithIdentity)
    → Below n clients
    → n ≤ id
    → All (HasListener ids) clients
    → All (HasListener (unlist id ids)) clients
heard_other id ids n [] b h a = tt
heard_other id ids n (ws ∷ clients) (b, c) h (l, a) = (
  HasListener-unlist id ids ws (ground (arith, b, h)) l,
  heard_other id ids ws.id clients c (omega (arith, b, h)) a,
)

pub heard-leave :
    (id : ℕ) (ids : List ℕ) (n : ℕ) (clients : List WebSocketWithIdentity)
    → Below n clients
    → All (HasListener ids) clients
    → All (HasListener (unlist id ids)) (leave id clients)
unfolding leave
heard-leave id ids n [] b a = tt
heard-leave id ids n (ws ∷ clients) (b, c) (h, a) = elim (Bool-cases (ws.id == id)) [
  | inl e ↦ rw e (heard_other id ids ws.id clients c (ground (arith, e)) a)
  | inr e ↦ rw e (HasListener-unlist id ids ws e h, heard-leave id ids ws.id clients c a)
]

pub no_identity :
    (id : ℕ) (ids : List ℕ) (ws : WebSocketWithIdentity)
    → HasListener ids ws
    → (ws.id == id) ≡ true
    → is_listed id ids ≡ false
    → ws.user_id ≡ none
no_identity id ids ws (inl n) e h = n
no_identity id ids ws (inr k) e h = absurd (
    let same : ws.id ≡ id = (==_iff ws.id id).0 e in
    let clash : true ≡ false = sym k ∙ (ap (λ i. is_listed i ids) same ∙ h) in cc)

pub new_user-same :
    (a b : List WebSocketWithIdentity) (o : Option ℕ)
    → ((u : ℕ) → has_user a u ≡ has_user b u)
    → new_user a o ≡ new_user b o
new_user-same a b none f = refl
new_user-same a b (some u) f = rw (f u) refl

-- A socket that has no listener has no identity, so that the count does not change when it leaves.
pub unheard-leave :
    (id : ℕ) (ids : List ℕ) (clients : List WebSocketWithIdentity)
    → All (HasListener ids) clients
    → is_listed id ids ≡ false
    → ((u : ℕ) → has_user (leave id clients) u ≡ has_user clients u)
      × (get_active_collaborator_count (leave id clients) ≡ get_active_collaborator_count clients)
unfolding leave has_user
unheard-leave id ids [] a h = (λ u. refl, refl)
unheard-leave id ids (ws ∷ clients) (l, a) h = elim (Bool-cases (ws.id == id)) [
  | inl e ↦
      let n = no_identity id ids ws l e h in
      rw e (
        (λ u. rw n refl),
        omega (arith, get_active_collaborator_count_cons ws clients, ap (new_user clients) n),
      )
  | inr e ↦
      let (f, g) = unheard-leave id ids clients a h in
      rw e (
        (λ u. ap (λ b. same_user ws.user_id u || b) (f u)),
        get_active_collaborator_count_cons ws (leave id clients)
            ∙ ap (λ k. k + get_active_collaborator_count (leave id clients))
                (new_user-same (leave id clients) clients ws.user_id f)
            ∙ ap (λ k. new_user clients ws.user_id + k) g
            ∙ sym (get_active_collaborator_count_cons ws clients),
      )
]

pub weaken_listener :
    (id : ℕ) (ids : List ℕ) (clients : List WebSocketWithIdentity)
    → All (HasListener ids) clients
    → All (HasListener (id ∷ ids)) clients
weaken_listener id ids [] a = tt
weaken_listener id ids (ws ∷ clients) (inl e, a) = (inl e, weaken_listener id ids clients a)
weaken_listener id ids (ws ∷ clients) (inr k, a) =
    (inr (ground (arith, k)), weaken_listener id ids clients a)

pub heard_left :
    (id : ℕ) (ids : List ℕ) (clients : List WebSocketWithIdentity)
    → All (HasListener ids) clients
    → All (HasListener ids) (leave id clients)
unfolding leave
heard_left id ids [] a = tt
heard_left id ids (ws ∷ clients) (l, a) = elim (Bool-cases (ws.id == id)) [
  | inl e ↦ rw e a
  | inr e ↦ rw e (l, heard_left id ids clients a)
]

pub admitted-leave_one :
    (id : ℕ) (clients : List WebSocketWithIdentity)
    → admitted clients ≤ suc (admitted (leave id clients))
unfolding leave admitted
admitted-leave_one id [] = omega arith
admitted-leave_one id (ws ∷ clients) = ground (arith, admitted-leave_one id clients)

pub unheard_admitted :
    (id : ℕ) (ids : List ℕ) (clients : List WebSocketWithIdentity)
    → All (HasListener ids) clients
    → is_listed id ids ≡ false
    → admitted (leave id clients) ≡ admitted clients
unfolding leave admitted
unheard_admitted id ids [] a h = refl
unheard_admitted id ids (ws ∷ clients) (l, a) h = elim (Bool-cases (ws.id == id)) [
  | inl e ↦ rw (e, no_identity id ids ws l e h) (omega arith)
  | inr e ↦ rw (e, unheard_admitted id ids clients a h) refl
]
