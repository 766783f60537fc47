-- ===== src/Client/RoomLimit/Ranks.antt =====
-- src/utilities/room-client-limit.ts: the decision is a comparison with the number of connections
-- that joined earlier, whatever order the awareness map lists them in.
use mathlib.Core.List.Permᴰ.{Permᴰ, nil, cons, swap, trans}
use vip_real_time_collaborat.Base.{
  ℕ, ◌≡◌, refl, sym, ap, ◌∙◌, inl, inr, Bool, true, not, some, List, [], ◌∷◌, arith, All, ltb,
  Bool-cases,
}
use vip_real_time_collaborat.Client.RoomLimit.{
  RoomLimitPresence, in_join_order, sort, rank_of, is_limit_enforced, is_local_client_within_limit,
}
use vip_real_time_collaborat.Client.RoomLimit.Sorting.{
  DistinctIds, Among, Ordered, in_join_order_strict, in_join_order_refl, Ordered-sort,
  DistinctIds-sort, Among-sort, tally, tally-sort,
}

-- `q` joined before `p`.
abbrev pub earlier : RoomLimitPresence → RoomLimitPresence → Bool
earlier p q = not (in_join_order p q)

pub All-Among {ℓ} :
    (P : RoomLimitPresence → Type ℓ) (p : RoomLimitPresence) (s : List RoomLimitPresence)
    → All P s
    → Among p s
    → P p
All-Among P p (q ∷ s) a (inl e) = rw e a.0
All-Among P p (q ∷ s) a (inr m) = All-Among P p s a.1 m
All-Among P p [] a m = absurd m

tally_none :
    (p : RoomLimitPresence) (s : List RoomLimitPresence)
    → All (λ (q : RoomLimitPresence). in_join_order p q ≡ true) s
    → tally (earlier p) s ≡ 0
unfolding tally
tally_none p [] a = refl
tally_none p (q ∷ s) a = ground (arith, a.0, tally_none p s a.1)

rank_of_head :
    (q : RoomLimitPresence) (s : List RoomLimitPresence)
    → All (λ (r : RoomLimitPresence). in_join_order q r ≡ true) s
    → rank_of q.client_id (q ∷ s) ≡ some (tally (earlier q) (q ∷ s))
unfolding rank_of tally
rank_of_head q s a = ground (arith, tally_none q s a, in_join_order_refl q)

rank_of_same :
    (p q : RoomLimitPresence) (s : List RoomLimitPresence)
    → p ≡ q
    → All (λ (r : RoomLimitPresence). in_join_order q r ≡ true) s
    → rank_of p.client_id (q ∷ s) ≡ some (tally (earlier p) (q ∷ s))
rank_of_same p q s e a = rw e (rank_of_head q s a)

rank_of-tally :
    (p : RoomLimitPresence) (s : List RoomLimitPresence)
    → DistinctIds s
    → Ordered s
    → Among p s
    → rank_of p.client_id s ≡ some (tally (earlier p) s)
unfolding rank_of tally
rank_of-tally p [] d o m = absurd m
rank_of-tally p (q ∷ s) d o (inl e) = rank_of_same p q s e o.0
rank_of-tally p (q ∷ s) d o (inr m) =
    let ne = All-Among _ p s d.0 m in
    let le = All-Among _ p s o.0 m in
    ground (arith, in_join_order_strict q p (λ e. ne (sym e)) le, rank_of-tally p s d.1 o.1 m, ne)

-- Where a limit is enforced and the local connection is listed, among connections with different
-- ids, it stays exactly when fewer than `limit` of them joined before it, ties going to the
-- smaller id.
pub is_local_client_within_limit-tally :
    (ps : List RoomLimitPresence) (p : RoomLimitPresence) (limit : ℕ)
    → DistinctIds ps
    → Among p ps
    → is_limit_enforced limit ≡ true
    → is_local_client_within_limit ps p.client_id limit ≡ ltb (tally (earlier p) ps) limit
unfolding is_local_client_within_limit
is_local_client_within_limit-tally ps p limit d m h =
    rw
      (
        h,
        rank_of-tally p (sort ps) (DistinctIds-sort ps d) (Ordered-sort ps) (Among-sort p ps m),
        tally-sort (earlier p) ps,
      )
      refl

tally-Perm :
    (f : RoomLimitPresence → Bool) (ps qs : List RoomLimitPresence)
    → Permᴰ ps qs
    → tally f ps ≡ tally f qs
unfolding tally
tally-Perm f _ _ nil = refl
tally-Perm f _ _ (cons {l₁ = l₁} {l₂ = l₂} e d) = rw (e, tally-Perm f l₁ l₂ d) refl
tally-Perm f _ _ (swap e k) = rw (e, k) (omega arith)
tally-Perm f _ _ (trans {l₁ = l₁} {l₂ = l₂} {l₃ = l₃} d d') =
    tally-Perm f l₁ l₂ d ∙ tally-Perm f l₂ l₃ d'

Among-Perm :
    (p : RoomLimitPresence) (ps qs : List RoomLimitPresence) → Permᴰ ps qs → Among p ps → Among p qs
Among-Perm p _ _ nil m = m
Among-Perm p _ _ (cons e d) (inl h) = inl (h ∙ e)
Among-Perm p _ _ (cons {l₁ = l₁} {l₂ = l₂} e d) (inr m) = inr (Among-Perm p l₁ l₂ d m)
Among-Perm p _ _ (swap e k) (inl h) = inr (inl (h ∙ e))
Among-Perm p _ _ (swap e k) (inr (inl h)) = inl (h ∙ k)
Among-Perm p _ _ (swap e k) (inr (inr m)) = inr (inr m)
Among-Perm p _ _ (trans {l₁ = l₁} {l₂ = l₂} {l₃ = l₃} d d') m =
    Among-Perm p l₂ l₃ d' (Among-Perm p l₁ l₂ d m)

-- Two clients that hold the same presences, with different ids and in whatever order, decide alike
-- about every connection among them, under any limit.
is_local_client_within_limit-Perm :
    (ps qs : List RoomLimitPresence) (p : RoomLimitPresence) (limit : ℕ)
    → DistinctIds ps
    → DistinctIds qs
    → Permᴰ ps qs
    → Among p ps
    → is_local_client_within_limit ps p.client_id limit
      ≡ is_local_client_within_limit qs p.client_id limit
unfolding is_local_client_within_limit
is_local_client_within_limit-Perm ps qs p limit d e w m =
    elim (Bool-cases (is_limit_enforced limit)) [
      | inl h ↦
          is_local_client_within_limit-tally ps p limit d m h
          ∙ (ap (λ n. ltb n limit) (tally-Perm (earlier p) ps qs w)
              ∙ sym (is_local_client_within_limit-tally qs p limit e (Among-Perm p ps qs w m) h))
      | inr h ↦ rw h refl
    ]
