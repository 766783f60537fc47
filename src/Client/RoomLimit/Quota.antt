-- ===== src/Client/RoomLimit/Quota.antt =====
-- src/utilities/room-client-limit.ts: how many connections stay when each of them decides for itself.
use vip_real_time_collaborat.Base.{
  ℕ, zero, suc, ◌≡◌, ◌≢◌, refl, sym, ap, ◌∙◌, Bool, true, false, none, some, List, [], ◌∷◌, arith,
  All, ltb, leb, if◌then◌else◌, length,
}
use vip_real_time_collaborat.Client.RoomLimit.{
  RoomLimitPresence, AwarenessState, no_info, info, read_presences, sort, rank_of,
  is_limit_enforced, is_local_client_within_limit,
}
use vip_real_time_collaborat.Client.RoomLimit.Sorting.{
  DistinctIds, DistinctIds-sort, tally, tally-sort,
}

abbrev min : ℕ → ℕ → ℕ
min a b = if leb a b then a else b

-- The test on the rank, with the list already sorted.
abbrev stays : List RoomLimitPresence → ℕ → RoomLimitPresence → Bool
stays s limit p = elim (rank_of p.client_id s) [ none ↦ true | some r ↦ ltb r limit ]

-- The rank found under the first `n` places; a missing connection counts as ranked past them.
abbrev ranked : List RoomLimitPresence → ℕ → RoomLimitPresence → Bool
ranked s n p = elim (rank_of p.client_id s) [ none ↦ false | some r ↦ ltb r n ]

tally-All :
    (f g : RoomLimitPresence → Bool) (s : List RoomLimitPresence)
    → All (λ (q : RoomLimitPresence). f q ≡ g q) s
    → tally f s ≡ tally g s
unfolding tally
tally-All f g [] a = refl
tally-All f g (q ∷ s) a = rw (a.0, tally-All f g s a.1) refl

ranked_cons :
    (p : RoomLimitPresence) (s t : List RoomLimitPresence) (n : ℕ)
    → All (λ (q : RoomLimitPresence). q.client_id ≢ p.client_id) t
    → All (λ (q : RoomLimitPresence). ranked (p ∷ s) (suc n) q ≡ ranked s n q) t
unfolding rank_of
ranked_cons p s [] n a = tt
ranked_cons p s (q ∷ t) n a = (ground (arith, a.0), ranked_cons p s t n a.1)

-- The connection is found in the list.
abbrev Listed : List RoomLimitPresence → RoomLimitPresence → Type 0
Listed s p = rank_of p.client_id s ≢ none

Listed-cons :
    (p : RoomLimitPresence) (s t : List RoomLimitPresence)
    → All (Listed s) t
    → All (Listed (p ∷ s)) t
unfolding rank_of
Listed-cons p s [] a = tt
Listed-cons p s (q ∷ t) a = (λ e. a.0 (ground arith), Listed-cons p s t a.1)

Listed-All : (s : List RoomLimitPresence) → All (Listed s) s
unfolding rank_of
Listed-All [] = tt
Listed-All (p ∷ s) = (λ e. ground arith, Listed-cons p s s (Listed-All s))

stays-ranked :
    (s t : List RoomLimitPresence) (n : ℕ)
    → All (Listed s) t
    → All (λ (q : RoomLimitPresence). stays s n q ≡ ranked s n q) t
stays-ranked s [] n a = tt
stays-ranked s (q ∷ t) n a = (ground (arith, a.0), stays-ranked s t n a.1)

tally_never :
    (f : RoomLimitPresence → Bool) (s : List RoomLimitPresence)
    → ((q : RoomLimitPresence) → f q ≡ false)
    → tally f s ≡ 0
unfolding tally
tally_never f [] h = refl
tally_never f (q ∷ s) h = ground (arith, h q, tally_never f s h)

tally-ranked :
    (s : List RoomLimitPresence) (n : ℕ) → DistinctIds s → tally (ranked s n) s ≡ min n (length s)
unfolding rank_of tally
tally-ranked [] n d = ground arith
tally-ranked (p ∷ s) zero d =
    tally_never (ranked (p ∷ s) 0) (p ∷ s) (λ q. ground arith) ∙ ground arith
tally-ranked (p ∷ s) (suc n) d =
    ground (arith, tally-All _ _ s (ranked_cons p s s n d.0), tally-ranked s n d.1)

tally-length : (s : List RoomLimitPresence) → tally (λ q. true) s ≡ length s
unfolding tally
tally-length [] = refl
tally-length (q ∷ s) = omega (arith, tally-length s)

length-sort : (ps : List RoomLimitPresence) → length (sort ps) ≡ length ps
length-sort ps = sym (tally-length (sort ps)) ∙ (tally-sort (λ q. true) ps ∙ tally-length ps)

tally-stays :
    (ps : List RoomLimitPresence) (limit : ℕ)
    → DistinctIds ps
    → tally (stays (sort ps) limit) ps ≡ min limit (length ps)
tally-stays ps limit d =
    sym (tally-sort (stays (sort ps) limit) ps)
    ∙ (tally-All _ _ (sort ps) (stays-ranked (sort ps) (sort ps) limit (Listed-All (sort ps)))
        ∙ (tally-ranked (sort ps) limit (DistinctIds-sort ps d) ∙ ap (min limit) (length-sort ps)))

-- The keys of the awareness map differ.
abbrev pub DistinctKeys : List (ℕ × AwarenessState) → Type 0
DistinctKeys [] = Unit {0}
DistinctKeys ((k, s) ∷ states) =
    All (λ (t : ℕ × AwarenessState). t.0 ≢ k) states × DistinctKeys states

read_presences-All :
    (k : ℕ) (states : List (ℕ × AwarenessState))
    → All (λ (t : ℕ × AwarenessState). t.0 ≢ k) states
    → All (λ (q : RoomLimitPresence). q.client_id ≢ k) (read_presences states)
unfolding read_presences
read_presences-All k [] a = tt
read_presences-All k ((j, no_info) ∷ states) a = read_presences-All k states a.1
read_presences-All k ((j, info t) ∷ states) a = (a.0, read_presences-All k states a.1)

read_presences-DistinctIds :
    (states : List (ℕ × AwarenessState)) → DistinctKeys states → DistinctIds (read_presences states)
unfolding read_presences
read_presences-DistinctIds [] d = tt
read_presences-DistinctIds ((j, no_info) ∷ states) d = read_presences-DistinctIds states d.1
read_presences-DistinctIds ((j, info t) ∷ states) d =
    (read_presences-All j states d.0, read_presences-DistinctIds states d.1)

-- Where a limit is enforced and every connection decides over the same awareness map, whose keys
-- differ, exactly `min limit n` of the `n` connections that are read from it stay: the room is
-- neither over its limit nor emptied below it.
pub tally-is_local_client_within_limit :
    (states : List (ℕ × AwarenessState)) (limit : ℕ)
    → DistinctKeys states
    → is_limit_enforced limit ≡ true
    → let ps = read_presences states in
      tally (λ p. is_local_client_within_limit ps p.client_id limit) ps ≡ min limit (length ps)
unfolding is_local_client_within_limit
tally-is_local_client_within_limit states limit d h =
    rw h (tally-stays (read_presences states) limit (read_presences-DistinctIds states d))
