-- ===== src/Server/Metrics/Maintenance.antt =====
-- websocket-server/metrics.ts: the clean-up of old disconnects loses no reconnection.
use vip_real_time_collaborat.Base.{
  ℕ, ◌≤◌, ◌≡◌, refl, ◌∙◌, ap, inl, inr, true, false, Option, none, some, List, [], ◌∷◌, arith,
  Bool-cases, Option-cases,
}
use vip_real_time_collaborat.Base.Text.{Text}
use vip_real_time_collaborat.Base.Maps.{lookup, remove, Distinct, Distinct-set, Distinct-remove}
use vip_real_time_collaborat.Base.Integers.{pos, minus_ℤ}
use vip_real_time_collaborat.Server.Metrics.{
  Reconnections, no_reconnections, is_missing, value_of, track_disconnection, is_recent,
  check_known, check_reconnection, cleanup_old_disconnects, Event, disconnected, connected,
  maintained, time_of, step, run,
}
use vip_real_time_collaborat.Server.Metrics.Disconnects.{
  Stale, Covers, Covers-later, Covers-set, Covers-remove, Covers-drop_old, Distinct-drop_old,
}

module _ (window : ℕ) where
  pub record Agree (now : ℕ) (s s' : Reconnections) : Type 0 where
    pub observations : s.observed ≡ s'.observed
    pub distinct : Distinct s.recent_disconnects
    pub distinct' : Distinct s'.recent_disconnects
    pub covers : Covers window now s.recent_disconnects s'.recent_disconnects

  check_known-none :
      (k : Text) (now : ℕ) (s : Reconnections)
      → lookup k s.recent_disconnects ≡ none
      → check_known window k now s ≡ s
  unfolding check_known
  check_known-none k now s e = rw (e, check_known) refl

  check_known_old :
      (k : Text) (now t : ℕ) (s : Reconnections)
      → lookup k s.recent_disconnects ≡ some t
      → is_recent window t now ≡ false
      → check_known window k now s ≡ s
  unfolding check_known
  check_known_old k now t s e h = rw (e, h, check_known) refl

  check_known_recent :
      (k : Text) (now t : ℕ) (s : Reconnections)
      → lookup k s.recent_disconnects ≡ some t
      → is_recent window t now ≡ true
      → check_known window k now s ≡ record {
        observed = minus_ℤ (pos now) (pos t) ∷ s.observed;
        recent_disconnects = remove k s.recent_disconnects;
      }
  unfolding check_known
  check_known_recent k now t s e h = rw (e, h, check_known) refl

  Stale-old :
      (now : ℕ) (o : Option ℕ)
      → Stale window now o
      → (t : ℕ) × ((o ≡ some t) × (is_recent window t now ≡ false))
  unfolding is_recent
  Stale-old now none h = absurd h
  Stale-old now (some t) h = (t, (refl, ground (arith, h)))

  both_recent-Agree :
      (now t : ℕ) (k : Text) (s s' : Reconnections)
      → Agree now s s'
      → lookup k s.recent_disconnects ≡ some t
      → lookup k s'.recent_disconnects ≡ some t
      → is_recent window t now ≡ true
      → Agree now (check_known window k now s) (check_known window k now s')
  both_recent-Agree now t k s s' a e e' h =
      rw (check_known_recent k now t s e h, check_known_recent k now t s' e' h)
        record {
          observations = ap (◌∷◌ (minus_ℤ (pos now) (pos t))) a.observations;
          distinct = Distinct-remove k s.recent_disconnects a.distinct;
          distinct' = Distinct-remove k s'.recent_disconnects a.distinct';
          covers =
              Covers-remove window now k s.recent_disconnects s'.recent_disconnects a.distinct
                a.distinct' a.covers;
        }

  check_known-Agree :
      (now : ℕ) (k : Text) (s s' : Reconnections)
      → Agree now s s'
      → Agree now (check_known window k now s) (check_known window k now s')
  check_known-Agree now k s s' a = elim (a.covers k) [
    | inr x ↦
        let (t, (e, old)) = Stale-old now (lookup k s'.recent_disconnects) x.1 in
        rw (check_known-none k now s x.0, check_known_old k now t s' e old) a
    | inl e ↦ elim (Option-cases (lookup k s'.recent_disconnects)) [
      | inl n ↦ rw (check_known-none k now s (e ∙ n), check_known-none k now s' n) a
      | inr (t, f) ↦ elim (Bool-cases (is_recent window t now)) [
        | inl h ↦ both_recent-Agree now t k s s' a (e ∙ f) f h
        | inr h ↦ rw (check_known_old k now t s (e ∙ f) h, check_known_old k now t s' f h) a
      ]
    ]
  ]

  check_reconnection-Agree :
      (now : ℕ) (c : Option Text) (s s' : Reconnections)
      → Agree now s s'
      → Agree now (check_reconnection window c now s) (check_reconnection window c now s')
  unfolding check_reconnection
  check_reconnection-Agree now c s s' a = elim (Bool-cases (is_missing c)) [
    | inl e ↦ rw e a
    | inr e ↦ rw e (check_known-Agree now (value_of c) s s' a)
  ]

  track_disconnection-Agree :
      (now : ℕ) (c : Option Text) (s s' : Reconnections)
      → Agree now s s'
      → Agree now (track_disconnection c now s) (track_disconnection c now s')
  unfolding track_disconnection
  track_disconnection-Agree now c s s' a = elim (Bool-cases (is_missing c)) [
    | inl e ↦ rw e a
    | inr e ↦ rw e record {
      observations = a.observations;
      distinct = Distinct-set (value_of c) now s.recent_disconnects a.distinct;
      distinct' = Distinct-set (value_of c) now s'.recent_disconnects a.distinct';
      covers =
          Covers-set window now (value_of c) now s.recent_disconnects s'.recent_disconnects
            a.covers;
    }
  ]

  cleanup_old_disconnects-Agree :
      (now : ℕ) (s s' : Reconnections)
      → Agree now s s'
      → Agree now (cleanup_old_disconnects window now s) s'
  unfolding cleanup_old_disconnects
  cleanup_old_disconnects-Agree now s s' a = record {
    observations = a.observations;
    distinct = Distinct-drop_old window now s.recent_disconnects a.distinct;
    distinct' = a.distinct';
    covers =
        Covers-drop_old window now s.recent_disconnects s'.recent_disconnects a.distinct a.covers;
  }

  later-Agree :
      (now later : ℕ) (s s' : Reconnections) → now ≤ later → Agree now s s' → Agree later s s'
  later-Agree now later s s' h a = record {
    observations = a.observations;
    distinct = a.distinct;
    distinct' = a.distinct';
    covers = Covers-later window now later s.recent_disconnects s'.recent_disconnects h a.covers;
  }

-- The clock does not go back.
abbrev pub Rising : ℕ → List Event → Type 0
Rising now [] = Unit {0}
Rising now (e ∷ es) = (now ≤ time_of e) × Rising (time_of e) es

abbrev pub without_maintenance : List Event → List Event
without_maintenance [] = []
without_maintenance (disconnected c t ∷ es) = disconnected c t ∷ without_maintenance es
without_maintenance (connected c t ∷ es) = connected c t ∷ without_maintenance es
without_maintenance (maintained t ∷ es) = without_maintenance es

module _ (window : ℕ) where
  run-Agree :
      (now : ℕ) (es : List Event) (s s' : Reconnections)
      → Rising now es
      → Agree window now s s'
      → (run window es s).observed ≡ (run window (without_maintenance es) s').observed
  unfolding run step
  run-Agree now [] s s' r a = a.observations
  run-Agree now (disconnected c t ∷ es) s s' r a =
      run-Agree t es (track_disconnection c t s) (track_disconnection c t s') r.1
        (track_disconnection-Agree window t c s s' (later-Agree window now t s s' r.0 a))
  run-Agree now (connected c t ∷ es) s s' r a =
      run-Agree t es (check_reconnection window c t s) (check_reconnection window c t s') r.1
        (check_reconnection-Agree window t c s s' (later-Agree window now t s s' r.0 a))
  run-Agree now (maintained t ∷ es) s s' r a =
      run-Agree t es (cleanup_old_disconnects window t s) s' r.1
        (cleanup_old_disconnects-Agree window t s s' (later-Agree window now t s s' r.0 a))

  fresh-Agree : Agree window 0 no_reconnections no_reconnections
  unfolding no_reconnections
  fresh-Agree = record {
    observations = refl;
    distinct = tt;
    distinct' = tt;
    covers = λ k. inl refl;
  }

  -- While the clock does not go back, the maintenance loop changes nothing of what is observed: a run
  -- observes the same reconnection times, in the same order, as the run without its clean-ups.
  pub run-without_maintenance :
      (es : List Event)
      → Rising 0 es
      → (run window es no_reconnections).observed
        ≡ (run window (without_maintenance es) no_reconnections).observed
  run-without_maintenance es r = run-Agree 0 es no_reconnections no_reconnections r fresh-Agree
