-- ===== src/Server/Start/Decimal.antt =====
-- websocket-server/config.ts: the limits that the environment writes in decimal are those of the server.
use mathlib.Core.Option.{some-injective}
use vip_real_time_collaborat.Base.{
  ℕ, zero, suc, ◌+◌, ◌-◌, ◌*◌, ◌/◌, ◌%◌, ◌≤◌, ◌<◌, ◌≡◌, refl, sym, ap, ◌∙◌, true, Option, none,
  some, List, [], ◌∷◌, ◌++◌, All, arith, ◌==◌, ltb, length, if◌then◌else◌, Bool-cases, inl, inr,
}
use vip_real_time_collaborat.Base.Text.{Text, or_text}
use vip_real_time_collaborat.Base.Integers.{pos}
use vip_real_time_collaborat.Base.ParseInt.{
  is_digit, digits_value, parse_digits, skip_white_space, parse_int,
}
use vip_real_time_collaborat.Server.{Event, run, new_server}
use vip_real_time_collaborat.Server.Limits.{Config, get_active_collaborator_count}
use vip_real_time_collaborat.Server.Limits.Counts.{admitted}
use vip_real_time_collaborat.Server.Capacity.{run_connections_bounded, run_collaborators_bounded}
use vip_real_time_collaborat.Server.Start.{
  Environment, Process, parse_int_from_env, config_of, start_process,
}

-- A number in decimal, without leading zeros.
unfoldable pub digits : ℕ → ℕ → Text
digits zero n = []
digits (suc fuel) n =
    let more = digits fuel (n / 10) in
    if ltb n 10 then (48 + n) ∷ [] else more ++ (48 + n % 10) ∷ []

unfoldable pub decimal : ℕ → Text
unfolding digits
decimal n = digits (suc n) n

abbrev AllDigits : Text → Type 0
AllDigits = All (λ c. is_digit c ≡ true)

AllDigits-append : (xs : Text) (c : ℕ) → AllDigits xs → is_digit c ≡ true → AllDigits (xs ++ c ∷ [])
AllDigits-append [] c a h = (h, tt)
AllDigits-append (x ∷ xs) c (k, a) h = (k, AllDigits-append xs c a h)

digits-AllDigits : (fuel n : ℕ) → AllDigits (digits fuel n)
unfolding digits
digits-AllDigits zero n = tt
digits-AllDigits (suc fuel) n = elim (Bool-cases (ltb n 10)) [
  | inl e ↦ rw e (ground (arith, e), tt)
  | inr e ↦ rw e (
      AllDigits-append (digits fuel (n / 10)) (48 + n % 10) (digits-AllDigits fuel (n / 10))
        (ground arith))
]

digits_value-append :
    (read : ℕ) (xs : Text) (c : ℕ)
    → AllDigits xs
    → is_digit c ≡ true
    → digits_value read (xs ++ c ∷ []) ≡ digits_value read xs * 10 + (c - 48)
unfolding digits_value
digits_value-append read [] c a h = rw h refl
digits_value-append read (x ∷ xs) c (k, a) h =
    rw k (digits_value-append (read * 10 + (x - 48)) xs c a h)

smaller : (n : ℕ) → 10 ≤ n → n / 10 < n
smaller n h = omega (arith, h)

digits_value-digits : (fuel n : ℕ) → n < fuel → digits_value 0 (digits fuel n) ≡ n
unfolding digits_value digits
digits_value-digits zero n h = absurd (omega (arith, h))
digits_value-digits (suc fuel) n h = elim (Bool-cases (ltb n 10)) [
  | inl e ↦ rw e (ground (arith, e))
  | inr e ↦ rw e (
      digits_value-append 0 (digits fuel (n / 10)) (48 + n % 10) (digits-AllDigits fuel (n / 10))
        (ground arith)
      ∙ omega (
        arith,
        digits_value-digits fuel (n / 10) (omega (arith, h, smaller n (ground (arith, e)))),
      ))
]

digits_present : (fuel n : ℕ) → 0 < length (digits (suc fuel) n)
unfolding digits
digits_present fuel n = elim (Bool-cases (ltb n 10)) [
  | inl e ↦ rw e (omega arith)
  | inr e ↦ rw e (present (digits fuel (n / 10)) (48 + n % 10))
]
  where
    present : (xs : Text) (c : ℕ) → 0 < length (xs ++ c ∷ [])
    present [] c = omega arith
    present (x ∷ xs) c = omega arith

parse_int-AllDigits :
    (xs : Text) → AllDigits xs → 0 < length xs → parse_int xs ≡ some (pos (digits_value 0 xs))
unfolding parse_int skip_white_space parse_digits
parse_int-AllDigits [] a h = absurd (omega (arith, h))
parse_int-AllDigits (c ∷ xs) (k, a) h = ground (arith, k)

parse_int-decimal : (n : ℕ) → parse_int (decimal n) ≡ some (pos n)
unfolding decimal
parse_int-decimal n =
    parse_int-AllDigits (digits (suc n) n) (digits-AllDigits (suc n) n) (digits_present n n)
    ∙ ap (λ v. some (pos v)) (digits_value-digits (suc n) n (omega arith))

-- A variable that is not set, or is set to a number in decimal.
abbrev pub written : Option ℕ → Option Text
written none = none
written (some n) = some (decimal n)

abbrev pub given_or : ℕ → Option ℕ → ℕ
given_or default_value none = default_value
given_or default_value (some n) = n

parse_int_from_env-written :
    (o : Option ℕ) (default_value : ℕ)
    → parse_int_from_env (written o) default_value ≡ pos (given_or default_value o)
unfolding parse_int_from_env parse_int skip_white_space
parse_int_from_env-written none default_value = refl
parse_int_from_env-written (some n) default_value = rw (parse_int-decimal n) refl

start_process-config :
    (env : Environment) (p : Process) → start_process env ≡ some p → p.config ≡ config_of env
unfolding start_process
start_process-config env p e =
    elim (Bool-cases (length (or_text env.vip_rtc_ws_auth_secret []) == 0)) [
      | inl k ↦ absurd (cc (rw k at e))
      | inr k ↦ sym (ap Process.config (some-injective _ p (rw k at e)))
    ]

-- A process that starts with the limits on connections and collaborators each not set or written in decimal:
-- whatever connects, times out and closes, in any order, the sockets with an admitted connection that are
-- not closed, and the users that have one, are at most what is written, or 1500 and 300 where it is not.
pub start_process_bounded :
    (env : Environment) (p : Process) (connections collaborators : Option ℕ) (es : List Event)
    → env.vip_rtc_ws_max_connections ≡ written connections
    → env.vip_rtc_ws_max_collaborators ≡ written collaborators
    → start_process env ≡ some p
    → let clients = (run p.config es new_server).clients in
      (admitted clients ≤ given_or 1500 connections)
      × (get_active_collaborator_count clients ≤ given_or 300 collaborators)
unfolding config_of
start_process_bounded env p connections collaborators es c u e =
    let same = start_process-config env p e in
    (
      run_connections_bounded p.config (given_or 1500 connections) es (
          ap Config.max_connections same
          ∙ (ap (λ t. parse_int_from_env t 1500) c ∙ parse_int_from_env-written connections 1500)),
      run_collaborators_bounded p.config (given_or 300 collaborators) es (
          ap Config.max_collaborators same
          ∙ (ap (λ t. parse_int_from_env t 300) u ∙ parse_int_from_env-written collaborators 300)),
    )
