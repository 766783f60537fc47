-- ===== src/Client/SharedSocket/Branches.antt =====
-- What holds of every branch of a match holds of the match.
use vip_real_time_collaborat.Base.{◌≡◌, refl, Bool, true, false, Option, none, some, if◌then◌else◌}
use vip_real_time_collaborat.Protocol.Reader.{Result, ok, err}

pub by_option :
    {A B : Type 0} (P : B → Type 0) (n : B) (f : A → B) (o : Option A)
    → (o ≡ none → P n)
    → ((a : A) → o ≡ some a → P (f a))
    → P (elim o as (λ x. B) [ none ↦ n | some a ↦ f a ])
by_option P n f none h k = h refl
by_option P n f (some a) h k = k a refl

pub by_test :
    {B : Type 0} (P : B → Type 0) (b : Bool) (x y : B)
    → (b ≡ true → P x)
    → (b ≡ false → P y)
    → P (if b then x else y)
by_test P true x y h k = h refl
by_test P false x y h k = k refl

pub by_result :
    {A B : Type 0} (P : B → Type 0) (f : A → B) (n : B) (r : Result A)
    → ((a : A) → r ≡ ok a → P (f a))
    → P n
    → P (elim r as (λ x. B) [ ok a ↦ f a | err e ↦ n ])
by_result P f n (ok a) h k = h a refl
by_result P f n (err e) h k = k
