-- ===== src/Server/Http/Steps.antt =====
-- What a handler has passed when it answers well: one lemma for each kind of step.
use trasker.Prelude.{
  ℕ, ◌≡◌, refl, Bool, true, false, Option, none, some, String, Result, ok, err, arith,
}
use trasker.Server.Tables.{StoreError, not_found, failed}
use trasker.Server.Http.{Failure, ◌>>=◌, ◌>>◌, check, present, stored, answered}

pub bind_ok :
    {E A B : Type 0} (m : Result E A) (f : A → Result E B) (b : B)
    → (m >>= f) ≡ ok b
    → (a : A) × (m ≡ ok a) × (f a ≡ ok b)
bind_ok (err x) f b h = absurd (cc)
bind_ok (ok a) f b h = (a, refl, h)

pub check_ok :
    {B : Type 0} (test : Bool) (status : ℕ) (error : String) (rest : Result Failure B) (b : B)
    → (check test status error >> rest) ≡ ok b
    → (test ≡ true) × (rest ≡ ok b)
check_ok true status error rest b h = (refl, h)
check_ok false status error rest b h = absurd (cc)

pub present_ok :
    {A B : Type 0} (o : Option A) (status : ℕ) (error : String) (f : A → Result Failure B) (b : B)
    → (present o status error >>= f) ≡ ok b
    → (a : A) × (o ≡ some a) × (f a ≡ ok b)
present_ok none status error f b h = absurd (cc)
present_ok (some a) status error f b h = (a, refl, h)

pub stored_ok :
    {A B : Type 0} (r : Result StoreError A) (missing broken : Failure) (f : A → Result Failure B)
    (b : B)
    → (stored r missing broken >>= f) ≡ ok b
    → (a : A) × (r ≡ ok a) × (f a ≡ ok b)
stored_ok (ok a) missing broken f b h = (a, refl, h)
stored_ok (err not_found) missing broken f b h = absurd (cc)
stored_ok (err failed) missing broken f b h = absurd (cc)

pub answered_ok :
    {A : Type 0} (r : Result StoreError A) (status : ℕ) (error : String) (a : A)
    → answered r status error ≡ ok a
    → r ≡ ok a
answered_ok (ok x) status error a h = ground (arith, h)
answered_ok (err x) status error a h = absurd (cc)

pub present_last :
    {A : Type 0} (o : Option A) (status : ℕ) (error : String) (a : A)
    → present o status error ≡ ok a
    → o ≡ some a
present_last none status error a h = absurd (cc)
present_last (some x) status error a h = ground (arith, h)

pub answered_then :
    {A B : Type 0} (r : Result StoreError A) (status : ℕ) (error : String)
    (f : A → Result Failure B) (b : B)
    → (answered r status error >>= f) ≡ ok b
    → (a : A) × (r ≡ ok a) × (f a ≡ ok b)
answered_then (ok a) status error f b h = (a, refl, h)
answered_then (err x) status error f b h = absurd (cc)
