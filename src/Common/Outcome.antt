-- ===== src/Common/Outcome.antt =====
-- How a routine ends: with a value, or by stopping the program.
use Prim.Native.String.{String}
use mathlib.Core.Path.{◌≡◌, refl}
use hif_frontend.Common.{ℕ, Bool, true, false, leb, ◌⊎◌, inl, inr, ◌≤◌, arith, if◌then◌else◌}
use hif_frontend.Common.Int.{ℤ, pos, negsuc}

pub data Error : Type 0 where
  -- `messageError`, a failed `messageAssert`, or `yyerror`: the message
  fatal : String → Error
  -- C++ gives no meaning: an `int` left its range
  undefined : Error
  -- the standard library throws: an index past the end of a string
  out_of_range : Error

pub data Result {ℓ} (Answer : Type ℓ) : Type ℓ where
  -- it returns
  ok : Answer → Result Answer
  -- it stops the program
  err : (reason : Error) → Result Answer

-- What follows a call, and what follows a check that returns nothing.
abbrev pub ◌>>=◌ {κ μ} :
    {Answer : Type κ} {Next : Type μ} → Result Answer → (Answer → Result Next) → Result Next
err reason >>= rest = err reason
ok answer >>= rest = rest answer

abbrev pub ◌>>◌ {μ} : {Next : Type μ} → Result (Unit {0}) → Result Next → Result Next
check >> rest = check >>= λ _. rest

infixl 5 ◌>>=◌ ◌>>◌
-- `messageAssert(b, s, …)`.
abbrev pub message_assert : Bool → String → Result (Unit {0})
message_assert true s = ok tt
message_assert false s = err (fatal s)

pub >>=_assoc {ℓ κ μ} :
    {A : Type ℓ} {B : Type κ} {C : Type μ} (m : Result A) (f : A → Result B) (g : B → Result C)
    → (m >>= λ a. f a >>= g) ≡ (m >>= f) >>= g
>>=_assoc (ok a) f g = refl
>>=_assoc (err e) f g = refl

pub Result-cases {ℓ} :
    {A : Type ℓ} (m : Result A) → ((a : A) × (m ≡ ok a)) ⊎ ((e : Error) × (m ≡ err e))
Result-cases (ok a) = inl (a, refl)
Result-cases (err e) = inr (e, refl)

-- A call that returns, with something behind it, returned first.
pub >>=-eq-ok {κ μ} :
    {Answer : Type κ} {Next : Type μ} (call : Result Answer) (rest : Answer → Result Next)
    {last : Next}
    → (call >>= rest) ≡ ok last
    → (answer : Answer) × (call ≡ ok answer) × (rest answer ≡ ok last)
>>=-eq-ok (err reason) rest returns = cc
>>=-eq-ok (ok answer) rest returns = (answer, refl, returns)

abbrev pub int_max : ℕ
int_max = 2147483647

-- The value of an `int` expression, if it lies in the range of an `int` of 32 bits.
unfoldable pub checked : ℤ → Result ℤ
checked (pos n) = if leb n int_max then ok (pos n) else err undefined
checked (negsuc n) = if leb n int_max then ok (negsuc n) else err undefined

pub checked-ok : (a : ℤ) (n : ℕ) → checked a ≡ ok (pos n) → (a ≡ pos n) × (n ≤ int_max)
unfolding checked
checked-ok (pos m) n h = ground arith
checked-ok (negsuc m) n h = ground arith
