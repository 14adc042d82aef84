-- ===== src/Prelude/Faults.antt =====
-- A run of C code that can meet undefined behaviour. A fault is not an error that the code
-- reports: it is a step that the C language gives no meaning to.
use mathlib.Core.Path.{◌≡◌, refl, subst}

-- `stray_write` is a write behind what the function has to write, inside or outside the buffer that it
-- writes to; the run is not followed behind it. `out_of_fuel` is no fault of the code: a recursion of the model on fuel has none left, which a
-- theorem rules out.
pub data Fault : Type 0 where
  out_of_bounds division_by_zero null_pointer dangling_pointer invalid_free : Fault
  bad_shift assertion_failed stray_write out_of_fuel : Fault

pub data Run {ℓ} (Result : Type ℓ) : Type ℓ where
  fault : Fault → Run Result
  ok : Result → Run Result

-- The run meets no undefined behaviour and ends in a value that satisfies `P`.
abbrev pub Returns {ℓ κ} : {Result : Type ℓ} → Run Result → (Result → Type κ) → Type (ℓ ⊔ κ)
Returns {Result} run P = (value : Result) × (run ≡ ok value) × P value

-- After a fault nothing runs.
infixl 5 ◌>>=◌
abbrev pub ◌>>=◌ {ℓ κ} : {X : Type ℓ} {Y : Type κ} → Run X → (X → Run Y) → Run Y
fault cause >>= next = fault cause
ok value >>= next = next value

pub Returns-bind {ℓ κ ι μ} :
    {A : Type ℓ} {B : Type κ} (P : A → Type ι) (Q : B → Type μ) (r : Run A) (f : A → Run B)
    → Returns r P
    → ((a : A) → P a → Returns (f a) Q)
    → Returns (r >>= f) Q
Returns-bind P Q (ok a) f (b, e, p) h = h a (subst P (cc) p)
Returns-bind P Q (fault x) f (b, e, p) h = cc

pub ok_injective {ℓ} : {A : Type ℓ} {a b : A} → ok a ≡ ok b → a ≡ b
ok_injective e = cc

-- What ran to the end ran to the end in its first part.
pub bind-ok {ℓ κ} :
    {A : Type ℓ} {B : Type κ} (r : Run A) (f : A → Run B) (b : B)
    → r >>= f ≡ ok b
    → (a : A) × (r ≡ ok a) × (f a ≡ ok b)
bind-ok (ok a) f b e = (a, refl, e)
bind-ok (fault x) f b e = absurd (cc)
