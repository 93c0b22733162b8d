-- ===== src/Start/Machine/Chain.antt =====
-- The chains of fallible calls of `main` in src/main.rs: what holds of the value when all succeed.
use ferrvm.Prelude.{◌≡◌, refl, Option, none, some, Result, ok, err}
use ferrvm.Vm.Calls.{returns}
use ferrvm.Start.Machine.{and_then, present, lifted}

-- What holds of the value of a chain that succeeded.
unfoldable pub OnOk : {S E A : Type 0} → (A → Type 0) → Result E A × S → Type 0
OnOk P (ok a, s) = P a
OnOk P (err e, s) = Unit

pub on_ok :
    {S E A : Type 0} (P : A → Type 0) (out : Result E A × S) (a : A) (s : S)
    → OnOk P out
    → out ≡ (ok a, s)
    → P a
unfolding OnOk
on_ok P (ok b, s₁) a s h e = let same : b ≡ a = cc in rw (← same) h
on_ok P (err b, s₁) a s h e = absurd (cc)

pub on_returns :
    {S A : Type 0} (E : Type 0) (P : A → Type 0) (a : A) (s : S)
    → P a
    → OnOk {E = E} P (returns a s)
unfolding OnOk
on_returns E P a s h = h

pub on_bind :
    {S E A B : Type 0} (P : B → Type 0) (f : A → S → Result E B × S) (out : Result E A × S)
    → ((a : A) (s : S) → out ≡ (ok a, s) → OnOk P (f a s))
    → OnOk P (and_then f out)
unfolding OnOk and_then
on_bind P f (ok a, s) h = h a s refl
on_bind P f (err e, s) h = tt

pub present_ok :
    {S E A : Type 0} (e : E) (o : Option A) (a : A) (s s' : S)
    → present e o s ≡ (ok a, s')
    → o ≡ some a
present_ok e none a s s' h = absurd (cc)
present_ok e (some b) a s s' h = cc

pub lifted_ok :
    {S E F A : Type 0} (f : E → F) (r : Result E A) (a : A) (s s' : S)
    → lifted f r s ≡ (ok a, s')
    → r ≡ ok a
lifted_ok f (ok b) a s s' h = cc
lifted_ok f (err e) a s s' h = absurd (cc)
