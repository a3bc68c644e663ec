-- ===== src/Host/After.antt =====
-- What holds of a call's value, if it returns one: an exception leaves no state behind.
use cs144_minnow.Base.{◌≡◌, refl, Bool, true, false, if◌then◌else◌}
use cs144_minnow.Base.Outcome.{Outcome, ok, throws, undefined, stuck, ◌>>=◌}

abbrev pub After {ℓ κ} : {A : Type ℓ} → (A → Type κ) → Outcome A → Type κ
After P (ok a) = P a
After P throws = Unit {_}
After P undefined = Unit {_}
After P stuck = Unit {_}

module _ {ℓ κ} {A : Type ℓ} (P : A → Type κ) where
  pub After-if :
      (b : Bool) (m n : Outcome A)
      → (b ≡ true → After P m)
      → (b ≡ false → After P n)
      → After P (if b then m else n)
  After-if true m n hm hn = hm refl
  After-if false m n hm hn = hn refl

  pub After-bind {ℓ' κ'} :
      {B : Type ℓ'} (Q : B → Type κ') (m : Outcome B) (f : B → Outcome A)
      → After Q m
      → ((b : B) → Q b → After P (f b))
      → After P (m >>= f)
  After-bind Q (ok b) f h k = k b h
  After-bind Q throws f h k = tt
  After-bind Q undefined f h k = tt
  After-bind Q stuck f h k = tt

pub After-any {ℓ κ} : {A : Type ℓ} (P : Type κ) (m : Outcome A) → P → After (λ (_ : A). P) m
After-any P (ok a) h = h
After-any P throws h = tt
After-any P undefined h = tt
After-any P stuck h = tt

pub After-map {ℓ κ κ'} :
    {A : Type ℓ} (P : A → Type κ) (Q : A → Type κ') (m : Outcome A)
    → After P m
    → ((a : A) → P a → Q a)
    → After Q m
After-map P Q (ok a) h k = k a h
After-map P Q throws h k = tt
After-map P Q undefined h k = tt
After-map P Q stuck h k = tt

-- The call comes to an end: it does not run out of fuel, and if it returns a value, P holds of it.
abbrev pub Ends {ℓ} : {A : Type ℓ} → (A → Type 0) → Outcome A → Type 0
Ends P (ok a) = P a
Ends P throws = Unit {0}
Ends P undefined = Unit {0}
Ends P stuck = ⊥

pub Ends-bind {ℓ ℓ'} :
    {A : Type ℓ} {B : Type ℓ'} (P : A → Type 0) (Q : B → Type 0) (m : Outcome B) (f : B → Outcome A)
    → Ends Q m
    → ((b : B) → Q b → Ends P (f b))
    → Ends P (m >>= f)
Ends-bind P Q (ok b) f h k = k b h
Ends-bind P Q throws f h k = tt
Ends-bind P Q undefined f h k = tt
Ends-bind P Q stuck f h k = absurd h

pub Ends-if {ℓ} :
    {A : Type ℓ} (P : A → Type 0) (b : Bool) (m n : Outcome A)
    → Ends P m
    → Ends P n
    → Ends P (if b then m else n)
Ends-if P true m n hm hn = hm
Ends-if P false m n hm hn = hn
