-- ===== src/Base/Results.antt =====
-- Rust's Result: the error type is a parameter, and `?` is a bind.
use mathlib.Core.Path.{◌≡◌, refl}
use mathlib.Core.Bool.{Bool, true, false}
use muxtls.Base.Tests.{if◌then◌else◌}
use mathlib.Core.Option.{Option, none, some}

pub data Result {ℓ} (E : Type 0) (A : Type ℓ) : Type ℓ where
  ok : A → Result E A
  err : E → Result E A

module _ {E : Type 0} where
  infixl 5 ◌>>=◌ ◌>>◌
  -- `?`: the error leaves the function at once.
  abbrev pub ◌>>=◌ {ℓ κ} :
      {A : Type ℓ} {B : Type κ} (tried : Result E A) (next : A → Result E B) → Result E B
  err e >>= next = err e
  ok value >>= next = next value

  abbrev pub ◌>>◌ {ℓ} : {B : Type ℓ} (check : Result E (Unit {0})) (next : Result E B) → Result E B
  err e >> next = err e
  ok tt >> next = next

  -- An early return of an error when the test passes.
  abbrev pub fail_if : Bool → E → Result E (Unit {0})
  fail_if true e = err e
  fail_if false e = ok tt

  -- `ok_or`.
  abbrev pub ok_or {ℓ} : {A : Type ℓ} → Option A → E → Result E A
  ok_or none e = err e
  ok_or (some a) e = ok a

  -- What a sequence returns comes from the first step's value.
  pub >>=-eq-ok {ℓ κ} :
      {A : Type ℓ} {B : Type κ} (tried : Result E A) (next : A → Result E B) {b : B}
      → (tried >>= next) ≡ ok b
      → (a : A) × (tried ≡ ok a) × (next a ≡ ok b)
  >>=-eq-ok (err e) next h = cc
  >>=-eq-ok (ok a) next h = (a, refl, h)

-- `?` where the error types differ, and `map_err`.
abbrev pub map_err {ℓ} : {E F : Type 0} {A : Type ℓ} → (E → F) → Result E A → Result F A
map_err f (ok a) = ok a
map_err f (err e) = err (f e)

-- Every result that is no error satisfies `P`.
abbrev pub Yields : {E A : Type 0} → (A → Type 0) → Result E A → Type 0
Yields P (ok a) = P a
Yields P (err e) = Unit

pub Yields->>= :
    {E A B : Type 0} (P : A → Type 0) (Q : B → Type 0) (m : Result E A) (f : A → Result E B)
    → Yields P m
    → ((a : A) → P a → Yields Q (f a))
    → Yields Q (m >>= f)
Yields->>= P Q (ok a) f h k = k a h
Yields->>= P Q (err e) f h k = tt

pub Yields-any : {E A : Type 0} (m : Result E A) → Yields (λ (a : A). Unit {0}) m
Yields-any (ok a) = tt
Yields-any (err e) = tt

-- Behind a check, the check's success may be used.
pub Yields-fail_if :
    {E A : Type 0} (P : A → Type 0) (b : Bool) (e : E) (m : Result E A)
    → (b ≡ false → Yields P m)
    → Yields P (fail_if b e >> m)
Yields-fail_if P true e m h = tt
Yields-fail_if P false e m h = h refl

pub Yields-if :
    {E A : Type 0} (P : A → Type 0) (b : Bool) (m n : Result E A)
    → (b ≡ true → Yields P m)
    → (b ≡ false → Yields P n)
    → Yields P (if b then m else n)
Yields-if P true m n h k = h refl
Yields-if P false m n h k = k refl

-- Every result satisfies `P`, and every error `Q`.
abbrev pub Ends {ℓ} : {E : Type 0} {A : Type ℓ} → (A → Type 0) → (E → Type 0) → Result E A → Type 0
Ends P Q (ok a) = P a
Ends P Q (err e) = Q e

pub Ends->>= {ℓ κ} :
    {E : Type 0} {A : Type ℓ} {B : Type κ} (P : B → Type 0) (Q : E → Type 0) (m : Result E A)
    (f : A → Result E B)
    → ((a : A) → m ≡ ok a → Ends P Q (f a))
    → ((e : E) → m ≡ err e → Q e)
    → Ends P Q (m >>= f)
Ends->>= P Q (ok a) f h k = h a refl
Ends->>= P Q (err e) f h k = k e refl

pub Ends-map_err {ℓ κ} :
    {E F : Type 0} {A : Type ℓ} {B : Type κ} (P : B → Type 0) (Q : F → Type 0) (g : E → F)
    (m : Result E A) (f : A → Result F B)
    → ((a : A) → m ≡ ok a → Ends P Q (f a))
    → ((e : E) → m ≡ err e → Q (g e))
    → Ends P Q (map_err g m >>= f)
Ends-map_err P Q g (ok a) f h k = h a refl
Ends-map_err P Q g (err e) f h k = k e refl

pub Ends-fail_if {ℓ} :
    {E : Type 0} {A : Type ℓ} (P : A → Type 0) (Q : E → Type 0) (b : Bool) (e : E) (m : Result E A)
    → (b ≡ false → Ends P Q m)
    → (b ≡ true → Q e)
    → Ends P Q (fail_if b e >> m)
Ends-fail_if P Q true e m h k = k refl
Ends-fail_if P Q false e m h k = h refl

pub Ends-mono {ℓ} :
    {E : Type 0} {A : Type ℓ} (P P' : A → Type 0) (Q Q' : E → Type 0) (m : Result E A)
    → ((a : A) → P a → P' a)
    → ((e : E) → Q e → Q' e)
    → Ends P Q m
    → Ends P' Q' m
Ends-mono P P' Q Q' (ok a) h k p = h a p
Ends-mono P P' Q Q' (err e) h k p = k e p

-- The second step may use what holds after the first.
pub Ends-seq {ℓ κ} :
    {E : Type 0} {A : Type ℓ} {B : Type κ} (P : A → Type 0) (Q : E → Type 0) (P' : B → Type 0)
    (Q' : E → Type 0) (m : Result E A) (f : A → Result E B)
    → Ends P Q m
    → ((a : A) → P a → Ends P' Q' (f a))
    → ((e : E) → Q e → Q' e)
    → Ends P' Q' (m >>= f)
Ends-seq P Q P' Q' (ok a) f p h k = h a p
Ends-seq P Q P' Q' (err e) f q h k = k e q

-- Inversion of a success behind a check, a sequence and a mapped error.
pub fail_if-eq-ok {ℓ} :
    {E : Type 0} {A : Type ℓ} (b : Bool) (e : E) (m : Result E A) {a : A}
    → (fail_if b e >> m) ≡ ok a
    → (b ≡ false) × (m ≡ ok a)
fail_if-eq-ok true e m h = absurd (cc)
fail_if-eq-ok false e m h = (refl, h)

pub >>-eq-ok {ℓ} :
    {E : Type 0} {A : Type ℓ} (check : Result E (Unit {0})) (m : Result E A) {a : A}
    → (check >> m) ≡ ok a
    → (check ≡ ok tt) × (m ≡ ok a)
>>-eq-ok (ok tt) m h = (refl, h)
>>-eq-ok (err e) m h = absurd (cc)

pub map_err-eq-ok {ℓ} :
    {E F : Type 0} {A : Type ℓ} (f : E → F) (m : Result E A) {a : A} → map_err f m ≡ ok a → m ≡ ok a
map_err-eq-ok f (ok b) h = cc
map_err-eq-ok f (err e) h = absurd (cc)
