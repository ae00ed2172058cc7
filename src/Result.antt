-- ===== src/Result.antt =====
-- What a function of the library returns: 1 with its outputs, or -1 with an error. The error is
-- the one that libcerror records first; the calls above it only add their own message to it.
use mathlib.Core.Path.{subst}
use libfsxfs.Prelude.{if◌then◌else◌, ◌≡◌, refl, Bool, true, false, Option, none, some}

-- The libcerror codes that the modelled code sets.
pub data Error : Type 0 where
  value_out_of_bounds unsupported_value value_missing read_failed append_failed : Error
  get_failed set_failed copy_failed invalid_value initialize_failed : Error
  value_exceeds_maximum seek_failed generic_error value_already_set : Error

-- `fault` is a read outside the buffer, which C leaves undefined. `exhausted` is no C value: the
-- model's fuel ran out.
pub data Result {ℓ} (A : Type ℓ) : Type ℓ where
  ok : A → Result A
  err : Error → Result A
  fault : Result A
  exhausted : Result A

-- A call that does not return 1 ends its caller.
abbrev pub ◌>>=◌ {κ ℓ} : {X : Type κ} {Y : Type ℓ} → Result X → (X → Result Y) → Result Y
fault >>= next = fault
exhausted >>= next = exhausted
err code >>= next = err code
ok x >>= next = next x

infixl 5 ◌>>=◌ ◌>>◌
abbrev pub ◌>>◌ {κ} : {Y : Type κ} → Result (Unit {0}) → Result Y → Result Y
check >> next = check >>= λ _. next

-- `if( test ) { libcerror_error_set( ... ); return( -1 ); }`
abbrev pub fail_if : Bool → Error → Result (Unit {0})
fail_if true e = err e
fail_if false e = ok tt

-- A call of a library that fails with -1.
abbrev pub or_fail {ℓ} : {A : Type ℓ} → Option A → Error → Result A
or_fail none e = err e
or_fail (some a) e = ok a

-- The call ends inside its buffers, and what it returns satisfies `P`.
abbrev pub Ensures {ℓ} : {A : Type ℓ} → (A → Type 0) → Result A → Type 0
Ensures P (ok a) = P a
Ensures P (err e) = Unit
Ensures P fault = ⊥
Ensures P exhausted = ⊥

abbrev pub IsTotal {ℓ} : {A : Type ℓ} → Result A → Type 0
IsTotal r = Ensures (λ _. Unit {0}) r

-- The call returns 1.
abbrev pub Succeeds {ℓ} : {A : Type ℓ} → Result A → Type 0
Succeeds (ok a) = Unit
Succeeds (err e) = ⊥
Succeeds fault = ⊥
Succeeds exhausted = ⊥

module _ {ℓ κ} {A : Type ℓ} {B : Type κ} where
  pub Succeeds->>= :
      (m : Result A) (f : A → Result B)
      → Succeeds m
      → ((a : A) → Succeeds (f a))
      → Succeeds (m >>= f)
  Succeeds->>= (ok a) f h k = k a
  Succeeds->>= (err e) f h k = absurd h
  Succeeds->>= fault f h k = absurd h
  Succeeds->>= exhausted f h k = absurd h

  -- What a bind ensures, from what its parts ensure.
  pub Ensures-bind :
      (P : A → Type 0) (Q : B → Type 0) (m : Result A) (f : A → Result B)
      → Ensures P m
      → ((a : A) → P a → Ensures Q (f a))
      → Ensures Q (m >>= f)
  Ensures-bind P Q (ok a) f h k = k a h
  Ensures-bind P Q (err e) f h k = tt
  Ensures-bind P Q fault f h k = absurd h
  Ensures-bind P Q exhausted f h k = absurd h

  -- The same, where what follows also uses that `m` gave `a`.
  pub Ensures-bind_eq :
      (P : A → Type 0) (Q : B → Type 0) (m : Result A) (f : A → Result B)
      → Ensures P m
      → ((a : A) → m ≡ ok a → P a → Ensures Q (f a))
      → Ensures Q (m >>= f)
  Ensures-bind_eq P Q (ok a) f h k = k a refl h
  Ensures-bind_eq P Q (err e) f h k = tt
  Ensures-bind_eq P Q fault f h k = absurd h
  Ensures-bind_eq P Q exhausted f h k = absurd h

module _ {ℓ} {A : Type ℓ} where
  pub Ensures_of_ok : (P : A → Type 0) (r : Result A) {a : A} → Ensures P r → r ≡ ok a → P a
  Ensures_of_ok P (ok a) {a = b} h e = let p : a ≡ b = cc in subst P p h
  Ensures_of_ok P (err x) h e = absurd (let x : ⊥ = cc in x)
  Ensures_of_ok P fault h e = absurd h
  Ensures_of_ok P exhausted h e = absurd h

  -- A guard is passed only when its test is false.
  pub Ensures-fail_if :
      (P : A → Type 0) (b : Bool) (e : Error) (r : Result A)
      → (b ≡ false → Ensures P r)
      → Ensures P (fail_if b e >> r)
  Ensures-fail_if P true e r h = tt
  Ensures-fail_if P false e r h = h refl

  pub Ensures-mono :
      (P Q : A → Type 0) (r : Result A) → Ensures P r → ((a : A) → P a → Q a) → Ensures Q r
  Ensures-mono P Q (ok a) h k = k a h
  Ensures-mono P Q (err e) h k = tt
  Ensures-mono P Q fault h k = absurd h
  Ensures-mono P Q exhausted h k = absurd h

  pub or_fail-IsTotal : (o : Option A) (e : Error) → IsTotal (or_fail o e)
  or_fail-IsTotal none e = tt
  or_fail-IsTotal (some a) e = tt

  -- Both branches of a test.
  pub Ensures-if :
      (P : A → Type 0) (b : Bool) (r s : Result A)
      → (b ≡ true → Ensures P r)
      → (b ≡ false → Ensures P s)
      → Ensures P (if b then r else s)
  Ensures-if P true r s h k = h refl
  Ensures-if P false r s h k = k refl

  -- A call of a library that gave something.
  pub Ensures-or_fail :
      (P : A → Type 0) (o : Option A) (e : Error)
      → ((a : A) → o ≡ some a → P a)
      → Ensures P (or_fail o e)
  Ensures-or_fail P none e h = tt
  Ensures-or_fail P (some a) e h = h a refl

module _ {ℓ κ} {A : Type ℓ} {B : Type κ} where
  -- Two calls that go on alike after the same result.
  pub bind_same :
      (m : Result A) (f g : A → Result B) → ((a : A) → f a ≡ g a) → (m >>= f) ≡ (m >>= g)
  bind_same (ok a) f g h = h a
  bind_same (err e) f g h = refl
  bind_same fault f g h = refl
  bind_same exhausted f g h = refl

  pub bind_assoc {μ} :
      {C : Type μ} (m : Result A) (f : A → Result B) (g : B → Result C)
      → (m >>= f >>= g) ≡ (m >>= λ a. f a >>= g)
  bind_assoc (ok a) f g = refl
  bind_assoc (err e) f g = refl
  bind_assoc fault f g = refl
  bind_assoc exhausted f g = refl

-- What the call returns satisfies `P`, where it returns 1.
abbrev pub Gives {ℓ} : {A : Type ℓ} → (A → Type 0) → Result A → Type ℓ
Gives {A = A} P r = (a : A) → r ≡ ok a → P a

module _ {ℓ κ} {A : Type ℓ} {B : Type κ} where
  pub Gives-bind :
      (Q : B → Type 0) (m : Result A) (f : A → Result B)
      → ((a : A) → m ≡ ok a → Gives Q (f a))
      → Gives Q (m >>= f)
  Gives-bind Q (ok a) f h b e = h a refl b e
  Gives-bind Q (err x) f h b e = absurd (let y : ⊥ = cc in y)
  Gives-bind Q fault f h b e = absurd (let y : ⊥ = cc in y)
  Gives-bind Q exhausted f h b e = absurd (let y : ⊥ = cc in y)

module _ {ℓ} {A : Type ℓ} where
  pub Gives-if :
      (P : A → Type 0) (b : Bool) (r s : Result A)
      → (b ≡ true → Gives P r)
      → (b ≡ false → Gives P s)
      → Gives P (if b then r else s)
  Gives-if P true r s h k = h refl
  Gives-if P false r s h k = k refl

  pub Gives-ok : (P : A → Type 0) (a : A) → P a → Gives P (ok a)
  Gives-ok P a h b e = let p : a ≡ b = cc in subst P p h
