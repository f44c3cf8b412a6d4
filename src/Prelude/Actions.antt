-- ===== src/Prelude/Actions.antt =====
-- `async` methods as actions on a state: each returns a value or throws, and what was written
-- before a throw stays written.

use mathlib.Core.Path.{◌≡◌, refl, subst}

-- What the program's code throws, and what reaches it from a service that it calls.
pub data Result {ℓ} (X A : Type ℓ) : Type ℓ where
  ok : A → Result X A
  err : X → Result X A

abbrev pub Action {ℓ} : Type ℓ → Type ℓ → Type ℓ → Type ℓ
Action S X A = S → Result X A × S

pub err-injective {ℓ} : {X A : Type ℓ} {a b : X} → ◌≡◌ {A = Result X A} (err a) (err b) → a ≡ b
err-injective h = cc

pub err-ne-ok {ℓ} : {X A : Type ℓ} {a : A} {x : X} → ¬ (◌≡◌ {A = Result X A} (err x) (ok a))
err-ne-ok h = cc

pub ok-injective {ℓ} : {X A : Type ℓ} {a b : A} → ◌≡◌ {A = Result X A} (ok a) (ok b) → a ≡ b
ok-injective h = cc

module _ {ℓ} {S X A : Type ℓ} where
  abbrev pub pure : A → Action S X A
  pure a s = (ok a, s)

  abbrev pub throw : X → Action S X A
  throw x s = (err x, s)

  -- `try { m } catch (error) { h(error) }`
  abbrev pub caught : Result X A → (X → Action S X A) → Action S X A
  caught (ok a) h s = (ok a, s)
  caught (err x) h s = h x s

  abbrev pub try_catch : Action S X A → (X → Action S X A) → Action S X A
  try_catch m h s = caught (m s).0 h (m s).1

module _ {ℓ} {S X A B : Type ℓ} where
  abbrev pub continue : Result X A → (A → Action S X B) → Action S X B
  continue (ok a) f s = f a s
  continue (err x) f s = (err x, s)

  infixl 5 ◌>>=◌ ◌>>◌
  abbrev pub ◌>>=◌ : Action S X A → (A → Action S X B) → Action S X B
  ◌>>=◌ m f s = continue (m s).0 f (m s).1

  abbrev pub ◌>>◌ : Action S X A → Action S X B → Action S X B
  m >> n = m >>= λ _. n

-- Inversion of a block that returned.
pub continue-eq-ok {ℓ} :
    {S X A B : Type ℓ} (r : Result X A) (f : A → Action S X B) (s : S) {b : B}
    → (continue r f s).0 ≡ ok b
    → (a : A) × (r ≡ ok a) × ((f a s).0 ≡ ok b)
continue-eq-ok (ok a) f s h = (a, refl, h)
continue-eq-ok (err x) f s h = cc

-- What holds after an action: `P` of the value and the state if it returned, `K` of the state if it
-- threw.
abbrev pub Ensures {ℓ} :
    {S X A : Type ℓ} → (A → S → Type ℓ) → (S → Type ℓ) → Result X A → S → Type ℓ
Ensures P K (ok a) s = P a s
Ensures P K (err x) s = K s

pub Ensures-continue {ℓ} :
    {S X A B : Type ℓ} (P : A → S → Type ℓ) (Q : B → S → Type ℓ) (K : S → Type ℓ) (r : Result X A)
    (f : A → Action S X B) (s : S)
    → Ensures P K r s
    → ((a : A) (s : S) → P a s → Ensures Q K (f a s).0 (f a s).1)
    → Ensures Q K (continue r f s).0 (continue r f s).1
Ensures-continue P Q K (ok a) f s h k = k a s h
Ensures-continue P Q K (err x) f s h k = h

pub Ensures-map {ℓ} :
    {S X A : Type ℓ} (P Q : A → S → Type ℓ) (K : S → Type ℓ) (r : Result X A) (s : S)
    → Ensures P K r s
    → ((a : A) (s : S) → P a s → Q a s)
    → Ensures Q K r s
Ensures-map P Q K (ok a) s h k = k a s h
Ensures-map P Q K (err x) s h k = h

-- A rest that ensures its postcondition from every state.
pub Ensures-after {ℓ} :
    {S X A B : Type ℓ} (Q : B → S → Type ℓ) (K : S → Type ℓ) (r : Result X A) (f : A → Action S X B)
    (s : S)
    → ((s : S) → K s)
    → ((a : A) (s : S) → Ensures Q K (f a s).0 (f a s).1)
    → Ensures Q K (continue r f s).0 (continue r f s).1
Ensures-after Q K (ok a) f s k h = h a s
Ensures-after Q K (err x) f s k h = k s

pub Ensures-ok {ℓ} :
    {S X A : Type ℓ} (P : A → S → Type ℓ) (K : S → Type ℓ) (r : Result X A) (s : S) {a : A}
    → Ensures P K r s
    → r ≡ ok a
    → P a s
Ensures-ok P K (ok b) s h e = subst (λ c. P c s) (ok-injective e) h
Ensures-ok P K (err x) s h e = absurd (err-ne-ok e)

-- An action that cannot throw returns a value.
pub Ensures-returns {ℓ} :
    {S X A : Type ℓ} (P : A → S → Type ℓ) (K : S → Type ℓ) (r : Result X A) (s : S)
    → ((s : S) → K s → ⊥)
    → Ensures P K r s
    → (a : A) × (r ≡ ok a) × P a s
Ensures-returns P K (ok a) s never h = (a, refl, h)
Ensures-returns P K (err x) s never h = absurd (never s h)

pub Ensures-weaken {ℓ} :
    {S X A : Type ℓ} (P : A → S → Type ℓ) (K L : S → Type ℓ) (r : Result X A) (s : S)
    → ((s : S) → K s → L s)
    → Ensures P K r s
    → Ensures P L r s
Ensures-weaken P K L (ok a) s weaker h = h
Ensures-weaken P K L (err x) s weaker h = weaker s h

pub Ensures-both {ℓ} :
    {S X A : Type ℓ} (P Q : A → S → Type ℓ) (K L : S → Type ℓ) (r : Result X A) (s : S)
    → Ensures P K r s
    → Ensures Q L r s
    → Ensures (λ a s. P a s × Q a s) L r s
Ensures-both P Q K L (ok a) s h k = (h, k)
Ensures-both P Q K L (err x) s h k = k
