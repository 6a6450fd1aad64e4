-- ===== src/Base/Actions.antt =====
-- Methods that mutate an object and may raise. What a method wrote before it raised stays written,
-- so the state comes back beside the error.
use mathlib.Core.Path.{◌≡◌, refl}
use proyecto1_sd.Base.Errors.{Error, Result, ok, err}

abbrev pub Exec {ℓ} : Type ℓ → Type ℓ → Type ℓ
Exec S A = S → Result A × S

module _ {ℓ} {S A : Type ℓ} where
  unfoldable pub pure : A → Exec S A
  pure a s = (ok a, s)

  unfoldable pub raise : Error → Exec S A
  raise e s = (err e, s)

  unfoldable pub lift : Result A → Exec S A
  lift r s = (r, s)

  unfoldable pub gets : (S → A) → Exec S A
  gets f s = (ok (f s), s)

unfoldable pub modify {ℓ} : {S : Type ℓ} → (S → S) → Exec S (Unit {ℓ})
modify f s = (ok tt, f s)

module _ {ℓ} {S A B : Type ℓ} where
  abbrev pub resume : Result A → (A → Exec S B) → Exec S B
  resume (ok a) f s = f a s
  resume (err e) f s = (err e, s)

  infixl 5 ◌>>=◌ ◌>>◌
  -- To open this is to open the actions above too.
  unfoldable pub ◌>>=◌ : Exec S A → (A → Exec S B) → Exec S B
  unfolding pure raise lift gets modify
  ◌>>=◌ m f s = resume (m s).0 f (m s).1

  abbrev pub ◌>>◌ : Exec S A → Exec S B → Exec S B
  m >> n = m >>= λ _. n

-- `m` keeps a fact of the state, whether it returns or raises.
pub record Keeps {ℓ κ} {S A : Type ℓ} (P : S → Type κ) (m : Exec S A) : Type (ℓ ⊔ κ) where
  pub at : (s : S) → P s → P (m s).1

pub Keeps-modify {ℓ κ} :
    {S : Type ℓ} {P : S → Type κ} (f : S → S) → ((s : S) → P s → P (f s)) → Keeps P (modify f)
unfolding modify
Keeps-modify f h = record { at = h }

module _ {ℓ κ} {S A : Type ℓ} {P : S → Type κ} where
  pub Keeps-gets : (view : S → A) → Keeps P (gets view)
  unfolding gets
  Keeps-gets view = record { at = λ _ p. p }

  pub Keeps-pure : (value : A) → Keeps P (pure value)
  unfolding pure
  Keeps-pure value = record { at = λ _ p. p }

  pub Keeps-lift : (checked : Result A) → Keeps P (lift checked)
  unfolding lift
  Keeps-lift checked = record { at = λ _ p. p }

module _ {ℓ κ} {S A B : Type ℓ} {P : S → Type κ} where
  resume-keeps :
      (r : Result A) (f : A → Exec S B) (s : S)
      → P s
      → ((a : A) → r ≡ ok a → Keeps P (f a))
      → P (resume r f s).1
  resume-keeps (ok a) f s h k = (k a refl).at s h
  resume-keeps (err e) f s h k = h

  -- What follows a check may use that it passed.
  pub Keeps-check :
      (r : Result A) (f : A → Exec S B)
      → ((a : A) → r ≡ ok a → Keeps P (f a))
      → Keeps P (lift r >>= f)
  unfolding ◌>>=◌
  Keeps-check r f k = record { at = λ s h. resume-keeps r f s h k }

  -- What follows a reading may use the fact of the state that was read.
  pub Keeps-read :
      (g : S → A) (f : A → Exec S B) → ((s : S) → P s → Keeps P (f (g s))) → Keeps P (gets g >>= f)
  unfolding ◌>>=◌
  Keeps-read g f k = record { at = λ s h. (k s h).at s h }

  pub Keeps-bind :
      (first : Exec S A) (next : A → Exec S B)
      → Keeps P first
      → ((a : A) → Keeps P (next a))
      → Keeps P (first >>= next)
  unfolding ◌>>=◌
  Keeps-bind first next k l = record {
    at = λ s h. resume-keeps (first s).0 next (first s).1 (k.at s h) (λ a _. l a);
  }
