-- ===== src/Prelude/Effects.antt =====
-- C++ calls that change a state and may throw. What was written before a throw stays written, so
-- the state comes back beside the exception too. `blocked` is a call that waits on a condition
-- variable whose predicate does not hold: it does not return until another thread acts.
-- `undefined` is undefined behaviour: the model says nothing of what follows.
use Prim.Native.String.{String}

pub data Outcome {ℓ} (A : Type ℓ) : Type ℓ where
  returned : A → Outcome A
  threw : String → Outcome A
  blocked : Outcome A
  undefined : Outcome A

abbrev pub Exec {ℓ κ} : Type ℓ → Type κ → Type (ℓ ⊔ κ)
Exec S A = S → Outcome A × S

module _ {ℓ κ} {S : Type ℓ} {A : Type κ} where
  abbrev pub pure : A → Exec S A
  pure a s = (returned a, s)

  abbrev pub throw : String → Exec S A
  throw e s = (threw e, s)

  abbrev pub reads : (S → A) → Exec S A
  reads f s = (returned (f s), s)

  abbrev caught : Outcome A → (String → Exec S A) → Exec S A
  caught (returned a) handler s = (returned a, s)
  caught (threw e) handler s = handler e s
  caught blocked handler s = (blocked, s)
  caught undefined handler s = (undefined, s)

  -- try { m } catch (const std::exception& e) { handler e }
  abbrev pub try_catch : Exec S A → (String → Exec S A) → Exec S A
  try_catch m handler s = let (r, s') = m s in caught r handler s'

  abbrev cleaned : Outcome A → (S → S) → S → Outcome A × S
  cleaned (returned a) cleanup s = (returned a, cleanup s)
  cleaned (threw e) cleanup s = (threw e, cleanup s)
  cleaned blocked cleanup s = (blocked, s)
  cleaned undefined cleanup s = (undefined, s)

  -- A destructor, or a cleanup that both the normal and the throwing exit run.
  abbrev pub ensure : (S → S) → Exec S A → Exec S A
  ensure cleanup m s = let (r, s') = m s in cleaned r cleanup s'

module _ {ℓ κ μ} {S : Type ℓ} {A : Type κ} {B : Type μ} where
  abbrev continue : Outcome A → (A → Exec S B) → Exec S B
  continue (returned a) f s = f a s
  continue (threw e) f s = (threw e, s)
  continue blocked f s = (blocked, s)
  continue undefined f s = (undefined, s)

  infixl 10 ◌>>=◌ ◌>>◌
  abbrev pub ◌>>=◌ : Exec S A → (A → Exec S B) → Exec S B
  ◌>>=◌ m f s = let (r, s') = m s in continue r f s'

  abbrev pub ◌>>◌ : Exec S A → Exec S B → Exec S B
  m >> n = m >>= λ _. n

-- A call that only writes.
abbrev pub modify {ℓ} : {S : Type ℓ} → (S → S) → Exec S (Unit {0})
modify f s = (returned tt, f s)

abbrev pub IsReturned {ℓ} : {A : Type ℓ} → Outcome A → Type 0
IsReturned (returned a) = Unit
IsReturned (threw e) = ⊥
IsReturned blocked = ⊥
IsReturned undefined = ⊥

-- The call returned or threw: it neither waits nor is undefined.
abbrev pub IsOver {ℓ} : {A : Type ℓ} → Outcome A → Type 0
IsOver (returned a) = Unit
IsOver (threw e) = Unit
IsOver blocked = ⊥
IsOver undefined = ⊥
