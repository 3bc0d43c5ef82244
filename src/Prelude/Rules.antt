-- ===== src/Prelude/Rules.antt =====
-- Rules for calls of `Exec`: what a call returns, and what it leaves of the state however it ends.
use mathlib.Core.Path.{◌≡◌, refl, ◌∙◌}
use mathlib.Core.Logic.{◌≢◌}
use text.Mathlib.Text.{◌==◌ as str_eq}
use text.Mathlib.TextEquality.{eq_iff}
use mathlib.Core.Bool.{Bool, true, false}
use Prim.Native.String.{String}
use qt_chatting.Prelude.Bools.{if◌then◌else◌}
use qt_chatting.Prelude.Effects.{
  Outcome, Exec, returned, threw, blocked, undefined, ensure, try_catch, IsOver, ◌>>=◌,
}

-- From `s` the call returns `a`, in a state with `P`.
abbrev pub Runs {ℓ κ μ} :
    {S : Type ℓ} {A : Type κ} → Exec S A → S → A → (S → Type μ) → Type (ℓ ⊔ κ ⊔ μ)
Runs {S} m s a P = (t : S) × (m s ≡ (returned a, t)) × P t

module _ {ℓ κ μ} {S : Type ℓ} {A : Type κ} where
  pub Runs-bind {ν ξ} :
      {B : Type ν} {P : S → Type μ} {Q : S → Type ξ} (m : Exec S A) (f : A → Exec S B) (s : S)
      (a : A) (b : B)
      → Runs m s a P
      → ((t : S) → P t → Runs (f a) t b Q)
      → Runs (m >>= f) s b Q
  Runs-bind m f s a b (t, e, p) k = let (u, e', q) = k t p in (u, rw e e', q)

  pub Runs-ensure {ν} :
      {P : S → Type μ} {Q : S → Type ν} (cleanup : S → S) (m : Exec S A) (s : S) (a : A)
      → Runs m s a P
      → ((t : S) → P t → Q (cleanup t))
      → Runs (ensure cleanup m) s a Q
  Runs-ensure cleanup m s a (t, e, p) k = (cleanup t, rw e, k t p)

  pub Runs-try :
      {P : S → Type μ} (m : Exec S A) (h : String → Exec S A) (s : S) (a : A)
      → Runs m s a P
      → Runs (try_catch m h) s a P
  Runs-try m h s a (t, e, p) = (t, rw e, p)

module _ {ℓ κ μ} {S : Type ℓ} {A : Type κ} {X : Type μ} (view : S → X) where
  -- The call returns or throws, and leaves `view` of the state as it was.
  abbrev pub Keeps : Exec S A → Type (ℓ ⊔ μ)
  Keeps m = (s : S) → (view (m s).1 ≡ view s) × IsOver (m s).0

module _ {ℓ κ μ ν} {S : Type ℓ} {A : Type κ} {B : Type ν} {X : Type μ} (view : S → X) where
  pub Keeps-bind :
      (m : Exec S A) (f : A → Exec S B)
      → Keeps view m
      → ((a : A) → Keeps view (f a))
      → Keeps view (m >>= f)
  Keeps-bind m f km kf s = go (m s).0 (m s).1 refl (km s).0 (km s).1
    where
      go :
          (r : Outcome A) (t : S)
          → m s ≡ (r, t)
          → view t ≡ view s
          → IsOver r
          → (view ((m >>= f) s).1 ≡ view s) × IsOver ((m >>= f) s).0
      go (returned a) t e k o = rw e ((kf a t).0 ∙ k, (kf a t).1)
      go (threw x) t e k o = rw e (k, tt)
      go blocked t e k o = absurd o
      go undefined t e k o = absurd o

pub str_differ : (s t : String) → str_eq s t ≡ false → s ≢ t
str_differ s t differ e = let same = (eq_iff s t).1 e in cc

pub if-case {ℓ κ} :
    {A : Type ℓ} (P : A → Type κ) {x y : A} (b : Bool)
    → (b ≡ true → P x)
    → (b ≡ false → P y)
    → P (if b then x else y)
if-case P true f g = f refl
if-case P false f g = g refl

module _ {ℓ κ μ} {S : Type ℓ} {A : Type κ} {X : Type μ} (view : S → X) where
  -- However the call ends, it leaves `view` of the state as it was.
  abbrev pub Leaves : Exec S A → Type (ℓ ⊔ μ)
  Leaves m = (s : S) → view (m s).1 ≡ view s

  pub Leaves-try :
      (m : Exec S A) (h : String → Exec S A)
      → Leaves m
      → ((e : String) → Leaves (h e))
      → Leaves (try_catch m h)
  Leaves-try m h km kh s = go (m s).0 (m s).1 refl (km s)
    where
      go :
          (r : Outcome A) (t : S)
          → m s ≡ (r, t)
          → view t ≡ view s
          → view (try_catch m h s).1 ≡ view s
      go (returned a) t e k = rw e k
      go (threw x) t e k = rw e (kh x t ∙ k)
      go blocked t e k = rw e k
      go undefined t e k = rw e k

module _ {ℓ κ μ ν} {S : Type ℓ} {A : Type κ} {B : Type ν} {X : Type μ} (view : S → X) where
  pub Leaves-bind :
      (m : Exec S A) (f : A → Exec S B)
      → Leaves view m
      → ((a : A) → Leaves view (f a))
      → Leaves view (m >>= f)
  Leaves-bind m f km kf s = go (m s).0 (m s).1 refl (km s)
    where
      go : (r : Outcome A) (t : S) → m s ≡ (r, t) → view t ≡ view s → view ((m >>= f) s).1 ≡ view s
      go (returned a) t e k = rw e (kf a t ∙ k)
      go (threw x) t e k = rw e k
      go blocked t e k = rw e k
      go undefined t e k = rw e k
