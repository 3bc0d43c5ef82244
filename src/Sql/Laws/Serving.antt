-- ===== src/Sql/Laws/Serving.antt =====
-- Rules for calls that may change the table of users, however they end.
use qt_chatting.Prelude.{
  String, Bool, List, ◌≡◌, refl, inl, Outcome, returned, threw, blocked, undefined, Exec, try_catch,
  ◌>>=◌,
}
use qt_chatting.Sql.Laws.{User}
use qt_chatting.Sql.Laws.Unique.{Evolves}

-- `Users rows s` says that the table in the state `s` is `rows`.
module _ {ℓ κ} {S : Type ℓ} (same : String → String → Bool) (Users : List User → S → Type 0)
    {A : Type κ} where
  -- The call leaves the table alone.
  abbrev pub Spares : Exec S A → Type ℓ
  Spares m = (s : S) (rows : List User) → Users rows s → Users rows (m s).1

  -- On a table with `P` the call makes one change at most, of those that a table evolves by.
  abbrev pub Serves : (List User → Type 0) → Exec S A → Type ℓ
  Serves P m =
      (s : S) (rows : List User)
      → P rows
      → Users rows s
      → (rows' : List User) × Users rows' (m s).1 × Evolves same rows rows'

  pub Spares-Serves : (P : List User → Type 0) (m : Exec S A) → Spares m → Serves P m
  Spares-Serves P m k s rows p h = (rows, k s rows h, inl refl)

  pub Serves-try :
      (P : List User → Type 0) (m : Exec S A) (handler : String → Exec S A)
      → Serves P m
      → ((e : String) → Spares (handler e))
      → Serves P (try_catch m handler)
  Serves-try P m handler k kh s rows p h = go (m s).0 (m s).1 refl (k s rows p h)
    where
      go :
          (r : Outcome A) (t : S)
          → m s ≡ (r, t)
          → (rows' : List User) × Users rows' t × Evolves same rows rows'
          → (rows' : List User) × Users rows' (try_catch m handler s).1 × Evolves same rows rows'
      go (returned a) t e q = rw e q
      go (threw x) t e (rows', u, ev) = (rows', rw e (kh x t rows' u), ev)
      go blocked t e q = rw e q
      go undefined t e q = rw e q

module _ {ℓ κ μ} {S : Type ℓ} (same : String → String → Bool) (Users : List User → S → Type 0)
    {A : Type κ} {B : Type μ} where
  pub Spares-bind :
      (m : Exec S A) (f : A → Exec S B)
      → Spares same Users m
      → ((a : A) → Spares same Users (f a))
      → Spares same Users (m >>= f)
  Spares-bind m f k kf s rows h = go (m s).0 (m s).1 refl (k s rows h)
    where
      go : (r : Outcome A) (t : S) → m s ≡ (r, t) → Users rows t → Users rows ((m >>= f) s).1
      go (returned a) t e u = rw e (kf a t rows u)
      go (threw x) t e u = rw e u
      go blocked t e u = rw e u
      go undefined t e u = rw e u

  pub Serves-bind :
      (P : List User → Type 0) (m : Exec S A) (f : A → Exec S B)
      → Spares same Users m
      → ((a : A) → Serves same Users P (f a))
      → Serves same Users P (m >>= f)
  Serves-bind P m f k kf s rows p h = go (m s).0 (m s).1 refl (k s rows h)
    where
      go :
          (r : Outcome A) (t : S)
          → m s ≡ (r, t)
          → Users rows t
          → (rows' : List User) × Users rows' ((m >>= f) s).1 × Evolves same rows rows'
      go (returned a) t e u = rw e (kf a t rows p u)
      go (threw x) t e u = (rows, rw e u, inl refl)
      go blocked t e u = (rows, rw e u, inl refl)
      go undefined t e u = (rows, rw e u, inl refl)

  -- The call that changes the table comes first, and what follows leaves it alone.
  pub Serves-then :
      (P : List User → Type 0) (m : Exec S A) (f : A → Exec S B)
      → Serves same Users P m
      → ((a : A) → Spares same Users (f a))
      → Serves same Users P (m >>= f)
  Serves-then P m f k kf s rows p h = go (m s).0 (m s).1 refl (k s rows p h)
    where
      go :
          (r : Outcome A) (t : S)
          → m s ≡ (r, t)
          → (rows' : List User) × Users rows' t × Evolves same rows rows'
          → (rows' : List User) × Users rows' ((m >>= f) s).1 × Evolves same rows rows'
      go (returned a) t e (rows', u, ev) = (rows', rw e (kf a t rows' u), ev)
      go (threw x) t e q = rw e q
      go blocked t e q = rw e q
      go undefined t e q = rw e q
