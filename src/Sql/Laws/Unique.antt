-- ===== src/Sql/Laws/Unique.antt =====
-- Tables of users in which no email stands twice, and the changes that SqlDao.cpp makes to a table.
use qt_chatting.Prelude.{
  String, Bool, true, false, ◌||◌, List, [], ◌∷◌, ◌++◌, ◌≡◌, refl, ◌∙◌, ◌⊎◌, inl, inr, Bool-cases,
  arith,
}
use qt_chatting.Sql.Laws.{User, has_email, set_hash}

module _ (same : String → String → Bool) where
  abbrev pub IsUnique : List User → Type 0
  IsUnique [] = Unit
  IsUnique (u ∷ us) = (has_email same u.email us ≡ false) × IsUnique us

  -- No change, a new row with an email that no row has, or other hashes.
  abbrev pub Evolves : List User → List User → Type 0
  Evolves rows rows' =
      (rows' ≡ rows)
      ⊎ ((u : User) × (has_email same u.email rows ≡ false) × (rows' ≡ rows ++ u ∷ []))
      ⊎ ((hash email : String) × (rows' ≡ set_hash same hash email rows))

  pub has_email-append :
      (e : String) (us vs : List User)
      → has_email same e (us ++ vs) ≡ (has_email same e us || has_email same e vs)
  unfolding has_email
  has_email-append e [] vs = refl
  has_email-append e (u ∷ us) vs = ground (arith, has_email-append e us vs)

  pub has_email-set_hash :
      (e hash email : String) (us : List User)
      → has_email same e (set_hash same hash email us) ≡ has_email same e us
  unfolding has_email set_hash
  has_email-set_hash e hash email [] = refl
  has_email-set_hash e hash email (u ∷ us) = elim (Bool-cases (same u.email email)) [
    | inl t ↦ rw (t, has_email-set_hash e hash email us)
    | inr t ↦ rw (t, has_email-set_hash e hash email us)
  ]

  set_hash-IsUnique :
      (hash email : String) (us : List User) → IsUnique us → IsUnique (set_hash same hash email us)
  unfolding set_hash
  set_hash-IsUnique hash email [] h = tt
  set_hash-IsUnique hash email (u ∷ us) (new, rest) = elim (Bool-cases (same u.email email)) [
    | inl t ↦
        rw t (has_email-set_hash u.email hash email us ∙ new, set_hash-IsUnique hash email us rest)
    | inr t ↦
        rw t (has_email-set_hash u.email hash email us ∙ new, set_hash-IsUnique hash email us rest)
  ]

  module _ (same_comm : (a b : String) → same a b ≡ same b a) where
    append-IsUnique :
        (u : User) (us : List User)
        → has_email same u.email us ≡ false
        → IsUnique us
        → IsUnique (us ++ u ∷ [])
    unfolding has_email
    append-IsUnique u [] new h = (refl, tt)
    append-IsUnique u (v ∷ us) new (fresh, rest) = (
      has_email-append v.email us (u ∷ []) ∙ ground (arith, same_comm u.email v.email),
      append-IsUnique u us (ground arith) rest,
    )

    pub Evolves-IsUnique :
        (rows rows' : List User) → Evolves rows rows' → IsUnique rows → IsUnique rows'
    Evolves-IsUnique rows rows' (inl e) h = rw e h
    Evolves-IsUnique rows rows' (inr (inl (u, new, e))) h = rw e (append-IsUnique u rows new h)
    Evolves-IsUnique rows rows' (inr (inr (hash, email, e))) h =
        rw e (set_hash-IsUnique hash email rows h)

  -- An email that has a row keeps one.
  pub Evolves-has_email :
      (e : String) (rows rows' : List User)
      → Evolves rows rows'
      → has_email same e rows ≡ true
      → has_email same e rows' ≡ true
  Evolves-has_email e rows rows' (inl same_rows) h = rw same_rows h
  Evolves-has_email e rows rows' (inr (inl (u, new, added))) h =
      rw added (has_email-append e rows (u ∷ []) ∙ ground arith)
  Evolves-has_email e rows rows' (inr (inr (hash, email, changed))) h =
      rw changed (has_email-set_hash e hash email rows ∙ h)
