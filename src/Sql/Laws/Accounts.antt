-- ===== src/Sql/Laws/Accounts.antt =====
-- A table of users without its passwords: the accounts, by name and email.
use qt_chatting.Prelude.{
  String, Bool, false, ◌||◌, List, [], ◌∷◌, ◌++◌, map, ◌≡◌, refl, ap, Bool-cases, inl, inr,
}
use qt_chatting.Sql.Laws.{User, has_email, set_hash}

pub record Account : Type 0 where
  pub name : String
  pub email : String

abbrev pub account : User → Account
account u = record { name = u.name; email = u.email }

module _ (same : String → String → Bool) where
  pub is_taken : String → List Account → Bool
  is_taken e [] = false
  is_taken e (a ∷ rest) = same a.email e || is_taken e rest

  pub has_email-account :
      (e : String) (us : List User) → has_email same e us ≡ is_taken e (map account us)
  unfolding has_email is_taken
  has_email-account e [] = refl
  has_email-account e (u ∷ us) = rw (has_email-account e us) refl

  pub account-set_hash :
      (hash email : String) (us : List User)
      → map account (set_hash same hash email us) ≡ map account us
  unfolding set_hash
  account-set_hash hash email [] = refl
  account-set_hash hash email (u ∷ us) = elim (Bool-cases (same u.email email)) [
    | inl t ↦ rw (t, account-set_hash hash email us) refl
    | inr t ↦ rw (t, account-set_hash hash email us) refl
  ]

pub account-append :
    (us : List User) (u : User) → map account (us ++ u ∷ []) ≡ map account us ++ account u ∷ []
account-append [] u = refl
account-append (v ∷ us) u = ap (λ known. account v ∷ known) (account-append us u)
