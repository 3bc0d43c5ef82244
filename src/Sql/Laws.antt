-- ===== src/Sql/Laws.antt =====
-- What the gate server relies on of MariaDB and its client library: the four statements of
-- SqlDao.cpp do to the table `user_info` what SQL says, each `?` standing for the value bound at
-- its place, and no call fails. Comparison of texts is the column's collation.
pub mod Keys
pub mod Accounts
pub mod Unique
pub mod Serving
use qt_chatting.Prelude.{
  String, Bool, true, false, ◌&&◌, ◌||◌, some, List, [], ◌∷◌, ◌++◌, map, ◌≡◌, refl, Bool-cases, inl,
  inr, arith, if◌then◌else◌,
}
use qt_chatting.Sql.Driver.{Bind, Target, MySql}
use qt_chatting.Sql.Dao.{insert_query, exists_query, update_query, verify_query}

-- A row of `user_info`.
pub record User : Type 0 where
  pub name : String
  pub email : String
  pub pwd_hash : String

module _ (same : String → String → Bool) where
  -- Is there a row with this email?
  unfoldable pub has_email : String → List User → Bool
  has_email e [] = false
  has_email e (u ∷ us) = same u.email e || has_email e us

  pub has_login : String → String → List User → Bool
  has_login e h [] = false
  has_login e h (u ∷ us) = (same u.email e && same u.pwd_hash h) || has_login e h us

  -- UPDATE user_info SET pwd_hash = h WHERE email = e
  pub set_hash : String → String → List User → List User
  set_hash h e [] = []
  set_hash h e (u ∷ us) =
      (if same u.email e then record u { pwd_hash = h } else u) ∷ set_hash h e us

  -- No row is changed where none has the email.
  pub set_hash_absent :
      (h e : String) (us : List User) → has_email e us ≡ false → set_hash h e us ≡ us
  unfolding has_email set_hash
  set_hash_absent h e [] none_has = refl
  set_hash_absent h e (u ∷ us) none_has = elim (Bool-cases (same u.email e)) [
    | inl t ↦ absurd (ground arith)
    | inr t ↦ rw (t, set_hash_absent h e us (ground arith))
  ]

abbrev pub values : List Bind → List String
values = map (λ b. b.buffer)

-- `rows`, `text`, `params` and `has_result` are what a look into the server and into a statement
-- handle would show.
pub record Working {World : Type 0} (m : MySql World) : Type 0 where
  pub same : String → String → Bool
  pub rows : World → List User
  pub text : m.Stmt → World → String
  pub params : m.Stmt → World → List String
  pub has_result : m.Stmt → World → Bool
  pub init_lem :
      (w : World) → (c : m.Conn) × (v : World) × (m.init w ≡ (some c, v)) × (rows v ≡ rows w)
  pub real_connect_lem :
      (c : m.Conn) (t : Target) (w : World)
      → (v : World) × (m.real_connect c t w ≡ (true, v)) × (rows v ≡ rows w)
  pub set_character_set_lem :
      (c : m.Conn) (s : String) (w : World) → rows (m.set_character_set c s w) ≡ rows w
  pub stmt_init_lem : (c : m.Conn) (w : World) → rows (m.stmt_init c w).1 ≡ rows w
  pub prepare_lem :
      (st : m.Stmt) (q : String) (w : World)
      → (v : World) × (m.stmt_prepare st q w ≡ (false, v)) × (text st v ≡ q) × (rows v ≡ rows w)
  pub bind_param_lem :
      (st : m.Stmt) (bs : List Bind) (w : World)
      → (v : World) × (m.stmt_bind_param st bs w ≡ (false, v))
        × (params st v ≡ values bs)
        × (text st v ≡ text st w)
        × (rows v ≡ rows w)
  -- A row whose email is new can be inserted.
  pub execute_insert :
      (st : m.Stmt) (n e h : String) (w : World)
      → text st w ≡ insert_query
      → params st w ≡ n ∷ e ∷ h ∷ []
      → has_email same e (rows w) ≡ false
      → (v : World) × (m.stmt_execute st w ≡ (false, v))
        × (rows v ≡ rows w ++ record { name = n; email = e; pwd_hash = h } ∷ [])
        × (m.stmt_affected_rows st v ≡ 1)
  pub execute_exists :
      (st : m.Stmt) (e : String) (w : World)
      → text st w ≡ exists_query
      → params st w ≡ e ∷ []
      → (v : World) × (m.stmt_execute st w ≡ (false, v))
        × (rows v ≡ rows w)
        × (has_result st v ≡ has_email same e (rows w))
  pub execute_verify :
      (st : m.Stmt) (e h : String) (w : World)
      → text st w ≡ verify_query
      → params st w ≡ e ∷ h ∷ []
      → (v : World) × (m.stmt_execute st w ≡ (false, v))
        × (rows v ≡ rows w)
        × (has_result st v ≡ has_login same e h (rows w))
  pub execute_update :
      (st : m.Stmt) (first second : String) (w : World)
      → text st w ≡ update_query
      → params st w ≡ first ∷ second ∷ []
      → (v : World) × (m.stmt_execute st w ≡ (false, v))
        × (rows v ≡ set_hash same first second (rows w))
  pub store_result_lem :
      (st : m.Stmt) (w : World)
      → (rows (m.stmt_store_result st w) ≡ rows w)
        × (has_result st (m.stmt_store_result st w) ≡ has_result st w)
  pub bind_result_lem :
      (st : m.Stmt) (w : World)
      → (v : World) × (m.stmt_bind_result st w ≡ (false, v))
        × (rows v ≡ rows w)
        × (has_result st v ≡ has_result st w)
  -- 0 for a row, MYSQL_NO_DATA at the end.
  pub fetch_lem :
      (st : m.Stmt) (w : World)
      → (v : World) × (m.stmt_fetch st w ≡ ((if has_result st w then 0 else 100), v))
        × (rows v ≡ rows w)
        × (m.stmt_error st v ≡ "")
  pub close_lem : (st : m.Stmt) (w : World) → rows (m.stmt_close st w) ≡ rows w
