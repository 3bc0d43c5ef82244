-- ===== src/Gate/Logic/Reset.antt =====
-- The handler of /reset_passwd in LogicSystem.cpp over a working database.
use qt_chatting.Prelude.{
  pos, String, Bool, true, false, Option, some, List, ◌≡◌, refl, ◌∙◌, if◌then◌else◌, returned, Exec,
  Runs,
}
use qt_chatting.Protocol.{ErrorCodes, success, err_varifycode, err_user_non}
use qt_chatting.Sql.Laws
use qt_chatting.Sql.Laws.{User, has_email, set_hash, set_hash_absent}
use qt_chatting.Sql.Mgr.Correct.{Hashes, email_exists-Runs_mgr, reset_pwd-Runs}
use qt_chatting.Gate.Outside.{Outside, Reply, Gate, sql_of, with_sql}
use qt_chatting.Gate.Logic.{
  answer_reset_passwd, reset_if, reset_checked, reset_now, is_code, redis_key,
}
use qt_chatting.Gate.Logic.Register.{HasRows, with_error}

-- What the fields of a request to reset a password are.
pub record Fields (o : Outside) (src : o.json.Value) : Type 0 where
  pub email : String
  pub code : String
  pub passwd : String
  pub email_is : o.json.member_string src "email" ≡ returned email
  pub code_is : o.json.member_string src "reset_code" ≡ returned code
  pub passwd_is : o.json.member_string src "passwd" ≡ returned passwd

module _ (o : Outside) (l : Laws.Working o.mysql) (b : Hashes o.mysql o.bcrypt l) where
  -- The decision: an unknown email, a wrong or missing code, or success.
  abbrev pub reset_code : Bool → Bool → ErrorCodes
  reset_code false matches = err_user_non
  reset_code true false = err_varifycode
  reset_code true true = success

  -- The table afterwards, as `updatePwd` leaves it.
  abbrev pub reset_rows : Bool → Bool → String → String → List User → List User
  reset_rows true true email hash rows = set_hash l.same email hash rows
  reset_rows true false email hash rows = rows
  reset_rows false matches email hash rows = rows

  module _ (src : o.json.Value) (f : Fields o src) (rows : List User) (g : Gate o)
      (value : Option String) where
    abbrev pub Resets : Bool → Bool → Exec (Gate o) (Reply o.json.Value) → Type 0
    Resets known matches m =
        (w : o.World) × Runs m g (with_error o l b (reset_code known matches))
          (HasRows o l b (reset_rows known matches f.email (b.hash f.passwd w) rows))

    -- Redis holds `value` for the key, and does not touch the table.
    abbrev pub Stored : Type 0
    Stored =
        (w : o.World)
        → (v : o.World) × (o.redis.get (redis_key "ResetPwdCode:" f.email) w ≡ (returned value, v))
          × (l.rows v ≡ l.rows w)

    reset_checked-Runs :
        (matches : Bool) (t : Gate o)
        → is_code f.code value ≡ matches
        → Stored
        → HasRows o l b rows t
        → (w : o.World) × Runs
            (reset_checked o src f.email)
            t
            (with_error o l b (reset_code true matches))
            (HasRows o l b (reset_rows true matches f.email (b.hash f.passwd w) rows))
    unfolding reset_checked reset_now
    reset_checked-Runs false t m st h =
        let (v, asked, same) = st t.world in
        (
          v,
          (
            record t { world = v },
            rw (f.code_is, asked, m),
            record { rows_are = same ∙ h.rows_are; free = h.free },
          ),
        )
    reset_checked-Runs true t m st h =
        let (v, asked, same) = st t.world in
        let t' : Gate o = record t { world = v } in
        let h' : HasRows o l b rows t' = record { rows_are = same ∙ h.rows_are; free = h.free } in
        let (u, out, h'') =
          reset_pwd-Runs o.mysql o.bcrypt l b f.email f.passwd rows (sql_of o t') h' in
        (v, (with_sql o t' u, rw (f.code_is, asked, m, f.passwd_is, out), h''))

    reset_if-Runs :
        (known matches : Bool) (t : Gate o)
        → is_code f.code value ≡ matches
        → Stored
        → HasRows o l b rows t
        → (w : o.World) × Runs
            (reset_if o src f.email (if known then pos 1 else pos 0))
            t
            (with_error o l b (reset_code known matches))
            (HasRows o l b (reset_rows known matches f.email (b.hash f.passwd w) rows))
    unfolding reset_if
    reset_if-Runs true matches t m st h = reset_checked-Runs matches t m st h
    reset_if-Runs false matches t m st h = (t.world, (t, refl, h))

    -- Over a database that obeys SQL, a pool with current_conn_ below max_conn_, a BCrypt that
    -- returns a hash and a Redis that answers, the last two without touching the table, a request
    -- to reset a password whose three fields are texts is answered ERR_USER_NON where no row has
    -- the email, ERR_VARIFYCODE where the code is not the one that Redis holds, and SUCCESS
    -- otherwise. The table is unchanged in the first two cases; in the third the rows whose email
    -- is the new hash have the request's email for their hash.
    pub answer_reset_passwd-Runs :
        HasRows o l b rows g
        → Stored
        → Resets
            (has_email l.same f.email rows)
            (is_code f.code value)
            (answer_reset_passwd o (some src))
    unfolding answer_reset_passwd
    answer_reset_passwd-Runs h st =
        let (t, out, h') = email_exists-Runs_mgr o.mysql o.bcrypt l f.email rows (sql_of o g) h in
        let (w, ran) =
          reset_if-Runs (has_email l.same f.email rows) (is_code f.code value) (with_sql o g t) refl
            st h' in
        let (u, out', h'') = ran in (w, (u, rw (f.email_is, out, out'), h''))

    -- Over a database that obeys SQL, a pool with current_conn_ below max_conn_, a BCrypt that
    -- returns a hash and a Redis that answers, the last two without touching the table, where some
    -- row has the email, the code is the one that Redis holds, and no hash of the new password is
    -- the email of a row, a request to reset the password is answered SUCCESS and the table is
    -- unchanged.
    pub answer_reset_passwd-no_change :
        HasRows o l b rows g
        → Stored
        → has_email l.same f.email rows ≡ true
        → is_code f.code value ≡ true
        → ((w : o.World) → has_email l.same (b.hash f.passwd w) rows ≡ false)
        → Runs (answer_reset_passwd o (some src)) g (with_error o l b success) (HasRows o l b rows)
    answer_reset_passwd-no_change h st known right no_hash =
        let (w, ran) = answer_reset_passwd-Runs h st in
        let (t, out, h') = rw (known, right) at ran in
        (
          t,
          out,
          record {
            rows_are = h'.rows_are ∙ set_hash_absent l.same f.email _ rows (no_hash w);
            free = h'.free;
          },
        )
