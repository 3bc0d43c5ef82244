-- ===== src/Gate/Logic/Accounts.antt =====
-- What LogicSystem.cpp promises of its accounts: a list of names and emails without passwords, on
-- which requests to register and to reset a password are decided one after the other.
use qt_chatting.Prelude.{
  String, Bool, Option, some, List, [], ◌∷◌, ◌++◌, map, ◌≡◌, refl, if◌then◌else◌, Outcome, returned,
  Bool-cases, inl, inr,
}
use qt_chatting.Protocol.{ErrorCodes, success, err_varifycode, err_email_registered, err_user_non}
use qt_chatting.Sql.Laws
use qt_chatting.Sql.Laws.{User}
use qt_chatting.Sql.Laws.Accounts.{
  Account, account, is_taken, has_email-account, account-set_hash, account-append,
}
use qt_chatting.Sql.Mgr.Correct.{Hashes}
use qt_chatting.Gate.Outside.{Outside, Reply, Gate}
use qt_chatting.Gate.Logic.{answer_user_register, answer_reset_passwd, is_code, redis_key}
use qt_chatting.Gate.Logic.Register
use qt_chatting.Gate.Logic.Register.{
  HasRows, with_error, register_code, registered, answer_user_register-Runs,
}
use qt_chatting.Gate.Logic.Reset
use qt_chatting.Gate.Logic.Reset.{reset_code, reset_rows, answer_reset_passwd-Runs}

module _ (o : Outside) where
  open o use {json}

  -- A request whose fields are texts.
  pub data Ask : Type 0 where
    register : (src : json.Value) → Register.Fields o src → Ask
    reset : (src : json.Value) → Reset.Fields o src → Ask

  unfoldable pub answer : Ask → Gate o → Outcome (Reply json.Value) × Gate o
  answer (register src f) = answer_user_register o (some src)
  answer (reset src f) = answer_reset_passwd o (some src)

  pub answer_all : List Ask → Gate o → List (Outcome (Reply json.Value)) × Gate o
  answer_all [] g = ([], g)
  answer_all (a ∷ asks) g =
      let (r, h) = answer a g in let (rs, i) = answer_all asks h in (r ∷ rs, i)

  module _ (same : String → String → Bool) (held : String → Option String) where
    -- The decision on a request, with the codes that are held under the keys of Redis.
    pub decide : Ask → List Account → ErrorCodes × List Account
    decide (register src f) known =
        if is_code f.code (held (redis_key "RegisterCode:" f.email))
        then if is_taken same f.email known
          then (err_email_registered, known)
          else (success, known ++ record { name = f.username; email = f.email } ∷ [])
        else (err_varifycode, known)
    decide (reset src f) known =
        if is_taken same f.email known
        then if is_code f.code (held (redis_key "ResetPwdCode:" f.email))
          then (success, known)
          else (err_varifycode, known)
        else (err_user_non, known)

    unfoldable pub decide_all : List Ask → List Account → List ErrorCodes × List Account
    decide_all [] known = ([], known)
    decide_all (a ∷ asks) known =
        let (c, bs) = decide a known in let (cs, rest) = decide_all asks bs in (c ∷ cs, rest)

module _ (o : Outside) (l : Laws.Working o.mysql) (b : Hashes o.mysql o.bcrypt l)
    (held : String → Option String) where
  open o use {redis, json}

  -- Redis holds these codes, and does not touch the table.
  abbrev pub Holding : Type 0
  Holding =
      (key : String) (w : o.World)
      → (v : o.World) × (redis.get key w ≡ (returned (held key), v)) × (l.rows v ≡ l.rows w)

  abbrev pub Answered : Ask o → List User → Gate o → Type 0
  Answered a rows g =
      let (c, known) = decide o l.same held a (map account rows) in
      (h : Gate o) × (rows' : List User) × (answer o a g ≡ (returned (with_error o l b c), h))
      × HasRows o l b rows' h
      × (map account rows' ≡ known)

  pub answer-Answered :
      (a : Ask o) (rows : List User) (g : Gate o)
      → Holding
      → HasRows o l b rows g
      → Answered a rows g
  unfolding answer decide
  answer-Answered (register src f) rows g st h =
      let key = redis_key "RegisterCode:" f.email in
      let (v, got, kept) = st key g.world in
      let (w, ran) = answer_user_register-Runs o l b src f rows g (held key) v h got kept in
      let (t, out, h') = ran in
      let e = has_email-account l.same f.email rows in
      elim (Bool-cases (is_code f.code (held key))) [
        | inl m ↦ elim (Bool-cases (is_taken l.same f.email (map account rows))) [
          | inl k ↦ (t, rows, rw (m, k) (rw (m, e, k) at out), rw (m, e, k) at h', rw (m, k) refl)
          | inr k ↦ (
            t,
            _,
            rw (m, k) (rw (m, e, k) at out),
            rw (m, e, k) at h',
            rw (m, k) (account-append rows _),
          )
        ]
        | inr m ↦ (t, rows, rw m (rw m at out), rw m at h', rw m refl)
      ]
  answer-Answered (reset src f) rows g st h =
      let key = redis_key "ResetPwdCode:" f.email in
      let (w, ran) = answer_reset_passwd-Runs o l b src f rows g (held key) h (st key) in
      let (t, out, h') = ran in
      let e = has_email-account l.same f.email rows in
      elim (Bool-cases (is_taken l.same f.email (map account rows))) [
        | inl k ↦ elim (Bool-cases (is_code f.code (held key))) [
          | inl m ↦ (
            t,
            _,
            rw (m, k) (rw (m, e, k) at out),
            rw (m, e, k) at h',
            rw (m, k) (account-set_hash l.same _ _ rows),
          )
          | inr m ↦ (t, rows, rw (m, k) (rw (m, e, k) at out), rw (m, e, k) at h', rw (m, k) refl)
        ]
        | inr k ↦ (t, rows, rw k (rw (e, k) at out), rw (e, k) at h', rw k refl)
      ]

  abbrev pub Refines : List (Ask o) → List User → Gate o → Type 0
  Refines asks rows g =
      let (codes, known) = decide_all o l.same held asks (map account rows) in
      (h : Gate o) × (rows' : List User) × (answer_all o asks g
        ≡ (map (λ c. returned (with_error o l b c)) codes, h))
      × HasRows o l b rows' h
      × (map account rows' ≡ known)

  -- Over a database that obeys SQL, a pool with current_conn_ below max_conn_, a BCrypt that
  -- returns a hash and a Redis that holds the same codes throughout, the last two without touching
  -- the table: requests to register and to reset a password, whose fields are texts and which come
  -- one after the other, get the replies that a list of accounts decides on, an account being a
  -- name and an email without a password, and the names and emails of the table end as that list
  -- does. There a registration with the right code and an email that is not taken is SUCCESS and
  -- adds an account, and every other request leaves the list as it is.
  pub answer_all-Refines :
      (asks : List (Ask o)) (rows : List User) (g : Gate o)
      → Holding
      → HasRows o l b rows g
      → Refines asks rows g
  unfolding answer_all decide_all
  answer_all-Refines [] rows g st h = (g, rows, refl, h, refl)
  answer_all-Refines (a ∷ asks) rows g st h =
      let (t, us, out, h', e) = answer-Answered a rows g st h in
      let (u, vs, outs, h'', es) = answer_all-Refines asks us t st h' in
      (u, vs, rw (out, outs, e) refl, h'', rw e at es)
