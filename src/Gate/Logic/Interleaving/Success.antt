-- ===== src/Gate/Logic/Interleaving/Success.antt =====
-- Over a table with a unique key on its emails: a request that is answered SUCCESS has its account,
-- whatever order the calls of the requests come in.
use qt_chatting.Prelude.{
  ℕ, zero, suc, true, String, ◌≡◌, refl, sym, subst, subst₂, none, try_catch, pure, ◌∙◌, inl, inr,
  Bool-cases, List, [], ◌∷◌, ◌++◌, ℤ, pos, negsuc, int_eq, arith, Outcome, returned, threw, blocked,
  undefined, if◌then◌else◌,
}
use qt_chatting.Gate.Logic.{register_if, register_new, reset_now, error_reply, redis_key}
use qt_chatting.Gate.Logic.Interleaving.{
  Job, Phase, asking, looking, acting, checking, fetching, changing, answered, checked, fetch,
  advance, turn, run,
}
use qt_chatting.Gate.Logic.Interleaving.Keyed.{advance-Evolves, turn-Evolves}
use qt_chatting.Gate.Logic.Interleaving.Kept.{
  IsListed, Kept, AllKept, AllKept-later, Kept-later, answered-Kept, asked-Kept, looked-Kept,
  checked-Kept, fetched-Kept,
}
use qt_chatting.Gate.Logic.Register.{HasRows}
use qt_chatting.Gate.Outside.{Outside, Reply, Gate, sql_of, with_sql}
use qt_chatting.Protocol.{success, err_server, err_email_registered}
use qt_chatting.Sql.Laws
use qt_chatting.Sql.Laws.{User, has_email}
use qt_chatting.Sql.Laws.Keys
use qt_chatting.Sql.Laws.Unique.{Evolves, Evolves-has_email, has_email-append}
use qt_chatting.Sql.Mgr.Correct.{
  Hashes, email_exists-Runs_mgr, reg_user-Runs_mgr, reg_user-Runs_duplicate,
}

int_eq-zero : (z : ℤ) → int_eq z (pos 0) ≡ true → z ≡ pos 0
int_eq-zero (pos zero) e = refl
int_eq-zero (pos (suc n)) e = absurd (ground arith)
int_eq-zero (negsuc n) e = absurd (ground arith)

module _ (o : Outside) (l : Laws.Working o.mysql) (b : Hashes o.mysql o.bcrypt l)
    (key : Keys.HasKey o.mysql l)
    (apart : (k : String) (w : o.World) → l.rows (o.redis.get k w).1 ≡ l.rows w)
    (same_refl : (e : String) → l.same e e ≡ true) where
  open o use {mysql, bcrypt, redis, json}

  After : Gate o → Job o → Phase o → Type 0
  After g j p = let (q, h) = advance o j p g in Kept o l h j q

  has_email-last :
      (e : String) (us : List User) (u : User)
      → l.same u.email e ≡ true
      → has_email l.same e (us ++ u ∷ []) ≡ true
  unfolding has_email
  has_email-last e us u s = has_email-append l.same e us (u ∷ []) ∙ ground (arith, s)

  After-is :
      (j : Job o) (p q : Phase o) (g h : Gate o)
      → advance o j p g ≡ (q, h)
      → Kept o l h j q
      → After g j p
  unfolding After
  After-is j p q g h e k = subst (λ r. Kept o l r.1 j r.0) (sym e) k

  -- A new row is added, or refused by the key.
  new-After :
      (j : Job o) (g : Gate o) (rows : List User) (name pwd : String)
      → json.member_string j.src "username" ≡ returned name
      → json.member_string j.src "passwd" ≡ returned pwd
      → HasRows o l b rows g
      → After g j (acting (pos 0))
  unfolding advance register_if register_new
  new-After j g rows name pwd n p h = elim (Bool-cases (has_email l.same j.email rows)) [
    | inl known ↦
        let (t, out, h') =
          reg_user-Runs_duplicate mysql bcrypt l b key name j.email pwd rows (sql_of o g) known h in
        After-is j (acting (pos 0)) (answered (returned (error_reply o err_server))) g
          (with_sql o g t) (rw (n, p, out) refl) tt
    | inr new ↦
        let (t, out, h') =
          reg_user-Runs_mgr mysql bcrypt l b name j.email pwd rows (sql_of o g) new h in
        After-is j (acting (pos 0)) (answered (returned (error_reply o success))) g (with_sql o g t)
          (rw (n, p, out) refl) (rw h'.rows_are (has_email-last j.email rows _ (same_refl j.email)))
  ]

  -- The other ends of register_new, and those of register_if without a call.
  fields-After :
      (j : Job o) (g : Gate o) (rows : List User)
      → HasRows o l b rows g
      → After g j (acting (pos 0))
  unfolding advance register_if register_new
  fields-After j g rows h =
      go (json.member_string j.src "username") (json.member_string j.src "passwd") refl refl
    where
      failed :
          (r : Outcome (Reply json.Value))
          → advance o j (acting (pos 0)) g ≡ (answered r, g)
          → Kept o l g j (answered r)
          → After g j (acting (pos 0))
      failed r = After-is j (acting (pos 0)) (answered r) g g

      go :
          (u v : Outcome String)
          → json.member_string j.src "username" ≡ u
          → json.member_string j.src "passwd" ≡ v
          → After g j (acting (pos 0))
      go (returned name) (returned pwd) n p = new-After j g rows name pwd n p h
      go (returned name) (threw e) n p =
          failed (returned (error_reply o err_server)) (rw (n, p) refl) tt
      go (returned name) blocked n p = failed blocked (rw (n, p) refl) tt
      go (returned name) undefined n p = failed undefined (rw (n, p) refl) tt
      go (threw e) v n p = failed (returned (error_reply o err_server)) (rw n refl) tt
      go blocked v n p = failed blocked (rw n refl) tt
      go undefined v n p = failed undefined (rw n refl) tt

  acting-After :
      (exist : ℤ) (j : Job o) (g : Gate o) (rows : List User)
      → HasRows o l b rows g
      → After g j (acting exist)
  unfolding advance register_if
  acting-After exist j g rows h =
      let answer : (r : Reply json.Value)
          → advance o j (acting exist) g ≡ (answered (returned r), g)
          → Kept o l g j (answered (returned r))
          → After g j (acting exist) =
        λ r. After-is j (acting exist) (answered (returned r)) g g in
      elim (Bool-cases (int_eq exist (pos 1))) [
        | inl t ↦ answer (error_reply o err_email_registered) (rw t refl) tt
        | inr t ↦ elim (Bool-cases (int_eq exist (negsuc 0))) [
          | inl u ↦ answer (error_reply o err_server) (rw (t, u) refl) tt
          | inr u ↦ elim (Bool-cases (int_eq exist (pos 0))) [
            | inl v ↦ rw (int_eq-zero exist v) (fields-After j g rows h)
            | inr v ↦ answer (record { error = none; email = none }) (rw (t, u, v) refl) tt
          ]
        ]
      ]

  rows-Evolves :
      (g h : Gate o) (rows : List User)
      → HasRows o l b rows g
      → ((rows' : List User) × HasRows o l b rows' h × Evolves l.same rows rows')
      → Evolves l.same (l.rows g.world) (l.rows h.world)
  rows-Evolves g h rows a (rows', a', ev) =
      subst₂ (λ us vs. Evolves l.same us vs) (sym a.rows_are) (sym a'.rows_are) ev

  advance-IsListed :
      (j : Job o) (p : Phase o) (g : Gate o) (rows : List User)
      → HasRows o l b rows g
      → IsListed o l j g
      → IsListed o l j (advance o j p g).1
  advance-IsListed j p g rows h k =
      Evolves-has_email l.same j.email (l.rows g.world) (l.rows (advance o j p g).1.world)
        (rows-Evolves g (advance o j p g).1 rows h (advance-Evolves o l b key apart j p g rows h)) k

  advance-After :
      (j : Job o) (p : Phase o) (g : Gate o) (rows : List User)
      → HasRows o l b rows g
      → Kept o l g j p
      → After g j p
  unfolding After advance
  advance-After j asking g rows h k =
      asked-Kept o l _ j
        (record g { world = (redis.get (redis_key "RegisterCode:" j.email) g.world).1 })
  advance-After j looking g rows h k = looked-Kept o l _ j _
  advance-After j (acting exist) g rows h k = acting-After exist j g rows h
  advance-After j checking g rows h k =
      let (t, out, h') = email_exists-Runs_mgr mysql bcrypt l j.email rows (sql_of o g) h in
      let known = has_email l.same j.email rows in
      After-is j checking (checked o (returned (if known then pos 1 else pos 0))) g (with_sql o g t)
        (rw out refl) (checked-Kept o l known j (with_sql o g t) (rw h'.rows_are refl))
  advance-After j fetching g rows h k =
      fetched-Kept o l (fetch o j g).0 j (advance o j fetching g).1
        (advance-IsListed j fetching g rows h k)
  advance-After j changing g rows h k =
      let out = try_catch (reset_now o j.src j.email) (λ e. pure (error_reply o err_server)) g in
      answered-Kept o l out.0 j out.1 (advance-IsListed j changing g rows h k)
  advance-After j (answered r) g rows h k = k

  turn-AllKept :
      (i : ℕ) (jobs : List (Job o × Phase o)) (g : Gate o) (rows : List User)
      → HasRows o l b rows g
      → AllKept o l g jobs
      → AllKept o l (turn o i jobs g).1 (turn o i jobs g).0
  unfolding turn After
  turn-AllKept i [] g rows h ks = tt
  turn-AllKept zero ((j, p) ∷ rest) g rows h (k, ks) = (
    advance-After j p g rows h k,
    AllKept-later o l g (advance o j p g).1
        (rows-Evolves g (advance o j p g).1 rows h (advance-Evolves o l b key apart j p g rows h))
        rest ks,
  )
  turn-AllKept (suc i) ((j, p) ∷ rest) g rows h (k, ks) = (
    Kept-later o l g (turn o i rest g).1
        (rows-Evolves g (turn o i rest g).1 rows h (turn-Evolves o l b key apart i rest g rows h)) j
        p k,
    turn-AllKept i rest g rows h ks,
  )

  -- Over a database that obeys SQL, finds an email equal to itself and refuses to insert an email
  -- that has a row, a pool with current_conn_ below max_conn_, a BCrypt that returns a hash and a
  -- Redis that may fail, the last two without touching the table: whatever requests to register and
  -- to reset a password are at work, and in whatever order their calls of Redis and of the database
  -- come, at the end there is a row with the email of every request that is answered SUCCESS, and
  -- of every reset that has found its email. At the start that must hold of requests that are
  -- answered already and of resets that have found their email; of the others nothing is asked.
  pub run-AllKept :
      (schedule : List ℕ) (jobs : List (Job o × Phase o)) (g : Gate o) (rows : List User)
      → HasRows o l b rows g
      → AllKept o l g jobs
      → AllKept o l (run o schedule jobs g).1 (run o schedule jobs g).0
  unfolding run
  run-AllKept [] jobs g rows h ks = ks
  run-AllKept (i ∷ schedule) jobs g rows h ks =
      let (rows', h', ev) = turn-Evolves o l b key apart i jobs g rows h in
      run-AllKept schedule (turn o i jobs g).0 (turn o i jobs g).1 rows' h'
        (turn-AllKept i jobs g rows h ks)
