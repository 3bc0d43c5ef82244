-- ===== src/Gate/Logic/Interleaving/Race.antt =====
-- Over a table without a unique key on its emails: two requests of which each looks before the other
-- has added its row.
use qt_chatting.Prelude.{Bool, true, false, if◌then◌else◌}
use qt_chatting.Prelude.{
  subst, ℕ, String, false, ◌≡◌, refl, ap, ◌∙◌, List, [], ◌∷◌, ◌++◌, pos, returned,
}
use mathlib.Core.List.{append_assoc, append-nil}
use qt_chatting.Gate.Logic.{register_if, register_new}
use qt_chatting.Gate.Logic.Interleaving.{
  Job, Phase, looking, acting, answered, looked, advance, turn, run,
}
use qt_chatting.Gate.Logic.Register.{Fields, HasRows, with_error}
use qt_chatting.Gate.Outside.{Outside, Gate, sql_of, with_sql}
use qt_chatting.Protocol.{success}
use qt_chatting.Sql.Laws
use qt_chatting.Sql.Laws.{User, has_email}
use qt_chatting.Sql.Laws.Keys
use qt_chatting.Sql.Mgr.Correct.{Hashes, email_exists-Runs_mgr}
use qt_chatting.Sql.Mgr.Correct

module _ (o : Outside) (l : Laws.Working o.mysql) (b : Hashes o.mysql o.bcrypt l)
    (any : Keys.TakesAny o.mysql l) where
  open o use {mysql, bcrypt, redis, json}

  abbrev pub job_of : (src : json.Value) → Fields o src → Job o
  job_of src f = record { src = src; email = f.email; code = f.code }

  abbrev pub row_of : (src : json.Value) → Fields o src → String → User
  row_of src f hash = record { name = f.username; email = f.email; pwd_hash = hash }

  -- Before emailExists: it finds no row.
  looks :
      (j : Job o) (rows : List User) (g : Gate o)
      → has_email l.same j.email rows ≡ false
      → HasRows o l b rows g
      → (h : Gate o) × (advance o j looking g ≡ (acting (pos 0), h)) × HasRows o l b rows h
  unfolding advance looked
  looks j rows g new h =
      let (t, out, h') = email_exists-Runs_mgr mysql bcrypt l j.email rows (sql_of o g) h in
      (with_sql o g t, rw (out, new) refl, h')

  -- Behind it: the row is added.
  acts :
      (src : json.Value) (f : Fields o src) (rows : List User) (g : Gate o)
      → HasRows o l b rows g
      → (hash : String) × (h : Gate o) × (advance o (job_of src f) (acting (pos 0)) g
          ≡ (answered (returned (with_error o l b success)), h))
        × HasRows o l b (rows ++ row_of src f hash ∷ []) h
  unfolding advance register_if register_new
  acts src f rows g h =
      let (t, out, h') =
        Correct.reg_user-Runs_any mysql bcrypt l b any f.username f.email f.passwd rows (sql_of o g)
          h in
      (b.hash f.passwd g.world, with_sql o g t, rw (f.username_is, f.passwd_is, out) refl, h')

  turn-first :
      (j k : Job o) (p q r : Phase o) (g h : Gate o)
      → advance o j p g ≡ (q, h)
      → turn o 0 ((j, p) ∷ (k, r) ∷ []) g ≡ ((j, q) ∷ (k, r) ∷ [], h)
  unfolding turn
  turn-first j k p q r g h e = ap (λ t. ((j, t.0) ∷ (k, r) ∷ [], t.1)) e

  turn-second :
      (j k : Job o) (p q r : Phase o) (g h : Gate o)
      → advance o k r g ≡ (q, h)
      → turn o 1 ((j, p) ∷ (k, r) ∷ []) g ≡ ((j, p) ∷ (k, q) ∷ [], h)
  unfolding turn
  turn-second j k p q r g h e = ap (λ t. ((j, p) ∷ (k, t.0) ∷ [], t.1)) e

  run-turn :
      (i : ℕ) (schedule : List ℕ) (jobs next : List (Job o × Phase o)) (g h : Gate o)
      → turn o i jobs g ≡ (next, h)
      → run o (i ∷ schedule) jobs g ≡ run o schedule next h
  unfolding run
  run-turn i schedule jobs next g h e = ap (λ t. run o schedule t.0 t.1) e

  -- Which of the two makes its step first.
  abbrev pub in_order : Bool → List ℕ
  in_order first = if first then 0 ∷ 1 ∷ [] else 1 ∷ 0 ∷ []

  -- Both requests make a step, in either order.
  run-both :
      (first : Bool) (schedule : List ℕ) (j k : Job o) (p q p' q' : Phase o) (g h i : Gate o)
      → (if first
          then (advance o j p g ≡ (p', h)) × (advance o k q h ≡ (q', i))
          else (advance o k q g ≡ (q', h)) × (advance o j p h ≡ (p', i)))
      → run o (in_order first ++ schedule) ((j, p) ∷ (k, q) ∷ []) g
        ≡ run o schedule ((j, p') ∷ (k, q') ∷ []) i
  run-both true schedule j k p q p' q' g h i (e, f) =
      run-turn 0 (1 ∷ schedule) _ _ g h (turn-first j k p p' q g h e)
      ∙ run-turn 1 schedule _ _ h i (turn-second j k p' q' q h i f)
  run-both false schedule j k p q p' q' g h i (e, f) =
      run-turn 1 (0 ∷ schedule) _ _ g h (turn-second j k p q' q g h e)
      ∙ run-turn 0 schedule _ _ h i (turn-first j k p p' q' h i f)

  module _ (src src' : json.Value) (f : Fields o src) (f' : Fields o src') (rows : List User) where
    -- The rows that are added, in the order in which the requests add them.
    abbrev pub added : Bool → String → String → List User
    added first hash hash' =
        if first
        then row_of src f hash ∷ row_of src' f' hash' ∷ []
        else row_of src' f' hash' ∷ row_of src f hash ∷ []

    both_look :
        (first : Bool) (schedule : List ℕ) (g : Gate o)
        → has_email l.same f.email rows ≡ false
        → has_email l.same f'.email rows ≡ false
        → HasRows o l b rows g
        → (i : Gate o) × (run o
              (in_order first ++ schedule)
              ((job_of src f, looking) ∷ (job_of src' f', looking) ∷ [])
              g
            ≡ run o schedule
                ((job_of src f, acting (pos 0)) ∷ (job_of src' f', acting (pos 0)) ∷ [])
                i)
          × HasRows o l b rows i
    both_look true schedule g new new' a =
        let (h, e, a') = looks (job_of src f) rows g new a in
        let (i, e', a'') = looks (job_of src' f') rows h new' a' in
        (i, run-both true schedule _ _ _ _ _ _ g h i (e, e'), a'')
    both_look false schedule g new new' a =
        let (h, e, a') = looks (job_of src' f') rows g new' a in
        let (i, e', a'') = looks (job_of src f) rows h new a' in
        (i, run-both false schedule _ _ _ _ _ _ g h i (e, e'), a'')

    -- Both requests are answered SUCCESS, and the table has both rows.
    abbrev pub Duplicates : Bool → Bool → Gate o → Type 0
    Duplicates looks_first acts_first g =
        (hash hash' : String) × (h : Gate o) × (run o (in_order looks_first ++ in_order acts_first)
            ((job_of src f, looking) ∷ (job_of src' f', looking) ∷ []) g
          ≡ (
            (job_of src f, answered (returned (with_error o l b success)))
                ∷ (job_of src' f', answered (returned (with_error o l b success)))
                ∷ [],
            h,
          ))
        × HasRows o l b (rows ++ added acts_first hash hash') h

    both_act :
        (first : Bool) (g : Gate o)
        → HasRows o l b rows g
        → (hash hash' : String) × (h : Gate o) × (run o
              (in_order first ++ [])
              ((job_of src f, acting (pos 0)) ∷ (job_of src' f', acting (pos 0)) ∷ [])
              g
            ≡ (
              (job_of src f, answered (returned (with_error o l b success)))
                  ∷ (job_of src' f', answered (returned (with_error o l b success)))
                  ∷ [],
              h,
            ))
          × HasRows o l b (rows ++ added first hash hash') h
    unfolding run
    both_act true g a =
        let (hash, h, e, a') = acts src f rows g a in
        let (hash', i, e', a'') = acts src' f' (rows ++ row_of src f hash ∷ []) h a' in
        (
          hash,
          hash',
          i,
          run-both true [] (job_of src f) (job_of src' f') _ _ _ _ g h i (e, e'),
          subst (λ us. HasRows o l b us i)
              (append_assoc rows (row_of src f hash ∷ []) (row_of src' f' hash' ∷ [])) a'',
        )
    both_act false g a =
        let (hash', h, e, a') = acts src' f' rows g a in
        let (hash, i, e', a'') = acts src f (rows ++ row_of src' f' hash' ∷ []) h a' in
        (
          hash,
          hash',
          i,
          run-both false [] (job_of src f) (job_of src' f') _ _ _ _ g h i (e, e'),
          subst (λ us. HasRows o l b us i)
              (append_assoc rows (row_of src' f' hash' ∷ []) (row_of src f hash ∷ [])) a'',
        )

    -- Over a database that obeys SQL and takes any row, a pool with current_conn_ below max_conn_
    -- and a BCrypt that returns a hash and does not touch the table: where two requests to register
    -- one email that no row has, whose codes were right and whose other fields are texts, each
    -- makes its two steps, the look-up of the email and what follows its result, and both look
    -- before either adds its row, both are answered SUCCESS and the table has a row more for each,
    -- in the order in which they add them, whichever of the two looks first and whichever adds
    -- first.
    pub run-duplicate :
        (looks_first acts_first : Bool) (g : Gate o)
        → f'.email ≡ f.email
        → has_email l.same f.email rows ≡ false
        → HasRows o l b rows g
        → Duplicates looks_first acts_first g
    run-duplicate looks_first acts_first g same new a =
        let new' = ap (λ e. has_email l.same e rows) same ∙ new in
        let (i, e, a') = both_look looks_first (in_order acts_first) g new new' a in
        let (hash, hash', h, e', a'') = both_act acts_first i a' in
        (hash, hash', h, e ∙ rw (append-nil (in_order acts_first)) at e', a'')
