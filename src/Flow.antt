-- ===== src/Flow.antt =====
-- The gate server and the verification service together: a code is asked for, mailed, and used.
pub mod Window
pub mod Reset
pub mod Network
use qt_chatting.Prelude.{
  ℕ, ◌<◌, String, Bool, true, false, Option, some, List, [], ◌∷◌, ◌≡◌, refl, ap, ◌∙◌, pos, returned,
  Runs, eq_refl, str_eq, subst₂,
}
use qt_chatting.Protocol.{register_mod, GetVarifyReq}
use qt_chatting.Rpc.Bounds.{Holds}
use qt_chatting.Rpc.Client.{request_of, chosen, answered}
use qt_chatting.Sql.Laws
use qt_chatting.Sql.Laws.{User, has_email}
use qt_chatting.Sql.Mgr.Correct.{Hashes}
use qt_chatting.Varify.{Node, mail_options, service}
use qt_chatting.Varify.Correct.{Delivers, Sent, get_varify_code-Sent}
use qt_chatting.Varify.Digits.{padded}
use qt_chatting.Gate.Outside.{Outside, Gate, Redis, JsonCpp, rpc_of}
use qt_chatting.Gate.Logic.{answer_get_varifycode, answer_user_register, is_code, redis_key}
use qt_chatting.Gate.Logic.Code.{SendsCode, answer_get_varifycode-SendsCode}
use qt_chatting.Gate.Logic.Register
use qt_chatting.Gate.Logic.Register.{
  HasRows, Registers, answer_user_register-Runs, with_error, new_row,
}
use qt_chatting.Sql.Driver.{MySql, BCrypt}

-- The gate server whose gRPC leads to the verification service; both see one world outside.
abbrev pub linked :
    {World : Type 0} → Node World → MySql World → BCrypt World → Redis World → JsonCpp → Outside
linked {World} n mysql bcrypt redis json = record {
  World = World;
  mysql = mysql;
  bcrypt = bcrypt;
  redis = redis;
  grpc = service n;
  json = json;
}

module _ {World : Type 0} (n : Node World) (mysql : MySql World) (bcrypt : BCrypt World)
    (redis : Redis World) (json : JsonCpp) (l : Laws.Working mysql) (b : Hashes mysql bcrypt l)
    (d : Delivers n l.rows) where
  abbrev o : Outside
  o = linked n mysql bcrypt redis json

  -- The gate server's Redis client reads what the service's client has stored.
  abbrev pub Reads : Type 0
  Reads =
      (key : String) (w : World)
      → (v : World) × (redis.get key w ≡ (returned (d.stored key w), v)) × (l.rows v ≡ l.rows w)

  reply-Sent :
      (stub : Unit {0}) (req : GetVarifyReq) (w : World)
      → let out = o.grpc.get_varify_code stub req w in
        (k : ℕ) × ((answered out.0).error ≡ pos 0)
        × Sent n l.rows d req.email req.module_id k w out.1
  reply-Sent stub req w =
      let (k, ran) = get_varify_code-Sent n l.rows d req w in
      let (v, e, s) = ran in (k, rw e refl, rw e s)

  abbrev CodeSent : json.Value → json.Value → String → List User → Gate o → Type 0
  CodeSent src value email rows g =
      (k : ℕ) × Runs (answer_get_varifycode o (some src)) g
        (record { error = some (pos 0); email = some value })
        (λ t. Sent n l.rows d email (pos 0) k g.world t.world × HasRows o l b rows t)

  module _ (src value : json.Value) (email : String) (rows : List User) (g : Gate o) where
    code_from-CodeSent :
        (xs : List (Unit {0})) (lent : ℕ) (stub : Unit {0})
        → chosen o.grpc (rpc_of o g) xs ≡ (stub, g.world)
        → SendsCode o src value email register_mod g xs lent (answer_get_varifycode o (some src))
        → HasRows o l b rows g
        → CodeSent src value email rows g
    code_from-CodeSent xs lent stub c (t, out, (ys, h, w, pool)) u =
        let (k, ok, s) = reply-Sent stub (request_of email register_mod) g.world in
        let w' = rw c at w in
        (
          k,
          (
            t,
            out ∙ rw (c, ok) refl,
            (
              rw w' s,
              record { rows_are = ap l.rows w' ∙ s.same_view ∙ u.rows_are; free = rw pool u.free },
            ),
          ),
        )

    pub answer-CodeSent :
        (xs : List (Unit {0})) (lent : ℕ)
        → json.member_string src "email" ≡ returned email
        → json.member src "email" ≡ returned value
        → Holds g.rpc_pool xs lent
        → lent < g.rpc_pool.max_size
        → HasRows o l b rows g
        → CodeSent src value email rows g
    answer-CodeSent [] lent a e h room u =
        code_from-CodeSent [] lent tt refl
          (answer_get_varifycode-SendsCode o src value email g [] lent a e h room) u
    answer-CodeSent (x ∷ xs) lent a e h room u =
        code_from-CodeSent (x ∷ xs) lent x refl
          (answer_get_varifycode-SendsCode o src value email g (x ∷ xs) lent a e h room) u

    -- A user who asks for a code and registers with the one in the mail.
    module _ (form : String → json.Value)
        (f : (code : String) → Register.Fields o (form code)) where
      -- Over a verification service whose Redis and mail transport work, a Redis client of the gate
      -- server that reads what that service stored, a database that obeys SQL, a BCrypt that
      -- returns a hash, none of them but the database touching the table, a pool of connections
      -- with current_conn_ below max_conn_ and a sound pool of stubs with one to lend: a request
      -- for a code for an email that no row has is answered with error 0, the mail that is sent
      -- holds a code, and a request to register with that email and that code is answered SUCCESS
      -- and adds its row to the table.
      pub code-Registers :
          (xs : List (Unit {0})) (lent : ℕ)
          → json.member_string src "email" ≡ returned email
          → json.member src "email" ≡ returned value
          → Holds g.rpc_pool xs lent
          → lent < g.rpc_pool.max_size
          → HasRows o l b rows g
          → Reads
          → has_email l.same email rows ≡ false
          → ((code : String) → (f code).email ≡ email)
          → ((code : String) → (f code).code ≡ code)
          → (k : ℕ) × (t : Gate o) × (answer_get_varifycode o (some src) g
              ≡ (returned (record { error = some (pos 0); email = some value }), t))
            × (d.mails t.world ≡ mail_options email (pos 0) (padded k) ∷ d.mails g.world)
            × Registers o l b
                (form (padded k))
                (f (padded k))
                rows
                true
                false
                t
                (answer_user_register o (some (form (padded k))))
      code-Registers xs lent a e h room u reads new same_email typed =
          let (k, ran) = answer-CodeSent xs lent a e h room u in
          let (t, out, after) = ran in
          let (s, u') = after in
          let (v, got, same) = reads (redis_key "RegisterCode:" email) t.world in
          let code = padded k in
          let asked : redis.get (redis_key "RegisterCode:" (f code).email) t.world
              ≡ (returned (some code), v) =
            ap (λ (em : String). redis.get (redis_key "RegisterCode:" em) t.world) (same_email code)
            ∙ got
            ∙ ap (λ (c : Option String). (returned c, v)) s.kept in
          let right : is_code (f code).code (some code) ≡ true =
            ap (λ (c : String). str_eq c code) (typed code) ∙ eq_refl code in
          let fresh : has_email l.same (f code).email rows ≡ false =
            ap (λ (em : String). has_email l.same em rows) (same_email code) ∙ new in
          (
            k,
            t,
            out,
            s.mailed,
            subst₂
                (λ (m taken : Bool).
                  Registers o l b (form code) (f code) rows m taken t
                    (answer_user_register o (some (form code))))
                right fresh
                (answer_user_register-Runs o l b (form code) (f code) rows t (some code) v u' asked
                  same),
          )
