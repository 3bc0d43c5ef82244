-- ===== src/Tests/Mail.antt =====
-- A code that is mailed by the verification service and used at the gate server.
use Prim.Native.String.{count}
use qt_chatting.Prelude.{
  ℕ, ◌+◌, ◌≡◌, refl, ap, arith, String, str_eq, eq_refl, true, false, some, List, [], ◌∷◌,
  if◌then◌else◌, returned, Runs, pos,
}
use qt_chatting.Rpc.{RpcConnectionPool}
use qt_chatting.Rpc.Bounds.{Holds, new_pool-Holds}
use qt_chatting.Sql.Laws.{has_email}
use qt_chatting.Varify.{Node, mail_options, get_varify_code, response, service, success}
use qt_chatting.Varify.Correct.{Delivers, Mails, get_varify_code-Mails}
use qt_chatting.Protocol.{resetpwd_mod}
use qt_chatting.Varify.Digits.{padded, value, padded-value, AllDigits}
use qt_chatting.Flow.{linked, Reads, code-Registers}
use qt_chatting.Gate.Outside.{Outside, Gate, Redis}
use qt_chatting.Gate.Logic.{answer_get_varifycode, answer_user_register}
use qt_chatting.Gate.Logic.Register
use qt_chatting.Gate.Logic.Register.{Registers}
use qt_chatting.Tests.Fakes.{World, mysql, bcrypt, json, laws, hashes, world, bob, register_fields}
use qt_chatting.Tests.Database.{pool_of_two}

-- The random number is the least that is asked for.
abbrev node : Node World
node = record {
  random_int = λ a b w. (a, w);
  redis_set = λ key v w.
      (returned tt, record w { stored = λ k. if str_eq k key then some v else w.stored k });
  redis_expire = λ key seconds w. (returned tt, w);
  send_mail = λ mail w. (returned "250 OK", record w { mails = mail ∷ w.mails });
}

abbrev delivers : Delivers node laws.rows
delivers = record {
  stored = λ key w. w.stored key;
  mails = λ w. w.mails;
  random_lem = λ a b w h. (a, w, refl, omega arith, h, refl, refl);
  set_lem = λ key v w. (
    (node.redis_set key v w).1,
    refl,
    ap (λ b. if b then some v else w.stored key) (eq_refl key),
    refl,
    refl,
  );
  expire_lem = λ key seconds w. (w, refl, refl, refl, refl);
  mail_lem = λ mail w. ("250 OK", (node.send_mail mail w).1, refl, λ key. refl, refl, refl);
}

-- Redis as the gate server's client sees it.
abbrev redis : Redis World
redis = record { get = λ key w. (returned (w.stored key), w); ping = λ w. (returned tt, w) }

abbrev both : Outside
both = linked node mysql bcrypt redis json

get_varify_code-Mails_example :
    (k : ℕ) × Runs
      (get_varify_code node (record { email = "ann@example.org"; module_id = pos 1 }))
      world
      (response "ann@example.org" success)
      (Mails node laws.rows delivers "ann@example.org" resetpwd_mod k world)
get_varify_code-Mails_example =
    get_varify_code-Mails node laws.rows delivers "ann@example.org" resetpwd_mod world

padded-value_example : (count (padded 42) ≡ 6) × AllDigits (padded 42) × (value 0 (padded 42) ≡ 42)
padded-value_example = padded-value 42 (omega arith)

-- The request whose fields are the user's, with a code that was typed in.
abbrev form : String → List (String × String)
form code =
    ("username", "ann")
    ∷ ("email", "ann@example.org")
    ∷ ("passwd", "password1")
    ∷ ("reg_varifycode", code)
    ∷ []

abbrev fields : (code : String) → Register.Fields both (form code)
fields code = record {
  email = "ann@example.org";
  code = code;
  username = "ann";
  passwd = "password1";
  email_is = refl;
  code_is = refl;
  username_is = refl;
  passwd_is = refl;
}

abbrev stubs : (p : RpcConnectionPool (Unit {0})) × Holds p [] 0 × (p.max_size + 1 ≡ 4)
stubs =
    let (p, made, holds, max) =
      new_pool-Holds (service node) 2 4 "127.0.0.1" "50051" refl (omega arith) in
    (p, holds, max)

abbrev gate : Gate both
gate = record { sql_pool = pool_of_two; rpc_pool = stubs.0; world = world }

reads : Reads node mysql bcrypt redis json laws hashes delivers
reads key w = (w, refl, refl)

ann_is_new : has_email str_eq "ann@example.org" (bob ∷ []) ≡ false
unfolding has_email
ann_is_new = refl

code-Registers_example :
    (k : ℕ) × (t : Gate both) × (answer_get_varifycode both (some register_fields) gate
      ≡ (returned (record { error = some (pos 0); email = some register_fields }), t))
    × (t.world.mails ≡ mail_options "ann@example.org" (pos 0) (padded k) ∷ [])
    × Registers both laws hashes
        (form (padded k))
        (fields (padded k))
        (bob ∷ [])
        true
        false
        t
        (answer_user_register both (some (form (padded k))))
code-Registers_example =
    code-Registers node mysql bcrypt redis json laws hashes delivers register_fields register_fields
      "ann@example.org" (bob ∷ []) gate form fields [] 0 refl refl stubs.1
      (let max = stubs.2 in omega arith) (record { rows_are = refl; free = omega arith }) reads
      ann_is_new (λ code. refl) (λ code. refl)
