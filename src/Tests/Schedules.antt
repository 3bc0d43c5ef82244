-- ===== src/Tests/Schedules.antt =====
-- Requests to register whose calls interleave.
use qt_chatting.Prelude.{
  ◌≡◌, refl, ◌∙◌, ap₂, true, false, Bool, String, str_eq, List, [], ◌∷◌, if◌then◌else◌, arith,
}
use qt_chatting.Sql.Driver.{MySql}
use qt_chatting.Sql.Dao.{insert_query, exists_query, update_query, verify_query}
use qt_chatting.Sql.Laws.{User, has_email, Working}
use qt_chatting.Sql.Laws.Keys
use qt_chatting.Sql.Mgr.Correct.{Hashes}
use qt_chatting.Gate.Outside.{Outside, Gate}
use qt_chatting.Gate.Logic.Interleaving.{Job, Phase, asking, checking, run}
use qt_chatting.Gate.Logic.Interleaving.Kept.{AllKept}
use qt_chatting.Gate.Logic.Interleaving.Success.{run-AllKept}
use qt_chatting.Prelude.{eq_refl}
use qt_chatting.Gate.Logic.Interleaving.Race.{Duplicates, run-duplicate}
use qt_chatting.Gate.Connection.Accounts.{Post, Serves, exchange_all-Serves}
use qt_chatting.Gate.Logic.Accounts.{register, reset}
use qt_chatting.Tests.Database.{pool_of_two}
use qt_chatting.Tests.Fakes.{
  World, mysql, laws, hashes, bcrypt, outside, executed, bob, register_fields, reset_fields,
}
use qt_chatting.Tests.Server.{empty_response, gate, register_request, reset_request}
use qt_chatting.Prelude.{some}

-- The database with a unique key on the emails.
abbrev is_duplicate : String → List String → List User → Bool
is_duplicate text [] us = false
is_duplicate text (a ∷ []) us = false
is_duplicate text (a ∷ b ∷ more) us =
    if str_eq text insert_query then has_email str_eq b us else false

abbrev keyed_executed : String → List String → World → Bool × World
keyed_executed text params w =
    if is_duplicate text params w.rows then (true, w) else (false, executed text params w)

abbrev keyed : MySql World
keyed = record mysql { stmt_execute = λ st w. keyed_executed w.text w.params w }

keyed_insert :
    (n e h : String) (w : World)
    → has_email str_eq e w.rows ≡ false
    → keyed_executed insert_query (n ∷ e ∷ h ∷ []) w
      ≡ (false, executed insert_query (n ∷ e ∷ h ∷ []) w)
keyed_insert n e h w new = rw new refl

abbrev keyed_laws : Working keyed
keyed_laws = record {
  same = str_eq;
  rows = λ w. w.rows;
  text = λ st w. w.text;
  params = λ st w. w.params;
  has_result = λ st w. w.result;
  init_lem = laws.init_lem;
  real_connect_lem = laws.real_connect_lem;
  set_character_set_lem = laws.set_character_set_lem;
  stmt_init_lem = laws.stmt_init_lem;
  prepare_lem = laws.prepare_lem;
  bind_param_lem = laws.bind_param_lem;
  execute_insert = λ st n e h w t p absent. (
    executed insert_query (n ∷ e ∷ h ∷ []) w,
    ap₂ (λ x y. keyed_executed x y w) t p ∙ keyed_insert n e h w absent,
    refl,
    refl,
  );
  execute_exists = λ st e w t p.
      (executed exists_query (e ∷ []) w, ap₂ (λ x y. keyed_executed x y w) t p, refl, refl);
  execute_verify = λ st e h w t p.
      (executed verify_query (e ∷ h ∷ []) w, ap₂ (λ x y. keyed_executed x y w) t p, refl, refl);
  execute_update = λ st a b w t p.
      (executed update_query (a ∷ b ∷ []) w, ap₂ (λ x y. keyed_executed x y w) t p, refl);
  store_result_lem = laws.store_result_lem;
  bind_result_lem = laws.bind_result_lem;
  fetch_lem = laws.fetch_lem;
  close_lem = laws.close_lem;
}

abbrev keyed_hashes : Hashes keyed bcrypt keyed_laws
keyed_hashes = record { hash = hashes.hash; hash_lem = hashes.hash_lem }

keyed_refused :
    (n e h : String) (w : World)
    → has_email str_eq e w.rows ≡ true
    → keyed_executed insert_query (n ∷ e ∷ h ∷ []) w ≡ (true, w)
keyed_refused n e h w known = rw known refl

abbrev has_key : Keys.HasKey keyed keyed_laws
has_key = record {
  execute_duplicate = λ st n e h w t p known.
      (w, ap₂ (λ x y. keyed_executed x y w) t p ∙ keyed_refused n e h w known, refl);
}

abbrev takes_any : Keys.TakesAny mysql laws
takes_any = record {
  execute_any = λ st n e h w t p. (
    executed insert_query (n ∷ e ∷ h ∷ []) w,
    ap₂ (λ x y. (false, executed x y w)) t p,
    refl,
    refl,
  );
}

abbrev keyed_outside : Outside
keyed_outside = record outside { mysql = keyed }

abbrev keyed_gate : Gate keyed_outside
keyed_gate = record { sql_pool = pool_of_two; rpc_pool = gate.rpc_pool; world = gate.world }

abbrev job : Job keyed_outside
job = record { src = register_fields; email = "ann@example.org"; code = "4711" }

abbrev reset_job : Job keyed_outside
reset_job = record { src = reset_fields; email = "bob@example.org"; code = "4711" }

abbrev at_work : List (Job keyed_outside × Phase keyed_outside)
at_work = (job, asking) ∷ (job, asking) ∷ (reset_job, checking) ∷ []

run-AllKept_example :
    let end = run keyed_outside (0 ∷ 1 ∷ 2 ∷ 0 ∷ 1 ∷ 2 ∷ 0 ∷ 2 ∷ 1 ∷ []) at_work keyed_gate in
    AllKept keyed_outside keyed_laws end.1 end.0
run-AllKept_example =
    run-AllKept keyed_outside keyed_laws keyed_hashes has_key (λ k w. refl) eq_refl
      (0 ∷ 1 ∷ 2 ∷ 0 ∷ 1 ∷ 2 ∷ 0 ∷ 2 ∷ 1 ∷ []) at_work keyed_gate (bob ∷ [])
      (record { rows_are = refl; free = omega arith }) (tt, (tt, (tt, tt)))

-- The second looks first and acts last.
run-duplicate_example :
    Duplicates outside laws hashes takes_any register_fields register_fields register_request
      register_request
      (bob ∷ [])
      false
      true
      gate
unfolding has_email
run-duplicate_example =
    run-duplicate outside laws hashes takes_any register_fields register_fields register_request
      register_request (bob ∷ []) false true gate refl refl
      (record { rows_are = refl; free = omega arith })

-- One user registers twice, another resets a password.
abbrev posts : List (Post outside)
posts =
    record { ask = register register_fields register_request; text = "register"; parsed = refl }
    ∷ record { ask = register register_fields register_request; text = "register"; parsed = refl }
    ∷ record { ask = reset reset_fields reset_request; text = "reset"; parsed = refl }
    ∷ []

exchange_all-Serves_example :
    Serves outside laws hashes (λ key. some "4711") empty_response posts (bob ∷ []) gate
exchange_all-Serves_example =
    exchange_all-Serves outside laws hashes (λ key. some "4711") empty_response posts (bob ∷ [])
      gate (λ key w. (w, refl, refl)) (record { rows_are = refl; free = omega arith })
