-- ===== src/Gate/Server.antt =====
-- server/gate_server/src/CServer.cpp: the accept loop. Boost.Asio's part is the outcome of each
-- async_accept, and whether HttpConnection::start returns.
use qt_chatting.Prelude.{
  ℕ, zero, suc, ◌-◌, ◌%◌, ◌≡◌, refl, sym, ap, ◌∙◌, arith, String, Bool, true, false, Option, none,
  some, List, [], ◌∷◌, if◌then◌else◌, ltb, Exec, Outcome, returned, threw, subst, ◌+◌, modify,
  try_catch, ◌>>◌, iterate,
}
use qt_chatting.Gate.Contexts.{
  IOcontextPool, get_iocontext, after_one, get_iocontext-iterate, after_one-get,
}

-- The contexts, the context of the connection that the pending async_accept waits for, and those of
-- the connections that were started, the last one first. A context is its index, or `none` where it
-- is out of bounds. `accepts` counts the pending async_accepts.
pub record Server : Type 0 where
  pub contexts : IOcontextPool
  pub waiting : Option ℕ
  pub accepts : ℕ
  pub started : List (Option ℕ)

-- start(): a connection on the next context, and one more async_accept.
pub start : Server → Server
start s =
    let (context, pool) = get_iocontext s.contexts in
    record s { contexts = pool; waiting = context; accepts = suc s.accepts }

-- http_con->start(), which returns or throws.
begin_reading : Outcome (Unit {0}) → Exec Server (Unit {0})
begin_reading (returned u) s = (returned u, record s { started = s.waiting ∷ s.started })
begin_reading r s = (r, s)

-- The handler of async_accept, which is no longer pending: did it fail, and how http_con->start()
-- ends.
pub on_accept : Bool → Outcome (Unit {0}) → Exec Server (Unit {0})
unfolding begin_reading start
on_accept ec reading s =
    try_catch (if ec then modify start else do begin_reading reading; modify start)
      (λ e. modify start) (record s { accepts = s.accepts - 1 })

-- What an async_accept can end in: an error, or a connection whose start returns or throws.
pub data Accepted : Type 0 where
  failed : Accepted
  connected : Accepted
  not_started : String → Accepted

pub accept_one : Accepted → Server → Server
unfolding on_accept
accept_one failed s = (on_accept true (returned tt) s).1
accept_one connected s = (on_accept false (returned tt) s).1
accept_one (not_started e) s = (on_accept false (threw e) s).1

pub run : List Accepted → Server → Server
unfolding accept_one
run [] s = s
run (a ∷ more) s = run more (accept_one a s)

abbrev pub count : List Accepted → ℕ
count [] = 0
count (a ∷ more) = suc (count more)

-- The server of main, when it has been started.
pub listening : ℕ → Server
unfolding start
listening size = start (record {
  contexts = record { size = size; next_iocontext = 0 };
  waiting = none;
  accepts = 0;
  started = [];
})

-- The k-th connection waits, where `k` were made before it.
pub record Waits (k size : ℕ) (s : Server) : Type 0 where
  pub one_accept : s.accepts ≡ 1
  pub waiting_is : s.waiting ≡ (if ltb (k % 5) size then some (k % 5) else none)
  pub contexts_are :
      s.contexts ≡ iterate after_one (suc k) (record { size = size; next_iocontext = 0 })

iterate-last :
    (k : ℕ) (p : IOcontextPool) → iterate after_one (suc k) p ≡ after_one (iterate after_one k p)
iterate-last zero p = refl
iterate-last (suc k) p = iterate-last k (after_one p)

-- What every way on has in common: it ends in start().
start-Waits :
    (k size : ℕ) (s t : Server)
    → Waits k size s
    → t.contexts ≡ s.contexts
    → t.accepts ≡ s.accepts - 1
    → Waits (suc k) size (start t)
unfolding start
start-Waits k size s t h e f =
    let all = e ∙ h.contexts_are in
    record {
      one_accept = ap suc (f ∙ ap (λ n. n - 1) h.one_accept);
      waiting_is = ap (λ p. (get_iocontext p).0) all ∙ get_iocontext-iterate (suc k) size;
      contexts_are = after_one-get t.contexts ∙ ap after_one all ∙ sym (iterate-last (suc k) _);
    }

accept_one-Waits :
    (k size : ℕ) (a : Accepted) (s : Server) → Waits k size s → Waits (suc k) size (accept_one a s)
unfolding accept_one on_accept begin_reading
accept_one-Waits k size failed s h =
    start-Waits k size s (record s { accepts = s.accepts - 1 }) h refl refl
accept_one-Waits k size connected s h =
    start-Waits k size s (record s { accepts = s.accepts - 1; started = s.waiting ∷ s.started }) h
      refl refl
accept_one-Waits k size (not_started e) s h =
    start-Waits k size s (record s { accepts = s.accepts - 1 }) h refl refl

run_from-Waits :
    (es : List Accepted) (k size : ℕ) (s : Server)
    → Waits k size s
    → Waits (count es + k) size (run es s)
unfolding run
run_from-Waits [] k size s h = subst (λ n. Waits n size s) (omega arith) h
run_from-Waits (a ∷ es) k size s h =
    subst (λ n. Waits n size (run es (accept_one a s))) (omega arith)
      (run_from-Waits es (suc k) size (accept_one a s) (accept_one-Waits k size a s h))

-- However the async_accepts of the server end, with an error, with a connection that starts or with
-- one whose start throws, after k of them one is pending, and its connection has the context at k
-- modulo 5, or is out of bounds where the pool has no more contexts than that.
pub run-Waits : (es : List Accepted) (size : ℕ) → Waits (count es) size (run es (listening size))
unfolding listening start
run-Waits es size =
    subst (λ n. Waits n size (run es (listening size))) (omega arith)
      (run_from-Waits es 0 size (listening size) (record {
        one_accept = refl;
        waiting_is = get_iocontext-iterate 0 size;
        contexts_are = after_one-get _;
      }))
