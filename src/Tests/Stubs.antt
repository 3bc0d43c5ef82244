-- ===== src/Tests/Stubs.antt =====
-- The pool of stubs at work.
use qt_chatting.Prelude.{
  ℕ, ◌≡◌, refl, String, some, List, [], ◌∷◌, ◌++◌, arith, returned, undefined, replicate,
}
use qt_chatting.Protocol.{Modules, register_mod, resetpwd_mod}
use qt_chatting.Ring
use qt_chatting.Ring.{full_node, empty_node}
use qt_chatting.Rpc.{Rpc, RpcConnectionPool, new_pool, get_connection, get_varify_code}
use qt_chatting.Rpc.Bounds.{Holds}
use qt_chatting.Rpc.Client.{answered, request_of, get_varify_code-Holds}
use qt_chatting.Rpc.Threads.{Shared, Step, Reach, IsSound, Reach-IsSound}
use qt_chatting.Rpc.Unusable.{serve_all, new_pool-zeroed_undefined}
use qt_chatting.Tests.Fakes.{grpc, world}
use qt_chatting.Tests.Buffer.{four_places, four_places-Represents}

-- Nothing stored, and room for three stubs.
abbrev pub fresh : Rpc grpc
fresh = record {
  pool = record {
    connections = four_places;
    target = "127.0.0.1:50051";
    max_size = 3;
    current_size = 0;
  };
  world = world;
}

fresh-Holds : Holds fresh.pool [] 0
fresh-Holds = record {
  ring = four_places-Represents;
  capacity_is = refl;
  counted = refl;
  bounded = omega arith;
}

-- One stub lent of two.
abbrev pub lending : Rpc grpc
lending = record {
  pool = record {
    connections = record {
      buffer = full_node (some 9) ∷ empty_node ∷ empty_node ∷ empty_node ∷ [];
      capacity = 4;
      head = 0;
      tail = 1;
    };
    target = "127.0.0.1:50051";
    max_size = 3;
    current_size = 2;
  };
  world = world;
}

pub lending-Holds : Holds lending.pool (9 ∷ []) 1
lending-Holds = record {
  ring = record {
    power = 2;
    power_of_two = refl;
    in_word = omega arith;
    sized = refl;
    head_in = omega arith;
    room = omega arith;
    tail_at = refl;
    filled = (refl, tt);
  };
  capacity_is = refl;
  counted = refl;
  bounded = omega arith;
}

get_varify_code-Holds_example :
    (t : Rpc grpc) × (ys : List ℕ) × (get_varify_code grpc "ann@example.org" register_mod lending
      ≡ (
        returned
            (answered (grpc.get_varify_code 9 (request_of "ann@example.org" register_mod) world).0),
        t,
      ))
    × Holds t.pool (ys ++ 9 ∷ []) 1
    × (t.world ≡ world)
get_varify_code-Holds_example =
    get_varify_code-Holds grpc lending (9 ∷ []) 1 "ann@example.org" register_mod lending-Holds
      (omega arith)

abbrev start : Shared grpc
start = record { rpc = fresh; lent = [] }

abbrev one_lent : Shared grpc
one_lent = record { rpc = (get_connection grpc fresh).1; lent = 0 ∷ [] }

taken_first : get_connection grpc fresh ≡ (returned (some 0), one_lent.rpc)
unfolding get_connection Ring.is_empty
taken_first = refl

Reach-IsSound_example : IsSound grpc 3 one_lent
Reach-IsSound_example =
    Reach-IsSound grpc {max = 3} {c = start} {d = one_lent}
      (record { stored = []; holds = fresh-Holds; limit = refl })
      (Reach.next Reach.here (Step.acquires 0 taken_first refl))

abbrev zeroed_pool : RpcConnectionPool ℕ
zeroed_pool = record {
  connections = record { buffer = replicate 2 empty_node; capacity = 0; head = 0; tail = 0 };
  target = "127.0.0.1:50051";
  max_size = 1;
  current_size = 0;
}

zeroed_made : new_pool grpc 0 2 "127.0.0.1" "50051" ≡ some zeroed_pool
unfolding new_pool Ring.new
zeroed_made = refl

abbrev three_requests : List (String × Modules)
three_requests =
    ("ann@example.org", register_mod)
    ∷ ("bob@example.org", resetpwd_mod)
    ∷ ("eve@example.org", register_mod)
    ∷ []

new_pool-zeroed_undefined_example :
    (serve_all grpc three_requests (record { pool = zeroed_pool; world = world })).0 ≡ undefined
new_pool-zeroed_undefined_example =
    new_pool-zeroed_undefined grpc 2 "127.0.0.1" "50051" zeroed_pool world three_requests
      (omega arith) (omega arith) zeroed_made refl
