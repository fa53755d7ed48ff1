-- ===== src/HelloServer/Tests.antt =====
-- Bufferevents as two lists, and a server with one client.
use linux_c_study.Prelude.{
  ℕ, ◌≤◌, ◌≡◌, refl, ◌≢◌, true, none, some, List, [], ◌∷◌, ◌++◌, map, arith, ℕ_discrete, length,
  take, drop, take-append-drop, length-take,
}
use linux_c_study.SelectServer.{toupper}
use linux_c_study.HelloServer.Echo.{echoed, received, Reach-echoed}
use linux_c_study.HelloServer.{
  Bufferevents, opened, came, sent, Server, Reach, here, next, connects, readable, writable, main,
  initial, put, running, broken, listener_cb, conn_readcb, conn_writecb,
}

record Buffers : Type 0 where
  input : List ℕ
  output : List ℕ

take_some : (n : ℕ) (xs : List ℕ) → length (take n xs) ≤ n
take_some n xs = omega (arith, length-take n xs)

abbrev lists : Bufferevents
lists = record {
  Bev = Buffers;
  new = record { input = []; output = [] };
  input = λ b. b.input;
  output = λ b. b.output;
  read = λ n b. (take n b.input, record b { input = drop n b.input });
  write = λ bs b. record b { output = b.output ++ bs };
  arrive = λ bs b. record b { input = b.input ++ bs };
  flush = λ k b. (take k b.output, record b { output = drop k b.output });
  input-new = refl;
  output-new = refl;
  read_some = λ n b. take_some n b.input;
  read-input = λ n b. take-append-drop n b.input;
  read-output = λ n b. refl;
  write-input = λ bs b. refl;
  write-output = λ bs b. refl;
  arrive-input = λ bs b. refl;
  arrive-output = λ bs b. refl;
  flush-input = λ k b. refl;
  flush-output = λ k b. take-append-drop k b.output;
}

-- "a" has come in on descriptor 7, and been answered.
abbrev answered : Server lists
answered = record {
  conn =
      put lists
        (put lists (put lists (λ fd. none) 7 (some lists.new)) 7
          (some (record { input = []; output = 65 ∷ [] })))
        7 (some (record { input = []; output = [] }));
  loop = running;
  log = sent 7 (65 ∷ []) ∷ came 7 (97 ∷ []) ∷ opened 7 ∷ [];
}

not_broken : running ≢ broken
not_broken e = ground arith

abbrev run : Reach lists (initial lists) answered
unfolding listener_cb conn_readcb conn_writecb toupper ℕ_discrete
run =
    next
      (next (next here (connects 7 true not_broken refl))
        (readable 7 lists.new (97 ∷ []) not_broken refl))
      (writable 7 (record { input = []; output = 65 ∷ [] }) 5 not_broken refl)

Reach-echoed_example : echoed 7 answered.log ++ [] ≡ map toupper (received 7 answered.log)
unfolding main ℕ_discrete
Reach-echoed_example =
    Reach-echoed lists true true true true {s = initial lists} {t = answered} 7 lists.new refl run
      refl
