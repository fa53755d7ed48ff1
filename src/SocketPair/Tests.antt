-- ===== src/SocketPair/Tests.antt =====
-- A request that arrives in two pieces.
use linux_c_study.Prelude.{
  ℕ, zero, suc, ◌≤◌, min, ◌≡◌, refl, inl, inr, some, List, [], ◌∷◌, arith, replicate,
}
use linux_c_study.Prelude.Bytes.{codes}
use linux_c_study.Prelude.Int.{negsuc}
use linux_c_study.Kernel.{Turn, give, failed, value, other}
use linux_c_study.UpperServer.{read_turn}
use linux_c_study.UpperServer.Replies.{Gives}
use linux_c_study.SocketPair.{answer, service, request, received, text, service_setup, con_setup}
use linux_c_study.SocketPair.Greeting.{answers, joined, service-answers, request-received}

abbrev three_turns : List Turn
three_turns = give 1 ∷ give 5 ∷ give 2 ∷ []

service-answers_example :
    (n : ℕ) × (service (97 ∷ 98 ∷ []) three_turns ≡ some (answers n)) × (n ≤ 2) × (min 1 2 ≤ n)
service-answers_example =
    service-answers three_turns (97 ∷ 98 ∷ []) (omega arith, (omega arith, (omega arith, tt)))
      (omega arith)

two_answers : service (97 ∷ 98 ∷ []) three_turns ≡ some (answer ∷ answer ∷ [])
unfolding service
two_answers = refl

Gives-replicate : (n : ℕ) → Gives (replicate n (give 700))
Gives-replicate zero = tt
Gives-replicate (suc n) = (omega arith, Gives-replicate n)

request-received_example :
    (calls : List (List ℕ)) × (service request (replicate 1025 (give 700)) ≡ some calls)
    × (text (received (read_turn (joined calls) (give 600)).0) ≡ codes "connect is ok")
request-received_example =
    request-received (replicate 1025 (give 700)) 600 (Gives-replicate 1025) (omega arith)
      (omega arith)

-- After a failure of accept the program goes on with a descriptor of -1.
accept-failed : service_setup (value 3) (value 0) (value 0) (failed other) ≡ inr (negsuc 0)
unfolding service_setup
accept-failed = refl

connect-failed : con_setup (value 3) (failed other) ≡ inl (negsuc 0)
unfolding con_setup
connect-failed = refl
