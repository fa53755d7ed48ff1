-- ===== src/EventServer/Tests.antt =====
-- The server with no room left but one slot, and the theorems about it.
use linux_c_study.Prelude.{
  ℕ, zero, suc, ◌+◌, ◌≡◌, refl, true, false, List, [], ◌∷◌, ◌++◌, arith, ℕ_discrete,
}
use linux_c_study.Kernel.{value, got}
use linux_c_study.Search.{first_from}
use linux_c_study.EventServer.{
  size, Client, Action, closed, added, Server, init_cli, get_cli_by_fd, del_event, readcb, Call,
  connection, readable, dispatch, wrote, whole_buf,
}
use linux_c_study.EventServer.Replies.{calls_on, due_all, calls_on-dispatch}
use linux_c_study.EventServer.Lifetime.{count_added, Filled}

-- The array of a process that has just started.
abbrev zeros : ℕ → Client
zeros i = record { flag = false; ftd = 0; ev = 0 }

abbrev started : Server
started = record { client = init_cli zeros size 0; log = [] }

-- A client comes, hangs up, and another one comes.
abbrev visits : List Call
visits =
    connection (value 5) 1 (value 0) ∷ readable 5 (got []) ∷ connection (value 5) 2 (value 0) ∷ []

-- Twenty clients with the descriptors 5 to 24.
abbrev twenty : ℕ → List Action
twenty zero = []
twenty (suc n) = added n (5 + n) ∷ twenty n

abbrev full : Server
full = record { client = λ i. record { flag = true; ftd = 5 + i; ev = i }; log = twenty size }

full-Filled : Filled full
unfolding count_added
full-Filled = record {
  room = omega arith;
  used = λ i h. refl;
  free = λ i a b. absurd (omega arith);
}

-- The client in slot 0 leaves: its event is not deleted.
leaves : (readcb 5 (got []) full).log ≡ closed 5 ∷ full.log
unfolding readcb get_cli_by_fd first_from del_event
leaves = refl

-- Two clients write; the first one then leaves.
abbrev two_writers : List Call
two_writers = readable 5 (got (104 ∷ [])) ∷ readable 6 (got (105 ∷ [])) ∷ readable 5 (got []) ∷ []

calls_on-dispatch_example :
    calls_on 5 (dispatch two_writers full).log ≡ calls_on 5 full.log ++ due_all 5 two_writers
calls_on-dispatch_example = calls_on-dispatch 5 two_writers full

due-two_writers : due_all 5 two_writers ≡ wrote 5 (whole_buf (104 ∷ [])) ∷ closed 5 ∷ []
unfolding ℕ_discrete
due-two_writers = refl
