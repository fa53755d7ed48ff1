-- ===== src/SelectServer/Tests.antt =====
-- The server when it starts, and with its first client.
use linux_c_study.Prelude.{
  ℕ, ◌+◌, ◌≤◌, ◌≡◌, refl, inl, inr, Bool, true, false, ◌&&◌, some, [], ◌∷◌, ◌++◌, map, arith, ltb,
  leb, ◌==◌, if◌then◌else◌, Bool-cases, replicate,
}
use linux_c_study.Kernel.{value, Answer, error, got, eintr}
use linux_c_study.SelectServer.{
  size, Ifno, Server, put, ifno_init, round, setup, toupper, reply, scan_clients,
}
use linux_c_study.SelectServer.Table.{Aligned}
use linux_c_study.SelectServer.Rounds.{round-Aligned, setup-Aligned}
use linux_c_study.SelectServer.Replies.{calls_on, due, scan_clients-due}
use linux_c_study.SelectServer.Scan.{count_ready}

abbrev zeros : ℕ → Ifno
zeros i = record { fd = 0; flag = false }

-- Descriptor 3 listens.
abbrev started : Server
started = record {
  ftd = 3;
  ifno = ifno_init zeros size 0;
  set = put (λ fd. false) 3 true;
  maxftd = 3;
  log = [];
}

setup-Aligned_example : Aligned started
unfolding setup
setup-Aligned_example =
    setup-Aligned zeros (value 3) (value 0) (value 0) {s = started} (λ i. refl) refl

abbrev listening_ready : ℕ → Bool
listening_ready fd = fd == 3

abbrev greeting : ℕ → Answer
greeting fd = got (104 ∷ 105 ∷ [])

-- A connection comes, with descriptor 4.
round-Aligned_example :
    (s' : Server) × (round listening_ready greeting 4 1 started ≡ some s') × Aligned s'
round-Aligned_example =
    round-Aligned listening_ready greeting 4 1 started setup-Aligned_example
      (record {
        above = omega arith;
        unused = ground arith;
        taken = λ fd a b. absurd (omega arith);
      })
      (λ fd a b. absurd (ground arith))

-- Two clients, of which the second has written.
abbrev two_clients : Server
two_clients = record {
  ftd = 3;
  ifno = λ i. if ltb i 2 then record { fd = 4 + i; flag = true } else zeros i;
  set = λ fd. leb 3 fd && leb fd 5;
  maxftd = 5;
  log = [];
}

capitals : map toupper (104 ∷ 49 ∷ 105 ∷ []) ≡ 72 ∷ 49 ∷ 73 ∷ []
unfolding toupper
capitals = refl

-- A client whose read has failed is sent the empty buffer.
zeros_sent : reply (error eintr) ≡ replicate 1024 0
unfolding reply
zeros_sent = refl

two_clients-Aligned : Aligned two_clients
two_clients-Aligned = record {
  own_fd = λ i l h. ground arith;
  old_fd = λ i l. elim (Bool-cases (ltb i 2)) [
    | inl client ↦ inr (ground arith)
    | inr none_ ↦ inl (ground arith)
  ];
  in_set = λ i l. ground arith;
  range = λ fd h. ground arith;
  highest = λ fd h. ground arith;
}

second_ready : (fd : ℕ) → 4 ≤ fd → (fd == 5) ≡ true → two_clients.set fd ≡ true
second_ready fd lo h = ground arith

one_ready : count_ready (λ fd. fd == 5) 2 4 ≤ 1
unfolding count_ready
one_ready = omega arith

scan_clients-due_example :
    (s' : Server) × (scan_clients (λ fd. fd == 5) greeting 1 two_clients ≡ some s')
    × (calls_on 5 s'.log ≡ due 5 (got (104 ∷ 105 ∷ [])) ++ [])
scan_clients-due_example =
    scan_clients-due (λ fd. fd == 5) greeting 1 5 two_clients two_clients-Aligned second_ready
      one_ready (omega arith) (omega arith)
