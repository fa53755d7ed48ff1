-- ===== src/PollServer/Tests.antt =====
-- The server when it starts, and its first connection.
use linux_c_study.Prelude.{
  ℕ, ◌≤◌, ◌≡◌, refl, Bool, none, some, [], ◌∷◌, ◌++◌, arith, ℕ_discrete, ◌==◌,
}
use linux_c_study.Kernel.{value, Answer, got}
use linux_c_study.Search.{first_from}
use linux_c_study.PollServer.{
  Server, put, is_free, get_free, setup, accept_client, round, scan, wrote,
}
use linux_c_study.PollServer.Replies.{count_due, due_entries, scan-due_entries}
use linux_c_study.PollServer.Cover.{Covered, Lowest, round-Covered, setup-Covered}

-- Descriptor 3 listens.
abbrev started : Server
started = record { ftd = 3; client = put (λ i. none) 0 (some 3); maxftd = 3; log = [] }

started-Covered : Covered started
unfolding setup
started-Covered = setup-Covered (value 3) (value 0) (value 0) {s = started} refl

abbrev first_ready : ℕ → Bool
first_ready i = i == 0

abbrev silent : ℕ → Answer
silent fd = got []

-- The client with descriptor 4 is in entry 1.
abbrev connected : Server
connected = record {
  ftd = 3;
  client = put (put (λ i. none) 0 (some 3)) 1 (some 4);
  maxftd = 4;
  log = [];
}

started-Lowest : Lowest started 4
started-Lowest = record {
  above = omega arith;
  unused = λ k h. ground arith;
  taken = λ fd a b. absurd (omega arith);
}

first_round : round first_ready silent (value 4) 1 started ≡ some connected
unfolding round get_free first_from is_free accept_client ℕ_discrete
first_round = refl

round-Covered_example :
    Covered connected × ((k fd : ℕ) → connected.client k ≡ some fd → k ≤ connected.maxftd)
round-Covered_example =
    round-Covered first_ready silent (value 4) 1 started {s' = connected} started-Covered
      started-Lowest first_round

-- The client in entry 1 writes.
abbrev second_entry : ℕ → Bool
second_entry i = i == 1

abbrev hello : ℕ → Answer
hello i = got (104 ∷ 105 ∷ [])

one_due : count_due second_entry hello connected.client 4 1 ≤ 1
unfolding ℕ_discrete
one_due = omega arith

scan-due_entries_example :
    (scan 4 second_entry hello 1 1 connected).log
    ≡ due_entries second_entry hello connected.client 4 1 ++ []
scan-due_entries_example = scan-due_entries second_entry hello 1 connected one_due

due_entries-hello :
    due_entries second_entry hello connected.client 4 1 ≡ wrote 4 (104 ∷ 105 ∷ []) ∷ []
unfolding ℕ_discrete
due_entries-hello = refl
