-- ===== src/EpollEcho/Tests.antt =====
-- The four echo servers with a client on descriptor 5.
use linux_c_study.Prelude.{
  ℕ, ◌≡◌, refl, ◌⊎◌, inl, inr, true, false, none, some, List, [], ◌∷◌, arith, ℕ_discrete,
}
use linux_c_study.Kernel.{Errno, eintr, value, got}
use linux_c_study.EpollEcho.{
  Trigger, level, edge, Server, put, setup, accept_client, answer_client, reply, read_once,
  read_all, Event, events, rounds, epoll_lt,
}
use linux_c_study.EpollEcho.Connection.{
  Connection, reported, answers, arrive, served, arrives, serves, Reach, here, next, fresh,
}
use linux_c_study.EpollEcho.Connection.Level.{settle, due, level_reads_all}
use linux_c_study.EpollEcho.Connection.Edge.{logged, joined, read_all-some}
use linux_c_study.EpollEcho.Replies.{written}

-- Descriptor 3 listens, 4 is the epoll instance.
abbrev listening : Server
listening = record {
  ftd = 3;
  epl = 4;
  watched = put (λ fd. none) 3 (some level);
  opened = put (put (λ fd. false) 3 true) 4 true;
  nonblocking = λ fd. false;
  log = [];
}

listening-setup : setup (value 3) (value 0) (value 0) (value 4) (value 0) ≡ inr listening
unfolding setup
listening-setup = refl

abbrev with_client : Trigger → Server
with_client t = record listening {
  watched = put listening.watched 5 (some t);
  opened = put listening.opened 5 true;
}

-- "abc" has come.
abbrev came : Trigger → Connection
came t = arrive (97 ∷ 98 ∷ 99 ∷ []) (fresh (with_client t))

came-Reach : (t : Trigger) → Reach 2 5 (fresh (with_client t)) (came t)
came-Reach t = next here (arrives 97 (98 ∷ 99 ∷ []) refl)

level_reads_all_example :
    (d : Connection) × (settle 2 5 (due (came level)) (came level) ≡ some d)
    × (reported 5 d ≡ false)
    × (d.pending ≡ [])
    × (d.taken ≡ 97 ∷ 98 ∷ 99 ∷ [])
unfolding ℕ_discrete
level_reads_all_example = level_reads_all 1 5 (with_client level) (came-Reach level) refl

-- One report has been answered, and no other is to come.
abbrev left_over : Connection
left_over = served 2 (record (with_client edge) { log = (5, 97 ∷ 98 ∷ []) ∷ [] }) (came edge)

left_over-Reach : Reach 2 5 (fresh (with_client edge)) left_over
unfolding reported answers read_once answer_client reply ℕ_discrete
left_over-Reach = next (came-Reach edge) (serves _ refl refl)

left_over_quiet : (reported 5 left_over ≡ false) × (left_over.pending ≡ 99 ∷ [])
unfolding reported ℕ_discrete
left_over_quiet = (refl, refl)

read_all-some_example :
    (cs : List (List ℕ)) × (joined cs ≡ 97 ∷ 98 ∷ 99 ∷ [])
    × (read_all 5 (answers 2 false 4 (97 ∷ 98 ∷ 99 ∷ [])) (with_client edge)
        ≡ some (record (with_client edge) { log = logged 5 cs [] }))
read_all-some_example = read_all-some 5 4 (97 ∷ 98 ∷ 99 ∷ []) (with_client edge) (omega arith)

-- An interrupted wait; a client; its three bytes, two and one.
abbrev three_bytes : List (Errno ⊎ List Event)
three_bytes =
    inl eintr
    ∷ inr (record { fd = 3; accepted = value 5; answers = [] } ∷ [])
    ∷ inr (record { fd = 5; accepted = value 0; answers = got (97 ∷ 98 ∷ []) ∷ [] } ∷ [])
    ∷ inr (record { fd = 5; accepted = value 0; answers = got (99 ∷ []) ∷ [] } ∷ [])
    ∷ []

abbrev answered : Server
answered = record (with_client level) { log = (5, 99 ∷ 0 ∷ []) ∷ (5, 97 ∷ 98 ∷ []) ∷ [] }

three_bytes-run : epoll_lt three_bytes listening ≡ some (inr answered)
unfolding epoll_lt rounds events accept_client read_once answer_client reply
three_bytes-run = refl

-- epoll-lt.c reports client 5, and then another one and client 5 again.
abbrev two_reports : List (Errno ⊎ List Event)
two_reports =
    inr (record { fd = 5; accepted = value 0; answers = got (97 ∷ 98 ∷ []) ∷ [] } ∷ [])
    ∷ inr (
        record { fd = 6; accepted = value 0; answers = got (120 ∷ []) ∷ [] }
        ∷ record { fd = 5; accepted = value 0; answers = got (99 ∷ []) ∷ [] }
        ∷ [])
    ∷ []

-- Only what was read from client 5.
written-client :
    written 5 ((5, 99 ∷ 0 ∷ []) ∷ (6, 120 ∷ 0 ∷ []) ∷ (5, 97 ∷ 98 ∷ []) ∷ [])
    ≡ (97 ∷ 98 ∷ []) ∷ (99 ∷ 0 ∷ []) ∷ []
unfolding ℕ_discrete
written-client = refl
