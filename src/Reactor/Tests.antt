-- ===== src/Reactor/Tests.antt =====
-- The event table on a server with one client, and the theorems about it there.
use linux_c_study.Prelude.{
  ℕ, zero, suc, ◌-◌, ◌<◌, ◌≡◌, refl, ◌≢◌, true, false, none, some, List, [], ◌∷◌, arith, ℕ_discrete,
  replicate,
}
use linux_c_study.Prelude.Bytes.{All}
use linux_c_study.Kernel.{other, SysRet, failed, value, got}
use linux_c_study.Reactor.{
  max_events, no_events, epollin, epollout, null, recvdata, MyEvent, Reactor, epoll_ctl, eventset,
  eventdel, eventadd, Io, recv_data, send_data, Revents, dispatch, sweep, Event, turn,
  initlistensocket, wrote, whole_buf,
}
use linux_c_study.Reactor.Invariant.{IsValid, rearm-IsValid}
use linux_c_study.Reactor.Callbacks.{recv_data-IsValid}
use linux_c_study.Reactor.Dispatch.{dispatch_once}
use linux_c_study.Reactor.Dispatched.{Fair, turn-IsValid, initlistensocket-IsValid}
use linux_c_study.Reactor.Echo.{rounds, dispatch-echoes}
use linux_c_study.Reactor.Idle.{Idle, has_closed, rounds-closes-Idle}
use linux_c_study.Reactor.Sweep.{IsIdle, sweep-active}

abbrev idle_slot : MyEvent
idle_slot = record {
  fd = 0;
  events = no_events;
  call_back = null;
  status = false;
  buf = [];
  len = 0;
  last_active = 0;
}

abbrev no_client : Reactor
no_client = record { g_events = λ i. idle_slot; tree = λ fd. none; log = [] }

-- A client with descriptor 5 in slot 0, set at time 10.
abbrev one_client : Reactor
one_client = eventadd epollin 0 (eventset 10 0 5 recvdata no_client)

-- It has sent the two bytes `hi`, and waits for the answer.
abbrev answering : Reactor
answering = recv_data 20 0 (got (104 ∷ 105 ∷ [])) one_client

abbrev io : SysRet → Io
io r = record { accepted = 6; nonblocking = true; received = got []; written = r }

abbrev writable : Revents
writable = record { bit_in = false; bit_out = true; other = false }

no_client-IsValid : IsValid no_client
no_client-IsValid = record {
  in_tree = λ j h. cc;
  matching = λ j h. cc;
  in_use = λ fd j ev h. cc;
  own_fd = λ fd j ev h. cc;
}

one_client-IsValid : IsValid one_client
one_client-IsValid =
    rearm-IsValid 10 0 5 recvdata epollin no_client no_client-IsValid refl refl refl

one_client_on : (one_client.g_events 0).status ≡ true
unfolding eventadd ℕ_discrete
one_client_on = refl

answering-IsValid : IsValid answering
answering-IsValid =
    recv_data-IsValid 20 0 (got (104 ∷ 105 ∷ [])) one_client one_client-IsValid one_client_on

answering_on : (answering.g_events 0).status ≡ true
unfolding recv_data eventadd ℕ_discrete
answering_on = refl

answering_waits : (answering.g_events 0).events ≡ epollout
unfolding recv_data eventadd ℕ_discrete
answering_waits = refl

answering_fresh : answering.tree 6 ≡ none
unfolding recv_data eventadd eventset eventdel epoll_ctl ℕ_discrete
answering_fresh = refl

-- The answer is written: the first write fails, and the callback runs once more.
abbrev reply : Event
reply = record { slot = 0; revents = writable; first = io (failed other); second = io (value 4096) }

answering-Fair : Fair 21 (reply ∷ []) (sweep 100 21 1 answering).1
answering-Fair =
    rw (sweep-active 100 21 1 answering (λ i. omega arith)) (answering_on, answering_fresh, tt)

turn-IsValid_example : IsValid (turn 21 (reply ∷ []) 1 answering).1
turn-IsValid_example = turn-IsValid 21 (reply ∷ []) 1 answering answering-IsValid answering-Fair

dispatch_once_example :
    dispatch 21 0 writable (io (value 4096)) (io (value 1)) answering
    ≡ send_data 21 0 (value 4096) answering
dispatch_once_example =
    dispatch_once 21 0 writable (io (value 4096)) (io (value 1)) answering answering-IsValid
      answering_on answering_waits refl {n = 4095} refl

one_client-IsIdle : IsIdle 70 (one_client.g_events 0)
unfolding eventadd eventset ℕ_discrete
one_client-IsIdle = (refl, omega arith)

one_client_recent : 69 - (one_client.g_events 0).last_active < 60
unfolding eventadd eventset ℕ_discrete
one_client_recent = omega arith

-- The listening socket is set up with descriptor 3.
listening-IsValid : IsValid (initlistensocket 5 3 no_client)
listening-IsValid = initlistensocket-IsValid 5 3 no_client no_client-IsValid refl refl

-- The slot that was added is the one the tree names.
one_client_tree : one_client.tree 5 ≡ some (epollin, 0)
unfolding eventadd eventset epoll_ctl ℕ_discrete
one_client_tree = refl

-- A request of client 5, and before its reply a connection from another client.
abbrev readable : Revents
readable = record { bit_in = true; bit_out = false; other = false }

abbrev io_hi : Io
io_hi = record {
  accepted = 6;
  nonblocking = true;
  received = got (104 ∷ 105 ∷ []);
  written = value 1;
}

abbrev connection : Event
connection = record { slot = max_events; revents = readable; first = io_hi; second = io_hi }

one_client_reads :
    ((one_client.g_events 0).events ≡ epollin) × ((one_client.g_events 0).call_back ≡ recvdata)
unfolding eventadd eventset ℕ_discrete
one_client_reads = (refl, refl)

connection_apart : connection.slot ≢ 0
connection_apart e = absurd (omega arith)

dispatch-echoes_example :
    (dispatch 22 0 writable
      (io (value 4096))
      io_hi
      (rounds ((21, connection ∷ []) ∷ []) 1 (dispatch 20 0 readable io_hi io_hi one_client)).1).log
    ≡ wrote (one_client.g_events 0).fd (whole_buf (104 ∷ 105 ∷ []))
      ∷ (rounds
          ((21, connection ∷ []) ∷ [])
          1
          (dispatch 20 0 readable io_hi io_hi one_client)).1.log
dispatch-echoes_example =
    dispatch-echoes 0 20 104 (105 ∷ []) readable writable io_hi io_hi (io (value 4096)) io_hi
      ((21, connection ∷ []) ∷ []) 1 22 4095 one_client one_client_reads.0 one_client_reads.1 refl
      refl refl ((omega arith, (connection_apart, tt)), tt) refl refl

-- Eleven rounds in which nothing happens.
abbrev quiet_rounds : List (ℕ × List Event)
quiet_rounds = replicate 11 (70, [])

quiet_rounds-Idle : (n : ℕ) → All (Idle 0 (one_client.g_events 0)) (replicate n (70, []))
quiet_rounds-Idle zero = tt
quiet_rounds-Idle (suc n) = ((one_client-IsIdle, tt), quiet_rounds-Idle n)

rounds-closes-Idle_example :
    has_closed (one_client.g_events 0).fd (rounds quiet_rounds 100 one_client).1.log ≡ true
rounds-closes-Idle_example =
    rounds-closes-Idle quiet_rounds 0 {checkpos = 100} one_client (omega arith) (omega arith)
      (omega arith) (quiet_rounds-Idle 11)
