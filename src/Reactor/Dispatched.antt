-- ===== src/Reactor/Dispatched.antt =====
-- An event keeps the table valid, with every answer of the calls that its callbacks make.
use linux_c_study.Prelude.{
  ℕ, zero, suc, ◌≡◌, refl, inl, inr, true, false, ◌&&◌, none, List, [], ◌∷◌, arith, if◌then◌else◌,
  Bool-cases, Option-cases,
}
use linux_c_study.Kernel.{SysRet, failed, value, Answer, error, got}
use linux_c_study.Reactor.{
  max_events, Interest, no_events, epollin, epollout, Callback, null, acceptconn, recvdata,
  senddata, Reactor, eventset, eventdel, eventadd, find_free, close, Io, accept_conn, recv_data,
  send_data, run_callback, Revents, has_out, first_test, second_test, dispatch, dispatch_all, Event,
  sweep, turn, initlistensocket,
}
use linux_c_study.Reactor.Invariant.{IsValid, matches, rearm-IsValid, find_free-status}
use linux_c_study.Reactor.Sweep.{sweep-IsValid}
use linux_c_study.Reactor.Dispatch.{callback-epollout, run_callback-IsValid}
use linux_c_study.Reactor.Writes.{Writes, Writes-IsValid}

-- After the first callback, a slot that waits to write has its write callback.
accept_conn-epollin :
    (now i : ℕ) (io : Io) (s : Reactor)
    → (s.g_events i).status ≡ true
    → (accept_conn now io s).g_events i ≡ s.g_events i
unfolding accept_conn eventadd eventset
accept_conn-epollin now i io s on = elim (Option-cases (find_free s.g_events max_events 0)) [
  | inl full ↦ rw (full, accept_conn) refl
  | inr (j, free) ↦
      let st = (find_free-status s.g_events max_events 0 free).0 in
      rw (free, accept_conn) (ground arith)
]

recv_data-Writes :
    (now i : ℕ) (a : Answer) (s : Reactor)
    → (s.g_events i).events ≡ epollin
    → has_out ((recv_data now i a s).g_events i).events ≡ true
    → Writes i (recv_data now i a s)
unfolding recv_data eventadd eventset eventdel close
recv_data-Writes now i (got (b ∷ bs)) s h out = record {
  callback = ground arith;
  at_rest = λ off. ground arith;
}
recv_data-Writes now i (got []) s h out = absurd (ground arith)
recv_data-Writes now i (error e) s h out = absurd (ground arith)

send_data-Writes :
    (now i : ℕ) (r : SysRet) (s : Reactor)
    → (s.g_events i).call_back ≡ senddata
    → has_out ((send_data now i r s).g_events i).events ≡ true
    → Writes i (send_data now i r s)
unfolding send_data eventadd eventset eventdel close
send_data-Writes now i (value (suc n)) s c out = absurd (ground arith)
send_data-Writes now i (value zero) s c out = record {
  callback = ground arith;
  at_rest = λ off. ground arith;
}
send_data-Writes now i (failed e) s c out = record {
  callback = ground arith;
  at_rest = λ off. ground arith;
}

matches-reads :
    (ev : Interest) (c : Callback) → matches ev c ≡ true → ¬ (c ≡ senddata) → ev ≡ epollin
matches-reads no_events c m ne = cc
matches-reads epollin c m ne = refl
matches-reads epollout c m ne = absurd (ne (callback-epollout c m))

-- The first callback of a slot in use leaves it ready for the second test.
callback-Writes :
    (now i : ℕ) (io : Io) (c : Callback) (s : Reactor)
    → (s.g_events i).call_back ≡ c
    → matches (s.g_events i).events c ≡ true
    → (s.g_events i).status ≡ true
    → has_out ((run_callback now i io c s).g_events i).events ≡ true
    → Writes i (run_callback now i io c s)
unfolding run_callback
callback-Writes now i io null s e m on out =
    absurd (ground (arith, matches-reads (s.g_events i).events null m))
callback-Writes now i io acceptconn s e m on out =
    let reads = matches-reads (s.g_events i).events acceptconn m (λ x. cc) in
    absurd (cc (reads, rw (accept_conn-epollin now i io s on) at out))
callback-Writes now i io recvdata s e m on out =
    recv_data-Writes now i io.received s (matches-reads (s.g_events i).events recvdata m (λ x. cc))
      out
callback-Writes now i io senddata s e m on out = send_data-Writes now i io.written s e out

second-IsValid :
    (now i : ℕ) (re : Revents) (io : Io) (s : Reactor)
    → IsValid s
    → (has_out (s.g_events i).events ≡ true → Writes i s)
    → IsValid (
        if second_test re (s.g_events i)
        then run_callback now i io (s.g_events i).call_back s
        else s)
unfolding second_test
second-IsValid now i re io s v w = elim (Bool-cases (re.bit_out && has_out (s.g_events i).events)) [
  | inl e ↦ rw e (Writes-IsValid now i io s v (w (ground arith)))
  | inr e ↦ rw e v
]

waiting-Writes :
    (i : ℕ) (s : Reactor)
    → IsValid s
    → (s.g_events i).status ≡ true
    → has_out (s.g_events i).events ≡ true
    → Writes i s
waiting-Writes i s v on out =
    let waits : (s.g_events i).events ≡ epollout = ground arith in
    record {
      callback = callback-epollout (s.g_events i).call_back (rw (← waits) (v.matching i on));
      at_rest = λ off. absurd (cc (on, off));
    }

-- One event, for a slot in use, keeps the table valid, whichever callbacks it runs and whatever
-- their calls answer, if the descriptors that accept returns are not in the tree.
dispatch-IsValid :
    (now i : ℕ) (re : Revents) (io1 io2 : Io) (s : Reactor)
    → IsValid s
    → (s.g_events i).status ≡ true
    → s.tree io1.accepted ≡ none
    → IsValid (dispatch now i re io1 io2 s)
unfolding dispatch
dispatch-IsValid now i re io1 io2 s v on fresh = elim (Bool-cases (first_test re (s.g_events i))) [
  | inl e ↦ rw e (
      second-IsValid now i re io2 (run_callback now i io1 (s.g_events i).call_back s)
        (run_callback-IsValid now i io1 s v on fresh)
        (callback-Writes now i io1 (s.g_events i).call_back s refl (v.matching i on) on))
  | inr e ↦ rw e (second-IsValid now i re io2 s v (waiting-Writes i s v on))
]

-- Each event is for a slot that is in use when its turn comes, and accept returns descriptors that
-- are not in the tree.
abbrev pub Fair : ℕ → List Event → Reactor → Type 0
Fair now [] s = Unit
Fair now (e ∷ es) s =
    ((s.g_events e.slot).status ≡ true)
    × (s.tree e.first.accepted ≡ none)
    × Fair now es (dispatch now e.slot e.revents e.first e.second s)

dispatch_all-IsValid :
    (now : ℕ) (es : List Event) (s : Reactor)
    → IsValid s
    → Fair now es s
    → IsValid (dispatch_all now es s)
unfolding dispatch_all
dispatch_all-IsValid now [] s v f = v
dispatch_all-IsValid now (e ∷ es) s v f =
    dispatch_all-IsValid now es _
      (dispatch-IsValid now e.slot e.revents e.first e.second s v (f.0) (f.1)) (f.2)

-- From a valid table, a round of the main loop leaves a valid one: its hundred checks for idle
-- clients, and then the events, whatever the calls of the callbacks answer, if each event is for a
-- slot that is in use when its turn comes and accept returns descriptors that are not in the tree.
pub turn-IsValid :
    (now : ℕ) (es : List Event) (checkpos : ℕ) (s : Reactor)
    → IsValid s
    → Fair now es (sweep 100 now checkpos s).1
    → IsValid (turn now es checkpos s).1
unfolding turn
turn-IsValid now es checkpos s v f =
    dispatch_all-IsValid now es (sweep 100 now checkpos s).1 (sweep-IsValid 100 now checkpos s v) f

-- The listening socket comes into its own slot, and the table is valid.
pub initlistensocket-IsValid :
    (now g_lfd : ℕ) (s : Reactor)
    → IsValid s
    → (s.g_events max_events).status ≡ false
    → s.tree g_lfd ≡ none
    → IsValid (initlistensocket now g_lfd s)
unfolding initlistensocket
initlistensocket-IsValid now g_lfd s v off fresh =
    rearm-IsValid now max_events g_lfd acceptconn epollin s v off fresh refl
