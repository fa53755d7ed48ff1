-- ===== src/Reactor/Dispatch.antt =====
-- The two tests of the loop over the events: which callbacks run for an event, and how often.
use linux_c_study.Prelude.{ℕ, suc, ◌≡◌, refl, true, none, ◌∷◌, arith, if◌then◌else◌}
use linux_c_study.Kernel.{Errno, failed, value}
use linux_c_study.Reactor.{
  epollin, epollout, Callback, null, acceptconn, recvdata, senddata, closed, Reactor, eventset,
  eventdel, eventadd, close, Io, send_data, run_callback, Revents, first_test, second_test,
  dispatch,
}
use linux_c_study.Reactor.Invariant.{IsValid, matches}
use linux_c_study.Reactor.Callbacks.{accept_conn-IsValid, recv_data-IsValid, send_data-IsValid}

callback-IsValid :
    (now i : ℕ) (io : Io) (c : Callback) (s : Reactor)
    → IsValid s
    → (s.g_events i).status ≡ true
    → s.tree io.accepted ≡ none
    → IsValid (run_callback now i io c s)
unfolding run_callback
callback-IsValid now i io null s v on fresh = v
callback-IsValid now i io acceptconn s v on fresh = accept_conn-IsValid now io s v fresh
callback-IsValid now i io recvdata s v on fresh = recv_data-IsValid now i io.received s v on
callback-IsValid now i io senddata s v on fresh = send_data-IsValid now i io.written s v on

-- Whatever the callback of a slot in use and whatever its system calls answer, it keeps the table
-- valid; a descriptor that accept returns was not in the tree.
pub run_callback-IsValid :
    (now i : ℕ) (io : Io) (s : Reactor)
    → IsValid s
    → (s.g_events i).status ≡ true
    → s.tree io.accepted ≡ none
    → IsValid (run_callback now i io (s.g_events i).call_back s)
run_callback-IsValid now i io s v on fresh =
    callback-IsValid now i io (s.g_events i).call_back s v on fresh

-- What is left in the slot by a write that went through.
send_data-events :
    (now i n : ℕ) (s : Reactor) → ((send_data now i (value (suc n)) s).g_events i).events ≡ epollin
unfolding send_data eventadd eventset eventdel
send_data-events now i n s = ground arith

pub callback-epollout : (c : Callback) → matches epollout c ≡ true → c ≡ senddata
callback-epollout null m = cc
callback-epollout acceptconn m = cc
callback-epollout recvdata m = cc
callback-epollout senddata m = refl

-- A slot that waits to write, and is ready: the tests pass one after the other in one round.
module _ (now i : ℕ) (re : Revents) (io1 io2 : Io) (s : Reactor) (v : IsValid s)
    (on : (s.g_events i).status ≡ true) (waits : (s.g_events i).events ≡ epollout)
    (ready : re.bit_out ≡ true) where
  is_senddata : (s.g_events i).call_back ≡ senddata
  is_senddata = callback-epollout (s.g_events i).call_back (rw (← waits) (v.matching i on))

  first_passes : first_test re (s.g_events i) ≡ true
  unfolding first_test
  first_passes = rw (waits, ready) (ground arith)

  dispatch-out : dispatch now i re io1 io2 s ≡ (
      if second_test re ((send_data now i io1.written s).g_events i)
      then run_callback now i io2
          ((send_data now i io1.written s).g_events i).call_back
          (send_data now i io1.written s)
      else send_data now i io1.written s)
  unfolding dispatch run_callback
  dispatch-out = rw (first_passes, is_senddata) refl

  -- In a valid table, for a slot in use that waits to write and is ready, a write that goes
  -- through is made once: the second test fails.
  pub dispatch_once :
      {n : ℕ}
      → io1.written ≡ value (suc n)
      → dispatch now i re io1 io2 s ≡ send_data now i (value (suc n)) s
  unfolding second_test
  dispatch_once {n} w = rw (dispatch-out, w, send_data-events now i n s) (ground arith)

  -- A write that fails leaves the slot as it was, but for its status.
  failed_events :
      {e : Errno} (r : io1.written ≡ failed e)
      → ((send_data now i io1.written s).g_events i).events ≡ epollout
  unfolding send_data eventdel close
  failed_events r = rw r (ground arith)

  failed_callback :
      {e : Errno} (r : io1.written ≡ failed e)
      → ((send_data now i io1.written s).g_events i).call_back ≡ senddata
  unfolding send_data eventdel close
  failed_callback r = rw r (ground (arith, is_senddata))

  -- In a valid table, for a slot in use that waits to write and is ready: when the write fails,
  -- and the one after it as well, the callback has run twice, and closed the descriptor twice.
  pub dispatch_closes_twice :
      {e e' : Errno}
      → io1.written ≡ failed e
      → io2.written ≡ failed e'
      → (dispatch now i re io1 io2 s).log
        ≡ closed (s.g_events i).fd ∷ closed (s.g_events i).fd ∷ s.log
  unfolding second_test run_callback send_data eventdel close
  dispatch_closes_twice r r' =
      rw (dispatch-out, failed_events r, failed_callback r, ready, r, r') (ground arith)
