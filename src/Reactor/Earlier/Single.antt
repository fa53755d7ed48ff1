-- ===== src/Reactor/Earlier/Single.antt =====
-- linux-network/epoll-advance1.c: a callback closes one descriptor at most.
use linux_c_study.Prelude.{
  ℕ, zero, suc, ◌≤◌, ◌≡◌, refl, ap, ◌∙◌, ◌⊎◌, inl, inr, Bool, true, false, ◌&&◌, List, [], ◌∷◌,
  arith, ℕ_discrete, Bool-cases,
}
use linux_c_study.Kernel.{SysRet, failed, value, Answer, error, got}
use linux_c_study.Reactor.{
  Interest, no_events, epollin, epollout, Callback, null, acceptconn, recvdata, senddata, MyEvent,
  Action, wrote, closed, Reactor, eventset, eventdel, eventadd, close, Io, recv_data, has_out,
  with_event,
}
use linux_c_study.Reactor.Earlier.{send_data, run_callback, has_in, callback_if}
use linux_c_study.Reactor.Apart.{eventdel-log, accept_conn-log}

-- The calls of close.
abbrev pub closes : List Action → ℕ
closes [] = 0
closes (wrote fd bs ∷ log) = closes log
closes (closed fd ∷ log) = suc (closes log)

eventdel-events : (i : ℕ) (s : Reactor) → ((eventdel i s).g_events i).events ≡ (s.g_events i).events
unfolding eventdel ℕ_discrete
eventdel-events i s = elim (Bool-cases (s.g_events i).status) [
  | inl h ↦ rw (h, eventdel) (ground arith)
  | inr h ↦ rw (h, eventdel) refl
]

-- A callback of slot i closes nothing, or one descriptor and leaves the slot's events as they are.
pub record Single (i : ℕ) (s s' : Reactor) : Type 0 where
  pub most : closes s'.log ≤ suc (closes s.log)
  pub same : closes s'.log ≡ closes s.log ⊎ (s'.g_events i).events ≡ (s.g_events i).events

still-Single : (i : ℕ) (s s' : Reactor) → closes s'.log ≡ closes s.log → Single i s s'
still-Single i s s' e = record { most = omega (arith, e); same = inl e }

quiet-Single : (i : ℕ) (s s' : Reactor) → s'.log ≡ s.log → Single i s s'
quiet-Single i s s' e = still-Single i s s' (ap closes e)

closing-Single :
    (i : ℕ) (s s' : Reactor)
    → closes s'.log ≡ suc (closes s.log)
    → (s'.g_events i).events ≡ (s.g_events i).events
    → Single i s s'
closing-Single i s s' c e = record { most = omega (arith, c); same = inr e }

-- The slot i gets another buffer, goes off the tree, and its descriptor is closed, in either order.
module _ (i fd : ℕ) (s : Reactor) (ev : MyEvent) (kept : ev.events ≡ (s.g_events i).events) where
  with_event-events : ((with_event s i ev).g_events i).events ≡ (s.g_events i).events
  unfolding ℕ_discrete
  with_event-events = ground (arith, kept)

  eventdel-close : Single i s (close fd (eventdel i (with_event s i ev)))
  unfolding close
  eventdel-close =
      closing-Single i s _ (ap (λ l. suc (closes l)) (eventdel-log i (with_event s i ev)))
        (eventdel-events i (with_event s i ev) ∙ with_event-events)

  close-eventdel : Single i s (eventdel i (close fd (with_event s i ev)))
  unfolding close
  close-eventdel =
      closing-Single i s _ (ap closes (eventdel-log i (close fd (with_event s i ev))))
        (eventdel-events i (close fd (with_event s i ev)) ∙ with_event-events)

recv_data-Single : (now i : ℕ) (a : Answer) (s : Reactor) → Single i s (recv_data now i a s)
unfolding recv_data eventadd eventset
recv_data-Single now i (got []) s = eventdel-close i _ s _ refl
recv_data-Single now i (got (b ∷ bs)) s = quiet-Single i s _ (eventdel-log i _)
recv_data-Single now i (error e) s = eventdel-close i _ s _ refl

send_data-Single : (now i : ℕ) (w : SysRet) (s : Reactor) → Single i s (send_data now i w s)
unfolding send_data eventadd eventset
send_data-Single now i (value (suc n)) s = still-Single i s _ (ap closes (eventdel-log i _))
send_data-Single now i (value zero) s = close-eventdel i _ s _ refl
send_data-Single now i (failed e) s = close-eventdel i _ s _ refl

run_callback-Single :
    (now i : ℕ) (io : Io) (c : Callback) (s : Reactor) → Single i s (run_callback now i io c s)
unfolding run_callback
run_callback-Single now i io null s = quiet-Single i s s refl
run_callback-Single now i io acceptconn s = quiet-Single i s _ (accept_conn-log now io s)
run_callback-Single now i io recvdata s = recv_data-Single now i io.received s
run_callback-Single now i io senddata s = send_data-Single now i io.written s

pub callback_if-Single :
    (test : Bool) (now i : ℕ) (io : Io) (s : Reactor) → Single i s (callback_if test now i io s)
unfolding callback_if
callback_if-Single true now i io s = run_callback-Single now i io (s.g_events i).call_back s
callback_if-Single false now i io s = quiet-Single i s s refl

pub has_out-has_in : (b c : Bool) (e : Interest) → (b && has_in e) ≡ true → (c && has_out e) ≡ false
has_out-has_in b c no_events h = ground arith
has_out-has_in b c epollin h = ground arith
has_out-has_in b c epollout h = ground arith
