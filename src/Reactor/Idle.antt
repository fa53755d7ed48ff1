-- ===== src/Reactor/Idle.antt =====
-- epoll-advance.c: what the rounds of the main loop do to a client that stays idle.
use linux_c_study.Prelude.{
  ℕ, zero, suc, ◌+◌, ◌-◌, ◌*◌, ◌≤◌, ◌<◌, ◌≡◌, refl, sym, ap, ◌∙◌, ◌⊎◌, inl, inr, Bool, true, false,
  ◌&&◌, ◌||◌, List, [], ◌∷◌, arith, ℕ_discrete, leb, ◌==◌, if◌then◌else◌, length,
}
use linux_c_study.Prelude.{
  ℕ, zero, suc, ◌+◌, ◌-◌, ◌*◌, ◌≤◌, ◌<◌, ◌≡◌, refl, sym, ap, ◌∙◌, ◌⊎◌, inl, inr, Bool, true, false,
  ◌&&◌, ◌||◌, List, [], ◌∷◌, arith, ℕ_discrete, leb, ◌==◌, if◌then◌else◌, length,
}
use linux_c_study.Kernel.{Answer, got, error, SysRet, value, failed}
use linux_c_study.Prelude.Bytes.{All}
use linux_c_study.Reactor.{
  max_events, MyEvent, Action, wrote, closed, Reactor, Callback, null, acceptconn, recvdata,
  senddata, eventadd, eventset, close, Io, recv_data, send_data, run_callback, Revents, first_test,
  second_test, dispatch, dispatch_all, Event, check, wrapped, sweep, turn,
}
use linux_c_study.Reactor.Echo.{rounds, if_both, Elsewhere, dispatch_all-Same}
use linux_c_study.Reactor.Sweep.{
  IsIdle, wrapped-<, check-other, Ahead, Ahead-next, Ahead-zero, Ahead-all,
}
use linux_c_study.Reactor.Apart.{eventdel-log, accept_conn-log}
use mathlib.Core.Path.{subst}

-- The calls include a close of fd.
abbrev pub has_closed : ℕ → List Action → Bool
has_closed fd [] = false
has_closed fd (wrote k bs ∷ log) = has_closed fd log
has_closed fd (closed k ∷ log) = (k == fd) || has_closed fd log

module _ (fd : ℕ) where
  abbrev IsClosed : Reactor → Type 0
  IsClosed s = has_closed fd s.log ≡ true

  close-same :
      (k : ℕ) {log log' : List Action}
      → log' ≡ log
      → has_closed fd log ≡ true
      → has_closed fd (closed k ∷ log') ≡ true
  close-same k e h = ground (arith, ap (has_closed fd) e)

  recv_data-IsClosed :
      (now i : ℕ) (a : Answer) (s : Reactor) → IsClosed s → IsClosed (recv_data now i a s)
  unfolding recv_data eventadd eventset close
  recv_data-IsClosed now i (got []) s h = close-same _ (eventdel-log i _) h
  recv_data-IsClosed now i (got (b ∷ bs)) s h = ap (has_closed fd) (eventdel-log i _) ∙ h
  recv_data-IsClosed now i (error e) s h = close-same _ (eventdel-log i _) h

  send_data-IsClosed :
      (now i : ℕ) (w : SysRet) (s : Reactor) → IsClosed s → IsClosed (send_data now i w s)
  unfolding send_data eventadd eventset close
  send_data-IsClosed now i (value (suc n)) s h = ap (has_closed fd) (eventdel-log i _) ∙ h
  send_data-IsClosed now i (value zero) s h =
      ap (has_closed fd) (eventdel-log i _) ∙ close-same (s.g_events i).fd {log = s.log} refl h
  send_data-IsClosed now i (failed e) s h =
      ap (has_closed fd) (eventdel-log i _) ∙ close-same (s.g_events i).fd {log = s.log} refl h

  callback-IsClosed :
      (now i : ℕ) (io : Io) (c : Callback) (s : Reactor)
      → IsClosed s
      → IsClosed (run_callback now i io c s)
  unfolding run_callback
  callback-IsClosed now i io null s h = h
  callback-IsClosed now i io acceptconn s h = ap (has_closed fd) (accept_conn-log now io s) ∙ h
  callback-IsClosed now i io recvdata s h = recv_data-IsClosed now i io.received s h
  callback-IsClosed now i io senddata s h = send_data-IsClosed now i io.written s h

  dispatch-IsClosed :
      (now i : ℕ) (re : Revents) (io1 io2 : Io) (s : Reactor)
      → IsClosed s
      → IsClosed (dispatch now i re io1 io2 s)
  unfolding dispatch
  dispatch-IsClosed now i re io1 io2 s h =
      let s1 =
        if first_test re (s.g_events i)
        then run_callback now i io1 (s.g_events i).call_back s
        else s in
      let kept : IsClosed s1 =
        if_both IsClosed (first_test re (s.g_events i))
          (callback-IsClosed now i io1 (s.g_events i).call_back s h) h in
      if_both IsClosed (second_test re (s1.g_events i))
        (callback-IsClosed now i io2 (s1.g_events i).call_back s1 kept) kept

  dispatch_all-IsClosed :
      (now : ℕ) (es : List Event) (s : Reactor) → IsClosed s → IsClosed (dispatch_all now es s)
  unfolding dispatch_all
  dispatch_all-IsClosed now [] s h = h
  dispatch_all-IsClosed now (x ∷ es) s h =
      dispatch_all-IsClosed now es (dispatch now x.slot x.revents x.first x.second s)
        (dispatch-IsClosed now x.slot x.revents x.first x.second s h)

  check-IsClosed : (now i : ℕ) (s : Reactor) → IsClosed s → IsClosed (check now i s)
  unfolding check close
  check-IsClosed now i s h =
      if_both IsClosed ((s.g_events i).status && leb 60 (now - (s.g_events i).last_active))
        (ap (has_closed fd) (eventdel-log i _) ∙ close-same (s.g_events i).fd {log = s.log} refl h)
        h

  sweep-IsClosed : (n now pos : ℕ) (s : Reactor) → IsClosed s → IsClosed (sweep n now pos s).1
  unfolding sweep
  sweep-IsClosed zero now pos s h = h
  sweep-IsClosed (suc n) now pos s h =
      sweep-IsClosed n now (wrapped pos + 1) (check now (wrapped pos) s)
        (check-IsClosed now (wrapped pos) s h)

  rounds-IsClosed :
      (more : List (ℕ × List Event)) (pos : ℕ) (s : Reactor)
      → IsClosed s
      → IsClosed (rounds more pos s).1
  unfolding rounds turn
  rounds-IsClosed [] pos s h = h
  rounds-IsClosed ((now, es) ∷ more) pos s h =
      let swept = sweep 100 now pos s in
      rounds-IsClosed more swept.0 (dispatch_all now es swept.1)
        (dispatch_all-IsClosed now es swept.1 (sweep-IsClosed 100 now pos s h))

-- A round when the slot has been idle for a minute, with events of other slots.
abbrev pub Idle : ℕ → MyEvent → ℕ × List Event → Type 0
Idle i ev (now, es) = IsIdle now ev × All (Elsewhere i) es

module _ (i : ℕ) (ev : MyEvent) (in_table : i < max_events) where
  check-closes :
      (now : ℕ) (s : Reactor)
      → s.g_events i ≡ ev
      → IsIdle now ev
      → has_closed ev.fd (check now i s).log ≡ true
  unfolding check close
  check-closes now s same (on, late) =
      let test : ((s.g_events i).status && leb 60 (now - (s.g_events i).last_active)) ≡ true =
        rw same (ground (arith, on, late)) in
      rw test (
        ap (has_closed ev.fd) (eventdel-log i _)
        ∙ ap (λ (m : MyEvent). has_closed ev.fd (closed m.fd ∷ s.log)) same
        ∙ ground arith)

  -- Before the slot has been looked at: it is as it was, and is looked at within `left` checks.
  record Waits (left pos : ℕ) (s : Reactor) : Type 0 where
    same : s.g_events i ≡ ev
    ahead : Ahead left (wrapped pos) i
    position : pos ≤ max_events

  sweep-closes :
      (n left now pos : ℕ) (s : Reactor)
      → IsIdle now ev
      → Waits (n + left) pos s
      → (has_closed ev.fd (sweep n now pos s).1.log ≡ true)
        ⊎ Waits left (sweep n now pos s).0 (sweep n now pos s).1
  unfolding sweep
  sweep-closes zero left now pos s idle v = inr (subst (λ k. Waits k pos s) (omega arith) v)
  sweep-closes (suc n) left now pos s idle v =
      let lt = wrapped-< v.position in
      elim (ℕ_discrete (wrapped pos) i) [
        | yes e ↦ inl (
            sweep-IsClosed ev.fd n now (wrapped pos + 1) (check now (wrapped pos) s) (
              subst (λ k. has_closed ev.fd (check now k s).log ≡ true) (sym e)
                (check-closes now s v.same idle)))
        | no ne ↦
            sweep-closes n left now (wrapped pos + 1) (check now (wrapped pos) s) idle (record {
              same = check-other now (wrapped pos) s i ne ∙ v.same;
              ahead =
                  Ahead-next (n + left) lt in_table ne
                    (subst (λ k. Ahead k (wrapped pos) i) (omega arith) v.ahead);
              position = omega (arith, lt);
            })
      ]

  rounds-Waits :
      (more : List (ℕ × List Event)) (pos : ℕ) (s : Reactor)
      → All (Idle i ev) more
      → Waits (100 * length more) pos s
      → has_closed ev.fd (rounds more pos s).1.log ≡ true
  unfolding rounds turn
  rounds-Waits [] pos s h v = absurd (Ahead-zero (wrapped-< v.position) v.ahead)
  rounds-Waits ((now, es) ∷ more) pos s h v =
      let swept = sweep 100 now pos s in
      let room : 100 * suc (length more) ≡ 100 + 100 * length more = omega arith in
      elim (sweep-closes 100 (100 * length more) now pos s h.0.0
        (subst (λ n. Waits n pos s) room v)) [
          | inl done ↦
              rounds-IsClosed ev.fd more swept.0 (dispatch_all now es swept.1)
                (dispatch_all-IsClosed ev.fd now es swept.1 done)
          | inr w ↦ rounds-Waits more swept.0 (dispatch_all now es swept.1) h.1 (record {
            same = dispatch_all-Same i ev h.0.0.0 now es swept.1 h.0.1 w.same;
            ahead = w.ahead;
            position = w.position;
          })
        ]

-- epoll-advance.c, of a client in the table that has been idle for a minute and stays so: after eleven
-- rounds of the main loop, each with its hundred checks and whatever events of other slots, or more, its
-- descriptor has been closed, wherever the checks have begun.
pub rounds-closes-Idle :
    (more : List (ℕ × List Event)) (i : ℕ) {checkpos : ℕ} (s : Reactor)
    → i < max_events
    → checkpos ≤ max_events
    → 11 ≤ length more
    → All (Idle i (s.g_events i)) more
    → has_closed (s.g_events i).fd (rounds more checkpos s).1.log ≡ true
rounds-closes-Idle more i {checkpos} s li lc enough idle =
    rounds-Waits i (s.g_events i) li more checkpos s idle (record {
      same = refl;
      ahead = Ahead-all (100 * length more) (omega arith) (wrapped-< lc) li;
      position = lc;
    })
