-- ===== src/Reactor/Apart.antt =====
-- What an event or a check of one slot of epoll-advance.c leaves of the others.
use linux_c_study.Prelude.{
  ℕ, zero, suc, ◌+◌, ◌-◌, ◌<◌, ◌≡◌, refl, sym, ap, ◌≢◌, inl, inr, true, false, [], ◌∷◌, arith,
  ℕ_discrete, leb, Bool-cases, Option-cases,
}
use linux_c_study.Kernel.{SysRet, failed, value, Answer, error, got}
use linux_c_study.Reactor.{
  max_events, Callback, null, acceptconn, recvdata, senddata, Reactor, eventset, eventdel, eventadd,
  close, find_free, Io, accept_conn, recv_data, send_data, run_callback, check,
}
use linux_c_study.Reactor.Invariant.{find_free-status}
use mathlib.Core.Path.{subst}

pub eventdel-log : (i : ℕ) (s : Reactor) → (eventdel i s).log ≡ s.log
unfolding eventdel
eventdel-log i s = elim (Bool-cases (s.g_events i).status) [
  | inl h ↦ rw (h, eventdel) refl
  | inr h ↦ rw (h, eventdel) refl
]

pub accept_conn-log : (now : ℕ) (io : Io) (s : Reactor) → (accept_conn now io s).log ≡ s.log
unfolding accept_conn eventadd eventset
accept_conn-log now io s = elim (Option-cases (find_free s.g_events max_events 0)) [
  | inl h ↦ rw (h, accept_conn) refl
  | inr (j, h) ↦ elim (Bool-cases io.nonblocking) [
    | inl k ↦ rw (h, k, accept_conn) refl
    | inr k ↦ rw (h, k, accept_conn) refl
  ]
]

module _ (i : ℕ) (s : Reactor) where
  accept_conn-other :
      (now : ℕ) (io : Io)
      → (s.g_events i).status ≡ true
      → (accept_conn now io s).g_events i ≡ s.g_events i
  unfolding accept_conn eventadd eventset
  accept_conn-other now io on = elim (Option-cases (find_free s.g_events max_events 0)) [
    | inl full ↦ rw (full, accept_conn) refl
    | inr (j, free) ↦
        let st = (find_free-status s.g_events max_events 0 free).0 in
        rw (free, accept_conn) (ground arith)
  ]

  recv_data-other :
      (now j : ℕ) (a : Answer) → j ≢ i → (recv_data now j a s).g_events i ≡ s.g_events i
  unfolding recv_data eventadd eventset eventdel close
  recv_data-other now j (got (b ∷ bs)) ne = ground arith
  recv_data-other now j (got []) ne = ground arith
  recv_data-other now j (error e) ne = ground arith

  send_data-other :
      (now j : ℕ) (r : SysRet) → j ≢ i → (send_data now j r s).g_events i ≡ s.g_events i
  unfolding send_data eventadd eventset eventdel close
  send_data-other now j (value (suc n)) ne = ground arith
  send_data-other now j (value zero) ne = ground arith
  send_data-other now j (failed e) ne = ground arith

  pub run_callback-other :
      (now j : ℕ) (io : Io) (c : Callback)
      → j ≢ i
      → (s.g_events i).status ≡ true
      → (run_callback now j io c s).g_events i ≡ s.g_events i
  unfolding run_callback
  run_callback-other now j io null ne on = refl
  run_callback-other now j io acceptconn ne on = accept_conn-other now io on
  run_callback-other now j io recvdata ne on = recv_data-other now j io.received ne
  run_callback-other now j io senddata ne on = send_data-other now j io.written ne

  check-recent : (now : ℕ) → now < (s.g_events i).last_active + 60 → check now i s ≡ s
  unfolding check
  check-recent now recent =
      let late : leb 60 (now - (s.g_events i).last_active) ≡ false = ground arith in
      elim (Bool-cases (s.g_events i).status) [
        | inl on ↦ rw (late, on) refl
        | inr off ↦ rw (late, off) refl
      ]

  check-far : (now pos : ℕ) → pos ≢ i → (check now pos s).g_events i ≡ s.g_events i
  unfolding check eventdel close
  check-far now pos ne = ground arith

  -- The check for idle clients leaves a slot that was active within the last sixty seconds.
  pub check-other :
      (now pos : ℕ)
      → now < (s.g_events i).last_active + 60
      → (check now pos s).g_events i ≡ s.g_events i
  check-other now pos recent = elim (ℕ_discrete pos i) [
    | yes same ↦
        subst (λ k. (check now k s).g_events i ≡ s.g_events i) (sym same)
          (ap (λ (r : Reactor). r.g_events i) (check-recent now recent))
    | no other ↦ check-far now pos other
  ]
