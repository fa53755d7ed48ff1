-- ===== src/ThreadServer/Leak.antt =====
-- A thread closes its descriptor before it gives its entry back: how that loses entries.
use linux_c_study.Prelude.{
  ℕ, zero, suc, ◌+◌, ◌*◌, ◌≤◌, ◌<◌, ◌≡◌, refl, ◌∙◌, ◌⊎◌, inl, inr, true, false, not, arith,
  ℕ_discrete, ◌==◌,
}
use mathlib.Core.Path.{subst}
use linux_c_study.Kernel.{SysRet, failed, value}
use linux_c_study.Prelude.Int.{ℤ}
use linux_c_study.Search.{first_from-eq}
use linux_c_study.ThreadServer.{
  size, Ifno, get_free_ifno, get_ifno_by_cfd, unborn, ended, Server, put, accept_client, look_up,
  hang_up, give_back, Step, accepts, copy, copies, looks_up, hangs_up, gives_back, Reach, here,
  next, init, setup,
}

-- The state in which k entries are lost: entries 1 to k are marked as used, entry 0 is free, no
-- thread is alive, and the descriptor is closed. The threads from 2 * k on have not been created.
pub record Lost (cfd k : ℕ) (s : Server) : Type 0 where
  pub used : (i : ℕ) → 1 ≤ i → i ≤ k → (s.ifno i).flag ≡ true
  pub free : (i : ℕ) → k < i → i < size → (s.ifno i).flag ≡ false
  pub first_free : (s.ifno 0).flag ≡ false
  pub no_thread : (n : ℕ) → n < 2 * k → s.threads n ≡ ended
  pub unborn_from : (n : ℕ) → 2 * k ≤ n → s.threads n ≡ unborn
  pub is_closed : s.opened cfd ≡ false

-- The states of two threads, a in entry 0 and b in entry k + 1.
module _ (cfd k : ℕ) (s : Server) where
  abbrev a : ℕ
  a = 2 * k

  abbrev b : ℕ
  b = 2 * k + 1

  abbrev s1 : Server
  s1 = accept_client a cfd 0 s

  abbrev s2 : Server
  s2 = look_up a cfd 0 (copy a 0 s1)

  abbrev s3 : Server
  s3 = hang_up a cfd 0 s2

  abbrev s4 : Server
  s4 = accept_client b cfd (k + 1) s3

  abbrev s5 : Server
  s5 = give_back a 0 s4

  abbrev s6 : Server
  s6 = look_up b cfd 0 (copy b (k + 1) s5)

  abbrev s7 : Server
  s7 = hang_up b cfd 0 s6

  abbrev s8 : Server
  s8 = give_back b 0 s7

  module _ (lost : Lost cfd k s) (room : k + 1 < size) where
    step1 : Step false s s1
    unfolding get_free_ifno
    step1 =
        accepts a cfd 0 (ground (arith, lost.unborn_from a)) (lost.is_closed)
          (first_from-eq (λ i. not (s.ifno i).flag) size 0 0 (ground (arith, lost.first_free))
            (omega arith) (omega arith) (λ i x y. absurd (omega arith)))
          (λ e. absurd (ground arith))

    copy1 : Step false s1 (copy a 0 s1)
    unfolding accept_client
    copy1 = copies a 0 (ground arith)

    step2 : Step false (copy a 0 s1) s2
    unfolding get_ifno_by_cfd accept_client copy
    step2 = looks_up a cfd 0 (ground arith) (
        first_from-eq (λ i. (s1.ifno i).cfd == cfd) size 0 0 (ground arith) (omega arith)
          (omega arith) (λ i x y. absurd (omega arith)))

    step3 : Step false s2 s3
    unfolding accept_client look_up hang_up give_back copy
    step3 = hangs_up a cfd 0 (ground arith)

    step4 : Step false s3 s4
    unfolding get_free_ifno accept_client look_up hang_up copy
    step4 =
        accepts b cfd (k + 1) (ground (arith, lost.unborn_from b)) (ground arith)
          (first_from-eq (λ i. not (s3.ifno i).flag) size 0 (k + 1)
            (ground (arith, lost.free (k + 1))) (omega arith) (omega arith)
            (λ i x y. ground (arith, lost.used i)))
          (λ e. absurd (ground arith))

    step5 : Step false s4 s5
    unfolding accept_client look_up hang_up give_back copy
    step5 = gives_back a 0 (ground arith)

    copy5 : Step false s5 (copy b (k + 1) s5)
    unfolding accept_client look_up hang_up give_back copy
    copy5 = copies b (k + 1) (ground arith)

    step6 : Step false (copy b (k + 1) s5) s6
    unfolding get_ifno_by_cfd accept_client look_up hang_up give_back copy
    step6 = looks_up b cfd 0 (ground arith) (
        first_from-eq (λ i. (s5.ifno i).cfd == cfd) size 0 0 (ground arith) (omega arith)
          (omega arith) (λ i x y. absurd (omega arith)))

    step7 : Step false s6 s7
    unfolding accept_client look_up hang_up give_back copy
    step7 = hangs_up b cfd 0 (ground arith)

    step8 : Step false s7 s8
    unfolding accept_client look_up hang_up give_back copy
    step8 = gives_back b 0 (ground arith)

    lost8 : Lost cfd (k + 1) s8
    unfolding accept_client look_up hang_up give_back copy
    lost8 = record {
      used = λ i x y. ground (arith, lost.used i);
      free = λ i x y. ground (arith, lost.free i);
      first_free = ground arith;
      no_thread = λ n x. ground (arith, lost.no_thread n);
      unborn_from = λ n x. ground (arith, lost.unborn_from n);
      is_closed = ground arith;
    }

    ten_steps : {r : Server} → Reach false r s → Reach false r s8
    ten_steps to =
        let first = next (next (next (next to step1) copy1) step2) step3 in
        next (next (next (next (next (next first step4) step5) copy5) step6) step7) step8

-- From an unused table, with one descriptor that is closed each time before it is given out again,
-- any number of entries below the size of the table can be lost: two threads for each, of which the
-- second comes when the first has closed its descriptor and not yet given its entry back. In the
-- end no thread is alive, and the entries are marked as used.
pub Reach-Lost :
    (cfd : ℕ) (s : Server) (k : ℕ)
    → Lost cfd 0 s
    → k < size
    → (s' : Server) × Reach false s s' × Lost cfd k s'
Reach-Lost cfd s zero lost room = (s, here, lost)
Reach-Lost cfd s (suc k) lost room =
    let (s', to, before) = Reach-Lost cfd s k lost (omega arith) in
    let room' : k + 1 < size = omega arith in
    let same : k + 1 ≡ suc k = omega arith in
    (
      s8 cfd k s',
      ten_steps cfd k s' before room' to,
      subst (λ n. Lost cfd n (s8 cfd k s')) same (lost8 cfd k s' before room'),
    )

init-other : (t : ℕ → Ifno) (n i k : ℕ) → k < i → init t n i k ≡ t k
unfolding init
init-other t zero i k h = refl
init-other t (suc n) i k h =
    init-other (put t i (record (t i) { flag = false })) n (i + 1) k (omega arith) ∙ ground arith

init-off : (t : ℕ → Ifno) (n i k : ℕ) → i ≤ k → k < i + n → (init t n i k).flag ≡ false
unfolding init
init-off t zero i k x y = absurd (omega arith)
init-off t (suc n) i k x y = elim (ℕ_discrete i k) [
  | yes e ↦
      let t' = put t i (record (t i) { flag = false }) in
      rw (init-other t' n (i + 1) k (omega arith)) (ground (arith, e))
  | no ne ↦
      init-off (put t i (record (t i) { flag = false })) n (i + 1) k (omega arith) (omega arith)
]

-- What is claimed of the result of main's set-up: nothing if it has failed.
abbrev Ready : ℕ → ℤ ⊎ Server → Type 0
Ready cfd (inl code) = Unit
Ready cfd (inr s) = s.opened cfd ≡ false → Lost cfd 0 s

setup-Ready :
    (t : ℕ → Ifno) (sock bound listening : SysRet) (cfd : ℕ)
    → Ready cfd (setup t sock bound listening)
unfolding setup
setup-Ready t (failed e) bound listening cfd = tt
setup-Ready t (value ftd) (failed e) listening cfd = tt
setup-Ready t (value ftd) (value b) (failed e) cfd = tt
setup-Ready t (value ftd) (value b) (value l) cfd = λ shut. record {
  used = λ i x y. absurd (omega arith);
  free = λ i x y. init-off t size 0 i (omega arith) y;
  first_free = init-off t size 0 0 (omega arith) (omega arith);
  no_thread = λ n x. absurd (omega arith);
  unborn_from = λ n x. refl;
  is_closed = shut;
}

pub setup-Lost :
    (t : ℕ → Ifno) (sock bound listening : SysRet) (cfd : ℕ) {s : Server}
    → setup t sock bound listening ≡ inr s
    → s.opened cfd ≡ false
    → Lost cfd 0 s
setup-Lost t sock bound listening cfd e = rw e at (setup-Ready t sock bound listening cfd)
