-- ===== src/EpollEcho/Descriptors.antt =====
-- The descriptors of the four echo servers and what they write, over whole runs.
use linux_c_study.Prelude.{
  ℕ, ◌≡◌, ◌⊎◌, inl, inr, Bool, true, false, Option, none, some, List, [], ◌∷◌, arith, ℕ_discrete,
  ◌==◌, Bool-cases, Option-cases, Sum-cases, length, length-append, length-take, length-replicate,
}
use linux_c_study.Kernel.{Errno, SysRet, failed, value, Answer, error, got, interrupted}
use linux_c_study.Prelude.Int.{ℤ}
use linux_c_study.EpollEcho.{
  Trigger, level, edge, Server, put, accept_client, accept_nonblocking, answer_client, read_once,
  read_all, reply, Event, events, rounds, epoll, epoll_lt, epoll_et, epoll_el_loop,
}
use mathlib.Core.Path.{subst}

-- Each write was of `size` bytes.
abbrev pub Whole : ℕ → List (ℕ × List ℕ) → Type 0
Whole size [] = Unit
Whole size ((fd, bs) ∷ log) = (length bs ≡ size) × Whole size log

-- From s to s': what was open still is, what is watched is open, and the writes are whole.
pub record Grows (size : ℕ) (s s' : Server) : Type 0 where
  pub still : (fd : ℕ) → s.opened fd ≡ true → s'.opened fd ≡ true
  pub watched :
      ((fd : ℕ) → s.opened fd ≡ false → s.watched fd ≡ none)
      → (fd : ℕ) → s'.opened fd ≡ false
      → s'.watched fd ≡ none
  pub whole : Whole size s.log → Whole size s'.log

Grows-refl : (size : ℕ) (s : Server) → Grows size s s
Grows-refl size s = record { still = λ fd o. o; watched = λ h. h; whole = λ h. h }

Grows-trans : (size : ℕ) {s t u : Server} → Grows size s t → Grows size t u → Grows size s u
Grows-trans size a b = record {
  still = λ fd o. b.still fd (a.still fd o);
  watched = λ h. b.watched (a.watched h);
  whole = λ h. b.whole (a.whole h);
}

length-reply : (size : ℕ) (a : Answer) → length (reply size a) ≡ size
unfolding reply
length-reply size (got bs) = simp (length-take, length-append, length-replicate) (omega arith)
length-reply size (error e) = simp (length-take, length-replicate) (omega arith)

added-Grows :
    (size cfd : ℕ) (t : Trigger) (nb : ℕ → Bool) (s : Server)
    → Grows size s (record s {
      watched = put s.watched cfd (some t);
      opened = put s.opened cfd true;
      nonblocking = nb;
    })
unfolding ℕ_discrete
added-Grows size cfd t nb s = record {
  still = λ i o. ground arith;
  watched = λ w i o. ground (arith, w i);
  whole = λ q. q;
}

accept_client-Grows :
    (size : ℕ) (t : Trigger) (a : SysRet) (s : Server) {s' : Server}
    → accept_client t a s ≡ inr s'
    → Grows size s s'
unfolding accept_client
accept_client-Grows size t (failed e) s h = absurd (ground arith)
accept_client-Grows size t (value cfd) s {s'} h =
    subst (Grows size s) (ground arith) (added-Grows size cfd t s.nonblocking s)

accept_nonblocking-Grows :
    (size : ℕ) (a : SysRet) (s : Server) {s' : Server}
    → accept_nonblocking a s ≡ inr s'
    → Grows size s s'
unfolding accept_nonblocking
accept_nonblocking-Grows size (failed e) s h = absurd (ground arith)
accept_nonblocking-Grows size (value cfd) s {s'} h =
    subst (Grows size s) (ground arith) (added-Grows size cfd edge (put s.nonblocking cfd true) s)

answer_client-Grows :
    (size fd : ℕ) (a : Answer) (s : Server) → Grows size s (answer_client size fd a s)
unfolding answer_client
answer_client-Grows size fd (got []) s = record {
  still = λ i o. o;
  watched = λ w i o. ground (arith, w i);
  whole = λ q. q;
}
answer_client-Grows size fd (got (b ∷ bs)) s = record {
  still = λ i o. o;
  watched = λ w. w;
  whole = λ q. (length-reply size (got (b ∷ bs)), q);
}
answer_client-Grows size fd (error e) s = record {
  still = λ i o. o;
  watched = λ w. w;
  whole = λ q. (length-reply size (error e), q);
}

read_once-Grows :
    (size fd : ℕ) (answers' : List Answer) (s : Server) {s' : Server}
    → read_once size fd answers' s ≡ some s'
    → Grows size s s'
unfolding read_once
read_once-Grows size fd [] s h = absurd (ground arith)
read_once-Grows size fd (a ∷ rest) s {s'} h =
    subst (Grows size s) (ground arith) (answer_client-Grows size fd a s)

read_all-Grows :
    (fd : ℕ) (answers : List Answer) (s : Server) {s' : Server}
    → read_all fd answers s ≡ some s'
    → Grows 2 s s'
unfolding read_all
read_all-Grows fd [] s h = absurd (ground arith)
read_all-Grows fd (error e ∷ rest) s h = subst (Grows 2 s) (ground arith) (Grows-refl 2 s)
read_all-Grows fd (got bs ∷ rest) s h =
    Grows-trans 2 (answer_client-Grows 2 fd (got bs) s)
      (read_all-Grows fd rest (answer_client 2 fd (got bs) s) h)

module _ (size : ℕ) (accepts : SysRet → Server → ℤ ⊎ Server)
    (reads : ℕ → List Answer → Server → Option Server)
    (accepted : (a : SysRet) (s : Server) (s' : Server) → accepts a s ≡ inr s' → Grows size s s')
    (answered : (fd : ℕ) (answers : List Answer) (s s' : Server)
      → reads fd answers s ≡ some s'
      → Grows size s s') where
  events-Grows :
      (es : List Event) (s : Server) {s' : Server}
      → events accepts reads es s ≡ some (inr s')
      → Grows size s s'
  unfolding events
  events-Grows [] s h = subst (Grows size s) (ground arith) (Grows-refl size s)
  events-Grows (e ∷ es) s {s'} h = elim (Bool-cases (s.ftd == e.fd)) [
    | inl q ↦ elim (Sum-cases (accepts e.accepted s)) [
      | inl (r, k) ↦ absurd (ground arith)
      | inr (t, k) ↦
          Grows-trans size (accepted e.accepted s t k) (events-Grows es t {s' = s'} (ground arith))
    ]
    | inr q ↦ elim (Option-cases (reads e.fd e.answers s)) [
      | inl k ↦ absurd (ground arith)
      | inr (t, k) ↦
          Grows-trans size (answered e.fd e.answers s t k)
            (events-Grows es t {s' = s'} (ground arith))
    ]
  ]

  rounds-Grows :
      (ws : List (Errno ⊎ List Event)) (s : Server) {s' : Server}
      → rounds accepts reads ws s ≡ some (inr s')
      → Grows size s s'
  unfolding rounds
  rounds-Grows [] s h = subst (Grows size s) (ground arith) (Grows-refl size s)
  rounds-Grows (inl e ∷ ws) s {s'} h = elim (Bool-cases (interrupted e)) [
    | inl q ↦ rounds-Grows ws s {s' = s'} (ground arith)
    | inr q ↦ absurd (ground arith)
  ]
  rounds-Grows (inr es ∷ ws) s {s'} h = elim (Option-cases (events accepts reads es s)) [
    | inl k ↦ absurd (ground arith)
    | inr (inl r, k) ↦ absurd (ground arith)
    | inr (inr t, k) ↦
        Grows-trans size (events-Grows es s {s' = t} k) (rounds-Grows ws t {s' = s'} (ground arith))
  ]

-- In every run of the four programs that has not ended, each descriptor that was open is open still,
-- those of clients that have closed with them; if only open descriptors were watched, that still
-- holds; and every write was of the whole buffer, whatever had been read.
pub runs-Grows :
    (ws : List (Errno ⊎ List Event)) (s : Server) {s' : Server}
    → (epoll ws s ≡ some (inr s') → Grows 1024 s s')
      × (epoll_lt ws s ≡ some (inr s') → Grows 2 s s')
      × (epoll_et ws s ≡ some (inr s') → Grows 2 s s')
      × (epoll_el_loop ws s ≡ some (inr s') → Grows 2 s s')
unfolding epoll epoll_lt epoll_et epoll_el_loop
runs-Grows ws s {s'} = (
  once 1024 level,
  once 2 level,
  once 2 edge,
  λ h.
      rounds-Grows 2 accept_nonblocking read_all (λ a t u. accept_nonblocking-Grows 2 a t {s' = u})
        (λ fd answers' t u. read_all-Grows fd answers' t {s' = u}) ws s {s' = s'} h,
)
  where
    once :
        (size : ℕ) (t : Trigger)
        → rounds (accept_client t) (read_once size) ws s ≡ some (inr s')
        → Grows size s s'
    once size t h =
        rounds-Grows size (accept_client t) (read_once size)
          (λ a u v. accept_client-Grows size t a u {s' = v})
          (λ fd answers' u v. read_once-Grows size fd answers' u {s' = v}) ws s {s' = s'} h
