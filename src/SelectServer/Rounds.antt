-- ===== src/SelectServer/Rounds.antt =====
-- A round of the loop serves ready clients inside the table, and keeps the table in agreement.
use linux_c_study.Prelude.{
  ℕ, zero, suc, ◌+◌, ◌-◌, ◌≤◌, ◌<◌, ◌≡◌, refl, ap, ◌∙◌, ◌⊎◌, inl, inr, Bool, true, false, some,
  arith, ℕ_discrete, ◌==◌, Bool-cases, Option-cases,
}
use mathlib.Core.Path.{subst}
use linux_c_study.Kernel.{SysRet, failed, value, Answer}
use linux_c_study.Prelude.Int.{ℤ}
use linux_c_study.SelectServer.{
  size, Ifno, Server, put, ifno_init, getifno, accept_client, answer_client, serve, scan,
  scan_clients, round, setup,
}
use linux_c_study.SelectServer.Table.{
  Aligned, Lowest, get_ifnoby_fd-Aligned, answer_client-Answered, accept_client-Aligned,
}

-- Ready descriptors from i on are clients of the set.
abbrev pub ReadyFrom : (ℕ → Bool) → ℕ → Server → Type 0
ReadyFrom ready i s = (fd : ℕ) → i ≤ fd → ready fd ≡ true → s.set fd ≡ true

-- A client that is served, and what that leaves.
record Served (i : ℕ) (a : Answer) (s : Server) : Type 0 where
  next : Server
  returned : serve i a s ≡ some next
  valid : Aligned next
  same_ftd : next.ftd ≡ s.ftd
  others : (fd : ℕ) → i < fd → next.set fd ≡ s.set fd

entry-Served :
    (s : Server) (k : ℕ) (a : Answer)
    → Aligned s
    → k < size
    → s.set (s.ftd + 1 + k) ≡ true
    → Served (s.ftd + 1 + k) a s
unfolding serve
entry-Served s k a v lt on =
    let d = answer_client-Answered s k a v lt in
    record {
      next = answer_client k (s.ftd + 1 + k) a s;
      returned = rw (get_ifnoby_fd-Aligned s k v lt on, serve) refl;
      valid = d.valid;
      same_ftd = d.same_ftd;
      others = d.others;
    }

client-Served :
    (s : Server) (i : ℕ) (a : Answer) → Aligned s → s.ftd < i → s.set i ≡ true → Served i a s
client-Served s i a v above on =
    let k : ℕ = i - (s.ftd + 1) in
    let place : s.ftd + 1 + k ≡ i = omega arith in
    subst (λ j. Served j a s) place
      (entry-Served s k a v (omega (arith, (v.range i on).1)) (ap s.set place ∙ on))

-- The loop over the descriptors does not leave the table: every ready client is found in it.
scan-Aligned :
    (n : ℕ) (ready : ℕ → Bool) (answers : ℕ → Answer) (i changeftd : ℕ) (s : Server)
    → Aligned s
    → s.ftd < i
    → ReadyFrom ready i s
    → (s' : Server) × (scan n ready answers i changeftd s ≡ some s') × Aligned s'
unfolding scan
scan-Aligned zero ready answers i changeftd s v above r = (s, refl, v)
scan-Aligned (suc n) ready answers i changeftd s v above r = elim (Bool-cases (ready i)) [
  | inl h ↦
      let d = client-Served s i (answers i) v above (r i (omega arith) h) in
      let below : d.next.ftd < i + 1 = omega (arith, d.same_ftd) in
      let ready' : ReadyFrom ready (i + 1) d.next =
        λ fd x y. d.others fd (omega arith) ∙ r fd (omega arith) y in
      let (s', e, v') =
        scan-Aligned n ready answers (i + 1) (changeftd - 1) d.next d.valid below ready' in
      elim (Bool-cases (changeftd == 1)) [
        | inl one ↦ (d.next, rw (h, d.returned, one) refl, d.valid)
        | inr more ↦ (s', rw (h, d.returned, more) e, v')
      ]
  | inr h ↦
      let (s', e, v') =
        scan-Aligned n ready answers (i + 1) changeftd s v (omega arith)
          (λ fd a b. r fd (omega arith) b) in
      (s', rw h e, v')
]

pub scan_clients-Aligned :
    (ready : ℕ → Bool) (answers : ℕ → Answer) (changeftd : ℕ) (s : Server)
    → Aligned s
    → ReadyFrom ready (s.ftd + 1) s
    → (s' : Server) × (scan_clients ready answers changeftd s ≡ some s') × Aligned s'
unfolding scan_clients
scan_clients-Aligned ready answers changeftd s v r =
    scan-Aligned (s.maxftd - s.ftd) ready answers (s.ftd + 1) changeftd s v (omega arith) r

accept_client-ReadyFrom :
    (ready : ℕ → Bool) (index cfd i : ℕ) (s : Server)
    → ReadyFrom ready i s
    → ReadyFrom ready i (accept_client index cfd s)
unfolding accept_client
accept_client-ReadyFrom ready index cfd i s r = λ fd a b. ground (arith, r fd a b)

-- When the table and the set agree, and the ready clients are in the set, a round of main's loop
-- never leaves the table, whatever the reads answer, and the table and the set agree again, if a
-- new connection gets the lowest descriptor that is free.
pub round-Aligned :
    (ready : ℕ → Bool) (answers : ℕ → Answer) (cfd changeftd : ℕ) (s : Server)
    → Aligned s
    → Lowest s cfd
    → ReadyFrom ready (s.ftd + 1) s
    → (s' : Server) × (round ready answers cfd changeftd s ≡ some s') × Aligned s'
unfolding round accept_client
round-Aligned ready answers cfd changeftd s v low r = elim (Bool-cases (ready s.ftd)) [
  | inl h ↦ elim (Option-cases (getifno s.ifno size)) [
    | inl full ↦
        let (s', e, v') = scan_clients-Aligned ready answers changeftd s v r in
        (s', rw (h, full) e, v')
    | inr (index, free) ↦
        let s1 = accept_client index cfd s in
        let v1 = accept_client-Aligned s index cfd v low free in
        let (s', e, v') =
          scan_clients-Aligned ready answers (changeftd - 1) s1 v1
            (accept_client-ReadyFrom ready index cfd (s.ftd + 1) s r) in
        elim (Bool-cases (changeftd == 1)) [
          | inl one ↦ (s1, rw (h, free, one) refl, v1)
          | inr more ↦ (s', rw (h, free, more) e, v')
        ]
  ]
  | inr h ↦ let (s', e, v') = scan_clients-Aligned ready answers changeftd s v r in (s', rw h e, v')
]

ifno_init-other : (t : ℕ → Ifno) (n i k : ℕ) → k < i → ifno_init t n i k ≡ t k
unfolding ifno_init
ifno_init-other t zero i k h = refl
ifno_init-other t (suc n) i k h =
    ifno_init-other (put t i (record (t i) { flag = false })) n (i + 1) k (omega arith)
    ∙ ground arith

ifno_init-off :
    (t : ℕ → Ifno) (n i k : ℕ)
    → i ≤ k
    → k < i + n
    → ifno_init t n i k ≡ record (t k) { flag = false }
unfolding ifno_init
ifno_init-off t zero i k a b = absurd (omega arith)
ifno_init-off t (suc n) i k a b = elim (ℕ_discrete i k) [
  | yes e ↦
      ifno_init-other (put t i (record (t i) { flag = false })) n (i + 1) k (omega arith)
      ∙ ground (arith, e)
  | no ne ↦
      ifno_init-off (put t i (record (t i) { flag = false })) n (i + 1) k (omega arith)
        (omega arith)
      ∙ ground (arith, ne)
]

-- What is claimed of the result of main's set-up: nothing if it has failed.
abbrev Ready : ℤ ⊎ Server → Type 0
Ready (inl code) = Unit
Ready (inr s) = Aligned s

setup-Ready :
    (t : ℕ → Ifno) (sock bound listening : SysRet)
    → ((i : ℕ) → (t i).fd ≡ 0)
    → Ready (setup t sock bound listening)
unfolding setup
setup-Ready t (failed e) bound listening zeros = tt
setup-Ready t (value ftd) (failed e) listening zeros = tt
setup-Ready t (value ftd) (value b) (failed e) zeros = tt
setup-Ready t (value ftd) (value b) (value l) zeros = record {
  own_fd = λ i l h. ground (arith, ifno_init-off t size 0 i (omega arith) l);
  old_fd = λ i l. ground (arith, ifno_init-off t size 0 i (omega arith) l, zeros i);
  in_set = λ i l. ground (arith, ifno_init-off t size 0 i (omega arith) l);
  range = λ fd h. ground arith;
  highest = λ fd h. ground arith;
}

-- The table and the set agree when main enters its loop.
pub setup-Aligned :
    (t : ℕ → Ifno) (sock bound listening : SysRet) {s : Server}
    → ((i : ℕ) → (t i).fd ≡ 0)
    → setup t sock bound listening ≡ inr s
    → Aligned s
setup-Aligned t sock bound listening zeros e = rw e at (setup-Ready t sock bound listening zeros)
