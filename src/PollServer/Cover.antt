-- ===== src/PollServer/Cover.antt =====
-- poll is given the entries up to maxftd, a descriptor: why these are all the entries in use.
use linux_c_study.Prelude.{
  ℕ, zero, suc, ◌+◌, ◌-◌, ◌≤◌, ◌<◌, ◌≡◌, refl, sym, ap, ◌∙◌, ◌≢◌, ◌⊎◌, inl, inr, Bool, true, false,
  Option, none, some, [], ◌∷◌, arith, ltb, ◌==◌, ltb→lt, Bool-cases, Option-cases,
}
use linux_c_study.Kernel.{SysRet, failed, value, Answer, error, got}
use linux_c_study.Prelude.Int.{ℤ}
use linux_c_study.Search.{First, first_from-First}
use linux_c_study.PollServer.{
  size, Server, is_free, get_free, setup, accept_client, serve, visit, scan, round,
}

-- Entry k, when it is used, has the descriptor ftd + k, which is at most maxftd.
pub record Covered (s : Server) : Type 0 where
  pub listens : s.client 0 ≡ some s.ftd
  pub own : (k fd : ℕ) → s.client k ≡ some fd → fd ≡ s.ftd + k
  pub polled : (k fd : ℕ) → s.client k ≡ some fd → fd ≤ s.maxftd

-- accept returns the lowest descriptor that is not open; those from ftd on are open when a client
-- has them.
pub record Lowest (s : Server) (cfd : ℕ) : Type 0 where
  pub above : s.ftd < cfd
  pub unused : (k : ℕ) → s.client k ≢ some cfd
  pub taken : (fd : ℕ) → s.ftd < fd → fd < cfd → s.client (fd - s.ftd) ≡ some fd

-- What accept may return: an error, or the lowest descriptor.
abbrev pub Lawful : Server → SysRet → Type 0
Lawful s (failed e) = Unit
Lawful s (value cfd) = Lowest s cfd

is_free-none : (o : Option ℕ) → is_free o ≡ true → o ≡ none
unfolding is_free
is_free-none none h = refl
is_free-none (some fd) h = cc

is_free-some : (o : Option ℕ) → is_free o ≡ false → (fd : ℕ) × (o ≡ some fd)
unfolding is_free
is_free-some none h = cc
is_free-some (some fd) h = (fd, refl)

get_free-First :
    (s : Server) {index : ℕ}
    → get_free s.client size ≡ some index
    → First (λ i. is_free (s.client i)) 0 size index
unfolding get_free
get_free-First s {index} e = first_from-First (λ i. is_free (s.client i)) size 0 {j = index} e

Lowest-own :
    (s : Server) (index cfd : ℕ)
    → Covered s
    → Lowest s cfd
    → get_free s.client size ≡ some index
    → cfd ≡ s.ftd + index
Lowest-own s index cfd v low e =
    let first = get_free-First s {index = index} e in
    let free : s.client index ≡ none = is_free-none (s.client index) first.passes in
    let c : ℕ = cfd - s.ftd in
    let place : cfd ≡ s.ftd + c = omega (arith, low.above) in
    elim (Bool-cases (ltb c index)) [
      | inl h ↦
          let (fd, e') =
            is_free-some (s.client c) (first.before c (omega arith) (ltb→lt c index h)) in
          let same : fd ≡ cfd = v.own c fd e' ∙ sym place in
          absurd (low.unused c (e' ∙ ap some same))
      | inr h ↦ elim (Bool-cases (ltb index c)) [
        | inl h' ↦
            let lt : index < c = ltb→lt index c h' in
            let some_entry : 1 ≤ index = ground (arith, free, v.listens) in
            let back : s.ftd + index - s.ftd ≡ index = omega arith in
            absurd (
              cc
                (rw back at (low.taken (s.ftd + index) (omega arith) (omega (arith, place))), free))
        | inr h' ↦ let same : c ≡ index = ground arith in place ∙ ap (λ k. s.ftd + k) same
      ]
    ]

free-positive : (s : Server) (index : ℕ) → Covered s → s.client index ≡ none → 1 ≤ index
free-positive s index v free = ground (arith, free, v.listens)

accept_client-Covered :
    (s : Server) (index : ℕ) (accepted : SysRet)
    → Covered s
    → Lawful s accepted
    → get_free s.client size ≡ some index
    → Covered (accept_client index accepted s)
unfolding accept_client
accept_client-Covered s index (failed e) v low free =
    let none_yet = is_free-none (s.client index) (get_free-First s {index = index} free).passes in
    let some_entry = free-positive s index v none_yet in
    record {
      listens = ground (arith, some_entry, v.listens);
      own = λ k fd h. ground (arith, v.own k fd);
      polled = λ k fd h. ground (arith, v.polled k fd);
    }
accept_client-Covered s index (value cfd) v low free =
    let none_yet = is_free-none (s.client index) (get_free-First s {index = index} free).passes in
    let some_entry = free-positive s index v none_yet in
    let place = Lowest-own s index cfd v low free in
    record {
      listens = ground (arith, some_entry, v.listens);
      own = λ k fd h. ground (arith, place, v.own k fd);
      polled = λ k fd h. ground (arith, v.polled k fd);
    }

serve-Covered : (i fd : ℕ) (a : Answer) (s : Server) → 1 ≤ i → Covered s → Covered (serve i fd a s)
unfolding serve
serve-Covered i fd (got []) s le v = record {
  listens = ground (arith, v.listens);
  own = λ k f h. ground (arith, v.own k f);
  polled = λ k f h. ground (arith, v.polled k f);
}
serve-Covered i fd (got (b ∷ bs)) s le v = record {
  listens = v.listens;
  own = v.own;
  polled = v.polled;
}
serve-Covered i fd (error e) s le v = record { listens = v.listens; own = v.own; polled = v.polled }

visit-Covered :
    (ready : ℕ → Bool) (answers : ℕ → Answer) (i : ℕ) (s : Server)
    → 1 ≤ i
    → Covered s
    → Covered (visit ready answers i s).1
unfolding visit
visit-Covered ready answers i s le v = elim (Option-cases (s.client i)) [
  | inl e ↦ rw (e, visit) v
  | inr (fd, e) ↦ elim (Bool-cases (ready i)) [
    | inl h ↦ rw (e, visit) (rw h (serve-Covered i fd (answers i) s le v))
    | inr h ↦ rw (e, visit) (rw h v)
  ]
]

scan-Covered :
    (n : ℕ) (ready : ℕ → Bool) (answers : ℕ → Answer) (i left : ℕ) (s : Server)
    → 1 ≤ i
    → Covered s
    → Covered (scan n ready answers i left s)
unfolding scan
scan-Covered zero ready answers i left s le v = v
scan-Covered (suc n) ready answers i left s le v =
    let s' = (visit ready answers i s).1 in
    let v' = visit-Covered ready answers i s le v in
    elim (Bool-cases (visit ready answers i s).0) [
      | inl h ↦ elim (Bool-cases (left == 1)) [
        | inl one ↦ rw (h, one) v'
        | inr more ↦
            rw (h, more) (scan-Covered n ready answers (i + 1) (left - 1) s' (omega arith) v')
      ]
      | inr h ↦ rw h (scan-Covered n ready answers (i + 1) left s' (omega arith) v')
    ]

-- What is claimed of a round: nothing if it has left the array.
abbrev Covered? : Option Server → Type 0
Covered? none = Unit
Covered? (some s) = Covered s

round-Covered? :
    (ready : ℕ → Bool) (answers : ℕ → Answer) (accepted : SysRet) (left : ℕ) (s : Server)
    → Covered s
    → Lawful s accepted
    → Covered? (round ready answers accepted left s)
unfolding round
round-Covered? ready answers accepted left s v low = elim (Bool-cases (ready 0)) [
  | inl h ↦ elim (Option-cases (get_free s.client size)) [
    | inl full ↦ rw (h, full) tt
    | inr (index, free) ↦
        let s1 = accept_client index accepted s in
        let v1 = accept_client-Covered s index accepted v low free in
        elim (Bool-cases (left == 1)) [
          | inl one ↦ rw (h, free, one) v1
          | inr more ↦
              rw (h, free, more)
                (scan-Covered s1.maxftd ready answers 1 (left - 1) s1 (omega arith) v1)
        ]
  ]
  | inr h ↦ rw h (scan-Covered s.maxftd ready answers 1 left s (omega arith) v)
]

-- When entry k has descriptor ftd + k for every client, and maxftd is no lower than any of them, a
-- round that does not find the array full leaves it so, whatever poll and the reads answer, if
-- accept fails or returns the lowest descriptor that is free. The entries in use are then among
-- those up to maxftd, which poll is given and the loop visits.
pub round-Covered :
    (ready : ℕ → Bool) (answers : ℕ → Answer) (accepted : SysRet) (left : ℕ) (s : Server)
    {s' : Server}
    → Covered s
    → Lawful s accepted
    → round ready answers accepted left s ≡ some s'
    → Covered s' × ((k fd : ℕ) → s'.client k ≡ some fd → k ≤ s'.maxftd)
unfolding round
round-Covered ready answers accepted left s {s' = s'} v low e =
    let v' : Covered s' = rw e at (round-Covered? ready answers accepted left s v low) in
    (v', λ k fd h. omega (arith, v'.own k fd h, v'.polled k fd h))

-- What is claimed of the result of main's set-up: nothing if it has failed.
abbrev Ready : ℤ ⊎ Server → Type 0
Ready (inl code) = Unit
Ready (inr s) = Covered s

setup-Ready : (sock bound listening : SysRet) → Ready (setup sock bound listening)
unfolding setup
setup-Ready (failed e) bound listening = tt
setup-Ready (value ftd) (failed e) listening = tt
setup-Ready (value ftd) (value b) (failed e) = tt
setup-Ready (value ftd) (value b) (value l) = record {
  listens = ground arith;
  own = λ k fd h. ground arith;
  polled = λ k fd h. ground arith;
}

pub setup-Covered :
    (sock bound listening : SysRet) {s : Server} → setup sock bound listening ≡ inr s → Covered s
setup-Covered sock bound listening e = rw e at (setup-Ready sock bound listening)
