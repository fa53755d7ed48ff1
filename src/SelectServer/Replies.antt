-- ===== src/SelectServer/Replies.antt =====
-- What one round of select.c sends to each client.
use linux_c_study.Prelude.{
  ℕ, zero, suc, ◌+◌, ◌-◌, ◌≤◌, ◌<◌, ◌≡◌, refl, sym, ap, ◌∙◌, ◌≢◌, inl, inr, Bool, some, List, [],
  ◌∷◌, ◌++◌, arith, ℕ_discrete, if◌then◌else◌, Bool-cases, Option-cases,
}
use mathlib.Core.Path.{subst}
use mathlib.Core.Logic.{ite}
use linux_c_study.Kernel.{Answer, error, got}
use linux_c_study.SelectServer.{
  size, Action, wrote, closed, Server, reply, get_ifnoby_fd, answer_client, serve, scan_clients,
}
use linux_c_study.SelectServer.Table.{Aligned}
use linux_c_study.SelectServer.Scan.{scan_all, count_ready, scan-scan_all}
use linux_c_study.SelectServer.Rounds.{ReadyFrom, scan_clients-Aligned}

-- The calls on a descriptor, the last one first.
abbrev pub calls_on : ℕ → List Action → List Action
calls_on c [] = []
calls_on c (wrote fd bs ∷ log) =
    ite (ℕ_discrete fd c) (wrote fd bs ∷ calls_on c log) (calls_on c log)
calls_on c (closed fd ∷ log) = ite (ℕ_discrete fd c) (closed fd ∷ calls_on c log) (calls_on c log)

-- What a read of a client calls for.
abbrev pub due : ℕ → Answer → List Action
due c (got []) = closed c ∷ []
due c (got (b ∷ bs)) = wrote c (reply (got (b ∷ bs))) ∷ []
due c (error e) = wrote c (reply (error e)) ∷ []

answer_client-other :
    (c index i : ℕ) (a : Answer) (s : Server)
    → i ≢ c
    → calls_on c (answer_client index i a s).log ≡ calls_on c s.log
unfolding answer_client
answer_client-other c index i (got []) s ne = ground arith
answer_client-other c index i (got (b ∷ bs)) s ne = ground arith
answer_client-other c index i (error e) s ne = ground arith

answer_client-due :
    (c index : ℕ) (a : Answer) (s : Server)
    → calls_on c (answer_client index c a s).log ≡ due c a ++ calls_on c s.log
unfolding answer_client
answer_client-due c index (got []) s = ground arith
answer_client-due c index (got (b ∷ bs)) s = ground arith
answer_client-due c index (error e) s = ground arith

serve-some :
    (i : ℕ) (a : Answer) (s : Server) {s' : Server}
    → serve i a s ≡ some s'
    → (index : ℕ) × (answer_client index i a s ≡ s')
unfolding serve
serve-some i a s {s'} e = elim (Option-cases (get_ifnoby_fd s.ifno size i)) [
  | inl h ↦ absurd (ground arith)
  | inr (index, h) ↦ (index, ground arith)
]

serve-other :
    (c i : ℕ) (a : Answer) (s : Server) {s' : Server}
    → i ≢ c
    → serve i a s ≡ some s'
    → calls_on c s'.log ≡ calls_on c s.log
serve-other c i a s {s'} ne e =
    let (index, same) = serve-some i a s {s' = s'} e in
    subst (λ (t : Server). calls_on c t.log ≡ calls_on c s.log) same
      (answer_client-other c index i a s ne)

serve-due :
    (c : ℕ) (a : Answer) (s : Server) {s' : Server}
    → serve c a s ≡ some s'
    → calls_on c s'.log ≡ due c a ++ calls_on c s.log
serve-due c a s {s'} e =
    let (index, same) = serve-some c a s {s' = s'} e in
    subst (λ (t : Server). calls_on c t.log ≡ due c a ++ calls_on c s.log) same
      (answer_client-due c index a s)

-- Descriptors behind c, or none.
scan_all-behind :
    (n : ℕ) (ready : ℕ → Bool) (answers : ℕ → Answer) (i c : ℕ) (s : Server) {s' : Server}
    → c < i
    → scan_all n ready answers i s ≡ some s'
    → calls_on c s'.log ≡ calls_on c s.log
unfolding scan_all
scan_all-behind zero ready answers i c s {s'} h e = ground arith
scan_all-behind (suc n) ready answers i c s {s'} h e = elim (Bool-cases (ready i)) [
  | inl on ↦ elim (Option-cases (serve i (answers i) s)) [
    | inl k ↦ absurd (ground arith)
    | inr (t, k) ↦
        scan_all-behind n ready answers (i + 1) c t {s' = s'} (omega arith) (ground arith)
        ∙ serve-other c i (answers i) s {s' = t} (λ q. absurd (omega arith)) k
  ]
  | inr off ↦ scan_all-behind n ready answers (i + 1) c s {s' = s'} (omega arith) (ground arith)
]

scan_all-due :
    (n : ℕ) (ready : ℕ → Bool) (answers : ℕ → Answer) (i c : ℕ) (s : Server) {s' : Server}
    → i ≤ c
    → c < i + n
    → scan_all n ready answers i s ≡ some s'
    → calls_on c s'.log ≡ (if ready c then due c (answers c) else []) ++ calls_on c s.log
unfolding scan_all
scan_all-due zero ready answers i c s {s'} lo hi e = absurd (omega arith)
scan_all-due (suc n) ready answers i c s {s'} lo hi e = elim (Bool-cases (ready i)) [
  | inl on ↦ elim (Option-cases (serve i (answers i) s)) [
    | inl k ↦ absurd (ground arith)
    | inr (t, k) ↦ elim (ℕ_discrete i c) [
      | yes same ↦
          scan_all-behind n ready answers (i + 1) c t {s' = s'} (omega arith) (ground arith)
          ∙ subst
              (λ k.
                calls_on k t.log ≡ (if ready k then due k (answers k) else []) ++ calls_on k s.log)
              same (rw on (serve-due i (answers i) s {s' = t} k))
      | no other ↦
          scan_all-due n ready answers (i + 1) c t {s' = s'} (omega arith) (omega arith)
            (ground arith)
          ∙ ap (λ xs. (if ready c then due c (answers c) else []) ++ xs)
              (serve-other c i (answers i) s {s' = t} other k)
    ]
  ]
  | inr off ↦ elim (ℕ_discrete i c) [
    | yes same ↦
        scan_all-behind n ready answers (i + 1) c s {s' = s'} (omega arith) (ground arith)
        ∙ subst
            (λ k.
              calls_on k s.log ≡ (if ready k then due k (answers k) else []) ++ calls_on k s.log)
            same (rw off refl)
    | no other ↦
        scan_all-due n ready answers (i + 1) c s {s' = s'} (omega arith) (omega arith)
          (ground arith)
  ]
]

-- In a round in which select reports no more clients than it counts, all of them in the set, the loop
-- over the clients of a table that agrees with the set comes to its end, and has then made for each
-- descriptor behind the listening one, up to maxftd, the one call that its own read asks for if it was
-- reported: the close at the end of the stream, and else a reply to what was read; and none on it if
-- it was not.
pub scan_clients-due :
    (ready : ℕ → Bool) (answers : ℕ → Answer) (changeftd c : ℕ) (s : Server)
    → Aligned s
    → ReadyFrom ready (s.ftd + 1) s
    → count_ready ready (s.maxftd - s.ftd) (s.ftd + 1) ≤ changeftd
    → s.ftd < c
    → c ≤ s.maxftd
    → (s' : Server) × (scan_clients ready answers changeftd s ≡ some s')
      × (calls_on c s'.log ≡ (if ready c then due c (answers c) else []) ++ calls_on c s.log)
unfolding scan_clients
scan_clients-due ready answers changeftd c s v r enough lo hi =
    let (s', e, v') = scan_clients-Aligned ready answers changeftd s v r in
    let all : scan_all (s.maxftd - s.ftd) ready answers (s.ftd + 1) s ≡ some s' =
      sym (scan-scan_all (s.maxftd - s.ftd) ready answers (s.ftd + 1) changeftd s enough) ∙ e in
    (
      s',
      e,
      scan_all-due (s.maxftd - s.ftd) ready answers (s.ftd + 1) c s {s' = s'} (omega arith)
          (omega arith) all,
    )
