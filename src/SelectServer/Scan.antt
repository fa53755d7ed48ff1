-- ===== src/SelectServer/Scan.antt =====
-- The loop over the descriptors stops early, and still serves every client that is ready.
use linux_c_study.Prelude.{
  ℕ, zero, suc, ◌+◌, ◌-◌, ◌≤◌, ◌≡◌, refl, sym, inl, inr, Bool, Option, none, some, arith, ◌==◌,
  if◌then◌else◌, Bool-cases, Option-cases,
}
use linux_c_study.Kernel.{Answer}
use linux_c_study.SelectServer.{Server, serve, scan}

-- The loop with no counter: every ready descriptor is served.
unfoldable pub scan_all : ℕ → (ℕ → Bool) → (ℕ → Answer) → ℕ → Server → Option Server
scan_all zero ready answers i s = some s
scan_all (suc n) ready answers i s =
    let skipped = scan_all n ready answers (i + 1) s in
    let served : Option Server = elim (serve i (answers i) s) [
      | none ↦ none
      | some s' ↦ scan_all n ready answers (i + 1) s'
    ] in
    if ready i then served else skipped

-- The ready ones of `n` descriptors from i on.
unfoldable pub count_ready : (ℕ → Bool) → ℕ → ℕ → ℕ
count_ready ready zero i = 0
count_ready ready (suc n) i =
    let rest = count_ready ready n (i + 1) in if ready i then suc rest else rest

scan_all-none :
    (n : ℕ) (ready : ℕ → Bool) (answers : ℕ → Answer) (i : ℕ) (s : Server)
    → count_ready ready n i ≡ 0
    → scan_all n ready answers i s ≡ some s
unfolding scan_all count_ready
scan_all-none zero ready answers i s none_ready = refl
scan_all-none (suc n) ready answers i s none_ready = elim (Bool-cases (ready i)) [
  | inl h ↦ absurd (ground (arith, h))
  | inr h ↦ rw h (scan_all-none n ready answers (i + 1) s (ground (arith, h)))
]

-- The break at `--changeftd == 0` loses nothing: if select has counted at least the clients that
-- are ready, the loop does what the loop with no counter does.
pub scan-scan_all :
    (n : ℕ) (ready : ℕ → Bool) (answers : ℕ → Answer) (i changeftd : ℕ) (s : Server)
    → count_ready ready n i ≤ changeftd
    → scan n ready answers i changeftd s ≡ scan_all n ready answers i s
unfolding scan scan_all count_ready
scan-scan_all zero ready answers i changeftd s enough = refl
scan-scan_all (suc n) ready answers i changeftd s enough = elim (Bool-cases (ready i)) [
  | inl h ↦ elim (Option-cases (serve i (answers i) s)) [
    | inl e ↦ rw (h, e) refl
    | inr (s', e) ↦ elim (Bool-cases (changeftd == 1)) [
      | inl one ↦
          rw (h, e, one)
            (sym (scan_all-none n ready answers (i + 1) s' (ground (arith, h, one, enough))))
      | inr more ↦
          rw (h, e, more)
            (scan-scan_all n ready answers (i + 1) (changeftd - 1) s'
              (ground (arith, h, more, enough)))
    ]
  ]
  | inr h ↦ rw h (scan-scan_all n ready answers (i + 1) changeftd s (ground (arith, h)))
]
