-- ===== src/Reactor/Sweep.antt =====
-- The checks for idle clients: which slots they visit, and what they close.
use linux_c_study.Prelude.{
  ℕ, zero, suc, ◌+◌, ◌-◌, ◌≤◌, ◌<◌, ◌≡◌, refl, ap, ◌∙◌, inl, inr, true, arith, ℕ_discrete, ltb,
  ltb→lt, Bool-cases,
}
use linux_c_study.Reactor.{max_events, MyEvent, Reactor, eventdel, close, check, wrapped, sweep}
use linux_c_study.Reactor.Invariant.{IsValid}
use linux_c_study.Reactor.Callbacks.{check-IsValid}

pub wrapped-< : {checkpos : ℕ} → checkpos ≤ max_events → wrapped checkpos < max_events
unfolding wrapped
wrapped-< h = ground (arith)

-- The position stays in range: the slot that is checked is never the one of the listening socket.
sweep-position :
    (n now : ℕ) {checkpos : ℕ} (s : Reactor)
    → checkpos ≤ max_events
    → (sweep n now checkpos s).0 ≤ max_events
unfolding sweep
sweep-position zero now s h = h
sweep-position (suc n) now {checkpos} s h =
    sweep-position n now (check now (wrapped checkpos) s) (ground (arith, wrapped-< h))

pub sweep-IsValid :
    (n now checkpos : ℕ) (s : Reactor) → IsValid s → IsValid (sweep n now checkpos s).1
unfolding sweep
sweep-IsValid zero now checkpos s v = v
sweep-IsValid (suc n) now checkpos s v =
    sweep-IsValid n now (wrapped checkpos + 1) (check now (wrapped checkpos) s)
      (check-IsValid now (wrapped checkpos) s v)

-- The client of this slot has been idle for a minute.
abbrev pub IsIdle : ℕ → MyEvent → Type 0
IsIdle now ev = (ev.status ≡ true) × (60 ≤ now - ev.last_active)

pub check-other :
    (now j : ℕ) (s : Reactor) (i : ℕ) → ¬ (j ≡ i) → (check now j s).g_events i ≡ s.g_events i
unfolding check eventdel close
check-other now j s i ne = ground arith

-- The rounds before the slot i is checked, from the slot c on.
pub data Ahead (n c i : ℕ) : Type 0 where
  later : c ≤ i → i < c + n → Ahead n c i
  behind : i < c → i + max_events < c + n → Ahead n c i

wrapped-step : {c : ℕ} → suc c < max_events → wrapped (c + 1) ≡ c + 1
unfolding wrapped
wrapped-step h = ground (arith)

wrapped-end : {c : ℕ} → suc c ≡ max_events → wrapped (c + 1) ≡ 0
unfolding wrapped
wrapped-end h = ground (arith)

pub Ahead-next :
    (n : ℕ) {c i : ℕ}
    → c < max_events
    → i < max_events
    → ¬ (c ≡ i)
    → Ahead (suc n) c i
    → Ahead n (wrapped (c + 1)) i
Ahead-next n {c} {i} lc li ne (later a b) =
    let lt : c < i = ground (arith) in
    rw (wrapped-step {c = c} (omega arith)) (later (omega arith) (omega arith))
Ahead-next n {c} {i} lc li ne (behind a b) = elim (ℕ_discrete (suc c) max_events) [
  | yes e ↦ rw (wrapped-end {c = c} e) (later (omega arith) (omega arith))
  | no ne' ↦ rw (wrapped-step {c = c} (ground (arith))) (behind (omega arith) (omega arith))
]

pub Ahead-zero : {c i : ℕ} → c < max_events → Ahead zero c i → ⊥
Ahead-zero lc (later a b) = omega arith
Ahead-zero lc (behind a b) = omega arith

pub Ahead-all : (n : ℕ) {c i : ℕ} → max_events ≤ n → c < max_events → i < max_events → Ahead n c i
Ahead-all n {c} {i} enough lc li = elim (Bool-cases (ltb i c)) [
  | inl h ↦ let lt : i < c = ltb→lt i c h in behind lt (omega arith)
  | inr h ↦ let ge : c ≤ i = ground arith in later ge (omega arith)
]

check-active :
    (now j : ℕ) (s : Reactor) (i : ℕ)
    → now - (s.g_events i).last_active < 60
    → (check now j s).g_events i ≡ s.g_events i
unfolding check eventdel close
check-active now j s i h = ground arith

-- A slot that was active within the last minute stays as it is, whatever number of checks begins
-- wherever.
pub sweep_keeps_active :
    (n now checkpos : ℕ) (s : Reactor) (i : ℕ)
    → now - (s.g_events i).last_active < 60
    → (sweep n now checkpos s).1.g_events i ≡ s.g_events i
unfolding sweep
sweep_keeps_active zero now checkpos s i h = refl
sweep_keeps_active (suc n) now checkpos s i h =
    let same = check-active now (wrapped checkpos) s i h in
    rw
      (sweep_keeps_active n now (wrapped checkpos + 1) (check now (wrapped checkpos) s) i
        (rw same h))
      same

-- With no idle client, nothing changes.
pub sweep-active :
    (n now checkpos : ℕ) (s : Reactor)
    → ((i : ℕ) → now - (s.g_events i).last_active < 60)
    → (sweep n now checkpos s).1 ≡ s
unfolding sweep check
sweep-active zero now checkpos s h = refl
sweep-active (suc n) now checkpos s h =
    let same : check now (wrapped checkpos) s ≡ s = ground (arith, h (wrapped checkpos)) in
    ap (λ t. (sweep n now (wrapped checkpos + 1) t).1) same
    ∙ sweep-active n now (wrapped checkpos + 1) s h
