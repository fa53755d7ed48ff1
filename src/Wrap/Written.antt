-- ===== src/Wrap/Written.antt =====
-- Writen: what it hands over, and that it writes everything.
use linux_c_study.Prelude.{
  ℕ, zero, suc, ◌<◌, ◌≡◌, refl, sym, ap, ◌∙◌, ◌⊎◌, inl, inr, Option, none, some, List, [], ◌∷◌,
  ◌++◌, append_assoc, append-nil, arith, ◌==◌, ==_iff, Bool-cases, suc-==-zero, length, take, drop,
  take-append-drop, length-drop,
}
use linux_c_study.Kernel.{Turn, fault, give, Serves, served, interrupted}
use linux_c_study.Prelude.Int.{ℤ, pos, negsuc}
use linux_c_study.Prelude.Bytes.{All}
use linux_c_study.Wrap.{writen_loop, writen}

-- What Writen has handed to the kernel, when it returns, is a beginning of the caller's bytes.
pub record Written (vptr : List ℕ) (r : ℤ) (out : List ℕ) : Type 0 where
  pub rest : List ℕ
  pub split : out ++ rest ≡ vptr
  pub counted : (r ≡ negsuc 0) ⊎ ((r ≡ pos (length vptr)) × (out ≡ vptr))

take-drop-append :
    (k : ℕ) (out left vptr : List ℕ)
    → out ++ left ≡ vptr
    → (out ++ take k left) ++ drop k left ≡ vptr
take-drop-append k out left vptr e =
    append_assoc out (take k left) (drop k left) ∙ ap (λ r. out ++ r) (take-append-drop k left) ∙ e

Written-all :
    (vptr out left : List ℕ)
    → out ++ left ≡ vptr
    → length left ≡ 0
    → Written vptr (pos (length out)) out
Written-all vptr out [] e h =
    let all : out ≡ vptr = sym (append-nil out) ∙ e in
    record { rest = []; split = e; counted = inr (ap (λ r. pos (length r)) all, all) }
Written-all vptr out (x ∷ left) e h = absurd (omega arith)

Written-failed : (vptr out left : List ℕ) → out ++ left ≡ vptr → Written vptr (negsuc 0) out
Written-failed vptr out left e = record { rest = left; split = e; counted = inl refl }

-- The first two parts of a result that is there.
abbrev Finished : List ℕ → Option (ℤ × List ℕ × List Turn) → Type 0
Finished vptr none = Unit
Finished vptr (some (r, out, turns)) = Written vptr r out

module _ (vptr : List ℕ) where
  writen_loop-Finished :
      (left out : List ℕ) (turns : List Turn)
      → out ++ left ≡ vptr
      → Finished vptr (writen_loop left out turns)
  unfolding writen_loop
  writen_loop-Finished left out [] e = elim (Bool-cases (length left == 0)) [
    | inl z ↦ rw z (Written-all vptr out left e ((==_iff (length left) 0).0 z))
    | inr z ↦ rw z tt
  ]
  writen_loop-Finished left out (fault x ∷ turns) e = elim (Bool-cases (length left == 0)) [
    | inl z ↦ rw z (Written-all vptr out left e ((==_iff (length left) 0).0 z))
    | inr z ↦ elim (Bool-cases (interrupted x)) [
      | inl i ↦ rw (z, i) (writen_loop-Finished left out turns e)
      | inr i ↦ rw (z, i) (Written-failed vptr out left e)
    ]
  ]
  writen_loop-Finished left out (give k ∷ turns) e = elim (Bool-cases (length left == 0)) [
    | inl z ↦ rw z (Written-all vptr out left e ((==_iff (length left) 0).0 z))
    | inr z ↦ elim (Bool-cases (k == 0)) [
      | inl i ↦ rw (z, i) (Written-failed vptr out left e)
      | inr i ↦
          rw (z, i)
            (writen_loop-Finished (drop k left) (out ++ take k left) turns
              (take-drop-append k out left vptr e))
    ]
  ]

-- Whatever the kernel answers: when Writen returns, it has handed over a beginning of the caller's
-- bytes, each once and in order; and it returns -1, or the number of bytes when all went.
pub writen-Written :
    (vptr : List ℕ) (turns : List Turn) {r : ℤ} {out : List ℕ} {turns' : List Turn}
    → writen vptr turns ≡ some (r, out, turns')
    → Written vptr r out
unfolding writen
writen-Written vptr turns e = rw e at (writen_loop-Finished vptr vptr [] turns refl)

writen_loop-total :
    (left out : List ℕ) (turns : List Turn)
    → All Serves turns
    → length left < served turns
    → (out' : List ℕ) × (turns' : List Turn) × (writen_loop left out turns
        ≡ some (pos (length out'), out', turns'))
unfolding writen_loop
writen_loop-total left out [] serves enough = absurd (omega arith)
writen_loop-total [] out (fault x ∷ turns) serves enough = (out, _, refl)
writen_loop-total [] out (give k ∷ turns) serves enough = (out, _, refl)
writen_loop-total (c ∷ left) out (fault x ∷ turns) serves enough =
    rw (suc-==-zero, serves.0) (writen_loop-total (c ∷ left) out turns serves.1 enough)
writen_loop-total (c ∷ left) out (give zero ∷ turns) serves enough = absurd (omega arith)
writen_loop-total (c ∷ left) out (give (suc k) ∷ turns) serves enough =
    rw (suc-==-zero, suc-==-zero)
      (writen_loop-total (drop k left) (out ++ (c ∷ take k left)) turns serves.1
        (omega (arith, length-drop k left)))

-- To a descriptor that serves, with more calls than bytes that are not interrupted, Writen writes
-- everything and returns the number of bytes.
pub writen_lem :
    (vptr : List ℕ) (turns : List Turn)
    → All Serves turns
    → length vptr < served turns
    → (turns' : List Turn) × (writen vptr turns ≡ some (pos (length vptr), vptr, turns'))
unfolding writen
writen_lem vptr turns serves enough =
    let (out, turns', e) = writen_loop-total vptr [] turns serves enough in
    let w : Written vptr (pos (length out)) out =
      rw e at (writen_loop-Finished vptr vptr [] turns refl) in
    let all : out ≡ vptr = elim (w.counted) [ inl x ↦ cc | inr x ↦ x.1 ] in
    (turns', e ∙ ap (λ r. some (pos (length r), r, turns')) all)
