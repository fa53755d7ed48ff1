-- ===== src/Wrap/Answered.antt =====
-- my_read over any answers of the kernel: that it returns, and that what comes after the answers that
-- it uses makes no difference to it.
use linux_c_study.Prelude.{
  ℕ, suc, ◌+◌, ◌≤◌, ◌≡◌, refl, ap, ◌∙◌, inl, inr, Option, none, some, List, [], ◌∷◌, ◌++◌, arith,
  ◌==◌, if◌then◌else◌, Bool-cases, Option-cases,
}
use linux_c_study.Kernel.{World, Turn, fault, give, Answer, error, got, interrupted}
use linux_c_study.Wrap.{Reader, CharResult, read, my_read, after_read, refilled, next_char}
use linux_c_study.Wrap.Buffer.{IsValid, Next, Next?, my_read-Next}

-- The calls that are not interrupted, whatever they answer.
abbrev pub answered : List Turn → ℕ
answered [] = 0
answered (fault e ∷ turns) = if interrupted e then answered turns else suc (answered turns)
answered (give k ∷ turns) = suc (answered turns)

read-answered :
    (n : ℕ) (pending : List ℕ) (turns : List Turn)
    → 1 ≤ answered turns
    → (a : Answer) × (w : World) × (read n pending turns ≡ some (a, w))
      × (answered turns ≤ answered w.turns + 1)
unfolding read
read-answered n pending [] h = absurd (omega arith)
read-answered n pending (fault x ∷ turns) h = elim (Bool-cases (interrupted x)) [
  | inl i ↦ rw i (read-answered n pending turns (rw i at h))
  | inr i ↦ rw i (error x, record { pending = pending; turns = turns }, refl, omega arith)
]
read-answered n pending (give k ∷ turns) h = (_, _, refl, omega arith)

-- my_read has returned, and used one call at most.
pub record Returned (r : Reader) (w : World) : Type 0 where
  pub char_result : CharResult
  pub reader : Reader
  pub world : World
  pub returned : my_read r w ≡ some (char_result, reader, world)
  pub next : Next r w (char_result, reader, world)
  pub fewer : answered w.turns ≤ answered world.turns + 1

Returned-of :
    (r : Reader) (w : World) (x : CharResult × Reader × World)
    → IsValid r
    → my_read r w ≡ some x
    → answered w.turns ≤ answered x.2.turns + 1
    → Returned r w
Returned-of r w x v e fewer = record {
  char_result = x.0;
  reader = x.1;
  world = x.2;
  returned = e;
  next = let t : Next? r w (some x) = rw e at (my_read-Next r w v) in t;
  fewer = fewer;
}

world-refilled : (r : Reader) (a : Answer) (w : World) → (refilled r a w).2 ≡ w
unfolding refilled next_char
world-refilled r (error e) w = refl
world-refilled r (got []) w = refl
world-refilled r (got (c ∷ cs)) w = refl

pub my_read-Returned : (r : Reader) (w : World) → IsValid r → 1 ≤ answered w.turns → Returned r w
unfolding my_read after_read next_char
my_read-Returned r w v h = elim (Bool-cases (r.read_cnt == 0)) [
  | inl z ↦
      let (a, w', e, fewer) = read-answered 100 w.pending w.turns h in
      Returned-of r w (refilled r a w') v (rw (z, e) refl) (rw (world-refilled r a w') fewer)
  | inr z ↦ Returned-of r w (next_char r w) v (rw z refl) (omega arith)
]

module _ (more : List Turn) where
  abbrev pub with_more : World → World
  with_more w = record w { turns = w.turns ++ more }

  abbrev read_more : Option (Answer × World) → Option (Answer × World)
  read_more none = none
  read_more (some (a, w)) = some (a, with_more w)

  abbrev pub char_more : Option (CharResult × Reader × World) → Option (CharResult × Reader × World)
  char_more none = none
  char_more (some (c, r, w)) = some (c, r, with_more w)

  read-with_more :
      (n : ℕ) (pending : List ℕ) (turns : List Turn) {x : Answer × World}
      → read n pending turns ≡ some x
      → read n pending (turns ++ more) ≡ read_more (some x)
  unfolding read
  read-with_more n pending [] e = absurd (ground arith)
  read-with_more n pending (fault f ∷ turns) e = elim (Bool-cases (interrupted f)) [
    | inl i ↦ rw i (read-with_more n pending turns (rw i at e))
    | inr i ↦ rw i (ap read_more (rw i at e))
  ]
  read-with_more n pending (give k ∷ turns) e = ap read_more e

  refilled-with_more :
      (r : Reader) (a : Answer) (w : World)
      → some (refilled r a (with_more w)) ≡ char_more (some (refilled r a w))
  unfolding refilled next_char
  refilled-with_more r (error e) w = refl
  refilled-with_more r (got []) w = refl
  refilled-with_more r (got (c ∷ cs)) w = refl

  -- my_read does not depend on the answers behind those that it uses.
  pub my_read-with_more :
      (r : Reader) (w : World) {x : CharResult × Reader × World}
      → my_read r w ≡ some x
      → my_read r (with_more w) ≡ char_more (some x)
  unfolding my_read after_read next_char
  my_read-with_more r w h = elim (Bool-cases (r.read_cnt == 0)) [
    | inl z ↦ elim (Option-cases (read 100 w.pending w.turns)) [
      | inl e ↦ absurd (ground arith)
      | inr ((a, w'), e) ↦
          rw (z, read-with_more 100 w.pending w.turns e)
            (refilled-with_more r a w' ∙ ap char_more (rw (z, e) at h))
    ]
    | inr z ↦ rw z (ap char_more (rw z at h))
  ]
