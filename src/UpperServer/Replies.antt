-- ===== src/UpperServer/Replies.antt =====
-- What the servers that answer in capitals send, and what the parent of mutl-process.c keeps open.
use linux_c_study.Prelude.{
  ℕ, zero, suc, ◌+◌, ◌≤◌, ◌<◌, min, ◌≡◌, refl, sym, ap, ◌∙◌, inl, inr, true, none, some, List, [],
  ◌∷◌, ◌++◌, map, arith, ℕ_discrete, Sum-cases, length, take, drop, take-append-drop, length-drop,
  take-nil,
}
use linux_c_study.Kernel.{SysRet, failed, value, Turn, fault, give}
use linux_c_study.SelectServer.{toupper}
use linux_c_study.UpperServer.{
  Sent, bytes, minus_one, after, child, local_service, Parent, parent_round, parent_rounds,
}

-- The bytes of the calls, one after the other.
abbrev pub sent_bytes : List Sent → List ℕ
sent_bytes [] = []
sent_bytes (bytes bs ∷ calls) = bs ++ sent_bytes calls
sent_bytes (minus_one ∷ calls) = sent_bytes calls

-- No call fails, and each moves at least a byte if there is one.
abbrev pub Gives : List Turn → Type 0
Gives [] = Unit
Gives (fault e ∷ turns) = ⊥
Gives (give k ∷ turns) = (1 ≤ k) × Gives turns

pub map-append : (f : ℕ → ℕ) (xs ys : List ℕ) → map f (xs ++ ys) ≡ map f xs ++ map f ys
map-append f [] ys = refl
map-append f (x ∷ xs) ys = ap (λ zs. f x ∷ zs) (map-append f xs ys)

child-give :
    (k b : ℕ) (bs : List ℕ) (turns : List Turn)
    → child (b ∷ bs) (give (suc k) ∷ turns)
      ≡ after (bytes (map toupper (b ∷ take (min k 1023) bs))) (child (drop (min k 1023) bs) turns)
unfolding child
child-give k b bs turns =
    let z : min (suc k) 1024 ≡ suc (min k 1023) = omega arith in
    rw (z, child)
      (ap
        (λ n.
          after (bytes (map toupper (b ∷ take (min k 1023) bs))) (child (drop n (b ∷ bs)) turns))
        z)

-- mutl-process.c: a child whose reads do not fail, with more of them than there are bytes, comes to
-- its end, and has then written all that its client sent, in capitals and in order.
pub child-replies :
    (turns : List Turn) (pending : List ℕ)
    → Gives turns
    → length pending < length turns
    → (calls : List Sent) × (child pending turns ≡ some calls)
      × (sent_bytes calls ≡ map toupper pending)
unfolding child
child-replies [] pending g l = absurd (omega arith)
child-replies (fault e ∷ turns) pending g l = absurd g
child-replies (give k ∷ turns) [] g l = ([], rw (take-nil {A = ℕ} (min k 1024), child) refl, refl)
child-replies (give zero ∷ turns) (b ∷ bs) g l = absurd (omega (arith, g.0))
child-replies (give (suc k) ∷ turns) (b ∷ bs) g l =
    let m = min k 1023 in
    let r = child-replies turns (drop m bs) g.1 (omega (arith, length-drop m bs)) in
    (
      bytes (map toupper (b ∷ take m bs)) ∷ r.0,
      child-give k b bs turns ∙ ap (after (bytes (map toupper (b ∷ take m bs)))) r.1,
      ap (λ x. toupper b ∷ x)
          (ap (λ x. map toupper (take m bs) ++ x) r.2
            ∙ sym (map-append toupper (take m bs) (drop m bs))
            ∙ ap (map toupper) (take-append-drop m bs)),
    )

-- localService.c: as long as no read fails its loop does not end, also when the client has closed.
pub local_service-none :
    (turns : List Turn) (pending : List ℕ) → Gives turns → local_service pending turns ≡ none
unfolding local_service
local_service-none [] pending g = refl
local_service-none (fault e ∷ turns) pending g = absurd g
local_service-none (give k ∷ turns) pending g =
    rw (local_service-none turns (drop (min k 1024) pending) g.1) refl

parent_round_lem :
    (accepted forked : SysRet) (p : Parent) {p' : Parent}
    → parent_round accepted forked p ≡ inr p'
    → ((fd : ℕ) → p'.opened fd ≡ true → p.opened fd ≡ true)
      × (length p'.children ≡ suc (length p.children))
unfolding parent_round ℕ_discrete
parent_round_lem (failed e) forked p h = absurd (ground arith)
parent_round_lem (value afd) (failed e) p h = absurd (ground arith)
parent_round_lem (value afd) (value pid) p h = (λ fd o. ground arith, ground arith)

-- mutl-process.c: however many clients come, the parent has nothing open that was not open before
-- its loop, and has made a child for each of them, none of which it has waited for.
pub parent_rounds_lem :
    (rounds : List (SysRet × SysRet)) (p : Parent) {p' : Parent}
    → parent_rounds rounds p ≡ inr p'
    → ((fd : ℕ) → p'.opened fd ≡ true → p.opened fd ≡ true)
      × (length p'.children ≡ length rounds + length p.children)
unfolding parent_rounds
parent_rounds_lem [] p h = (λ fd o. ground arith, ground arith)
parent_rounds_lem ((accepted, forked) ∷ rounds) p {p'} h =
    elim (Sum-cases (parent_round accepted forked p)) [
      | inl (r, k) ↦ absurd (ground arith)
      | inr (q, k) ↦
          let rest = parent_rounds_lem rounds q {p' = p'} (ground arith) in
          let one = parent_round_lem accepted forked p k in
          (λ fd o. one.0 fd (rest.0 fd o), omega (arith, rest.1, one.1))
    ]
