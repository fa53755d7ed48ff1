-- ===== src/NodeList.antt =====
-- A linked list of NODEs in memory, as linux08/thread_cond.c and thread_sem.c build it: what the list
-- at an address holds, and which writes leave that as it is.
use linux_c_study.Prelude.{
  ℕ, ◌≡◌, refl, ap, ◌∙◌, ◌≢◌, Bool, false, ◌||◌, Option, none, some, List, [], ◌∷◌, arith,
  ℕ_discrete, ◌==◌,
}
use mathlib.Core.Logic.{ite}
use mathlib.Core.Path.{subst}

-- struct node
pub record Node : Type 0 where
  pub data_ : ℕ
  pub next : Option ℕ

-- `none`: the address is not allocated.
abbrev pub Heap : Type 0
Heap = ℕ → Option Node

abbrev pub put {ℓ} : {A : Type ℓ} → (ℕ → A) → ℕ → A → ℕ → A
put f i a j = ite (ℕ_discrete i j) a (f j)

pub put-same : {A : Type 0} (f : ℕ → A) (i : ℕ) (a : A) → put f i a i ≡ a
put-same f i a = ground arith

pub put-other : {A : Type 0} (f : ℕ → A) (i j : ℕ) (a : A) → i ≢ j → put f i a j ≡ f j
put-other f i j a ne = ground arith

abbrev pub has : ℕ → List ℕ → Bool
has a [] = false
has a (p ∷ ps) = (p == a) || has a ps

-- From `head` the pointers lead over the distinct addresses of the first list, which hold the
-- values of the second.
pub data Holds (h : Heap) : Option ℕ → List ℕ → List ℕ → Type 0 where
  nil : Holds h none [] []
  cons :
      {p : ℕ} {n : Node} {ps vs : List ℕ}
      → h p ≡ some n
      → has p ps ≡ false
      → Holds h n.next ps vs
      → Holds h (some p) (p ∷ ps) (n.data_ ∷ vs)

pub put-Holds :
    (h : Heap) (a : ℕ) (o : Option Node) {head : Option ℕ} {ps vs : List ℕ}
    → has a ps ≡ false
    → Holds h head ps vs
    → Holds (put h a o) head ps vs
put-Holds h a o out nil = nil
put-Holds h a o out (cons {p = p} e apart rest) =
    cons (put-other h a p o (ground arith) ∙ e) apart (put-Holds h a o (ground arith) rest)

pub has-not_of_free :
    (h : Heap) (a : ℕ) {head : Option ℕ} {ps vs : List ℕ}
    → h a ≡ none
    → Holds h head ps vs
    → has a ps ≡ false
has-not_of_free h a free nil = refl
has-not_of_free h a free (cons {p = p} e apart rest) = ground (arith, has-not_of_free h a free rest)

-- The first node of a list, and what is behind it.
pub record First (h : Heap) (p : ℕ) (n : Node) (ps vs : List ℕ) : Type 0 where
  pub rest : List ℕ
  pub values : List ℕ
  pub addresses : ps ≡ p ∷ rest
  pub split : vs ≡ n.data_ ∷ values
  pub out : has p rest ≡ false
  pub holds : Holds h n.next rest values

pub Holds-First :
    (h : Heap) (p : ℕ) (n : Node) {head : Option ℕ} {ps vs : List ℕ}
    → Holds h head ps vs
    → head ≡ some p
    → h p ≡ some n
    → First h p n ps vs
Holds-First h p n nil e k = absurd (ground arith)
Holds-First h p n (cons {p = q} {n = m} {ps = ps} {vs = vs} f apart rest) e k =
    let a : q ≡ p = ground arith in
    let b : m ≡ n = ground arith in
    record {
      rest = ps;
      values = vs;
      addresses = ap (λ x. x ∷ ps) a;
      split = ap (λ x. x.data_ ∷ vs) b;
      out = subst (λ x. has x ps ≡ false) a apart;
      holds = subst (λ x. Holds h x.next ps vs) b rest;
    }

pub Holds-some :
    (h : Heap) (p : ℕ) {head : Option ℕ} {ps vs : List ℕ}
    → Holds h head ps vs
    → head ≡ some p
    → (n : Node) × (h p ≡ some n)
Holds-some h p nil e = absurd (ground arith)
Holds-some h p (cons {p = q} {n = m} f apart rest) e = (m, ground arith)
