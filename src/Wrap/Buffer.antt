-- ===== src/Wrap/Buffer.antt =====
-- Read and my_read: the buffer of my_read hands on the stream of the peer, a byte at a time.
use linux_c_study.Prelude.{
  ℕ, zero, suc, ◌+◌, ◌-◌, ◌≤◌, min, ◌≡◌, refl, sym, ap, ap₂, ◌∙◌, inl, inr, Option, none, some,
  List, [], ◌∷◌, ◌++◌, arith, ◌==◌, ==_iff, Bool-cases, positive, length, get_or, take, drop,
  take-append-drop, take-all,
}
use linux_c_study.Kernel.{Turn, fault, give, World, Answer, error, got, interrupted, Serves, served}
use linux_c_study.Prelude.Bytes.{All}
use linux_c_study.Wrap.{
  read, Reader, CharResult, char, finished, broken, next_char, refilled, after_read, my_read,
}

-- What a read leaves pending, if it returns.
abbrev Received : List ℕ → Option (Answer × World) → Type 0
Received pending none = Unit
Received pending (some (error e, w)) = w.pending ≡ pending
Received pending (some (got bs, w)) = bs ++ w.pending ≡ pending

read-Received :
    (n : ℕ) (pending : List ℕ) (turns : List Turn) → Received pending (read n pending turns)
unfolding read
read-Received n pending [] = tt
read-Received n pending (fault x ∷ turns) = elim (Bool-cases (interrupted x)) [
  | inl i ↦ rw i (read-Received n pending turns)
  | inr i ↦ rw i refl
]
read-Received n pending (give k ∷ turns) = take-append-drop (min k n) pending

-- A read that is served takes at least one byte, if one is pending.
pub record Read (n : ℕ) (pending : List ℕ) (turns : List Turn) : Type 0 where
  pub size : ℕ
  pub world : World
  pub some_bytes : 1 ≤ size
  pub returned : read n pending turns ≡ some (got (take size pending), world)
  pub left : world.pending ≡ drop size pending
  pub serves : All Serves world.turns
  pub fewer : served turns ≤ served world.turns + 1

pub served-Read :
    (n : ℕ) (pending : List ℕ) (turns : List Turn)
    → 1 ≤ n
    → All Serves turns
    → 1 ≤ served turns
    → Read n pending turns
unfolding read
served-Read n pending [] pos s h = absurd (omega arith)
served-Read n pending (fault x ∷ turns) pos s h =
    let r = served-Read n pending turns pos s.1 h in
    record {
      size = r.size;
      world = r.world;
      some_bytes = r.some_bytes;
      returned = rw (s.0) r.returned;
      left = r.left;
      serves = r.serves;
      fewer = r.fewer;
    }
served-Read n pending (give k ∷ turns) pos s h = record {
  size = min k n;
  world = _;
  some_bytes = omega arith;
  returned = refl;
  left = refl;
  serves = s.1;
  fewer = omega arith;
}

-- The characters in the buffer that read_cnt counts lie inside it.
abbrev pub IsValid : Reader → Type 0
IsValid r = r.read_ptr + r.read_cnt ≤ length r.read_buf

-- What is still to come: the rest of the buffer, then what is pending.
unfoldable pub unread : Reader → World → List ℕ
unread r w = take r.read_cnt (drop r.read_ptr r.read_buf) ++ w.pending

-- The effect of one call on the bytes that are still to come.
abbrev pub Effect : CharResult → List ℕ → List ℕ → Type 0
Effect (char c) before after = before ≡ c ∷ after
Effect finished before after = after ≡ before
Effect broken before after = after ≡ before

pub take-drop-suc :
    (buf : List ℕ) (p n : ℕ)
    → p + suc n ≤ length buf
    → take (suc n) (drop p buf) ≡ get_or buf p 0 ∷ take n (drop (suc p) buf)
take-drop-suc [] p n h = absurd (omega arith)
take-drop-suc (x ∷ buf) zero n h = refl
take-drop-suc (x ∷ buf) (suc p) n h = take-drop-suc buf p n (omega arith)

abbrev pub Next : Reader → World → CharResult × Reader × World → Type 0
Next r w (c, r', w') = IsValid r' × Effect c (unread r w) (unread r' w')

next_char-Next :
    (r : Reader) (w : World) (n : ℕ) → r.read_cnt ≡ suc n → IsValid r → Next r w (next_char r w)
unfolding next_char unread
next_char-Next r w n e v = (
  omega arith,
  ap (λ k. take k (drop r.read_ptr r.read_buf) ++ w.pending) e
      ∙ ap (λ l. l ++ w.pending) (take-drop-suc r.read_buf r.read_ptr n (omega arith))
      ∙ ap₂ (λ k p. get_or r.read_buf r.read_ptr 0 ∷ (take k (drop p r.read_buf) ++ w.pending))
          {u = suc r.read_ptr} {v = r.read_ptr + 1} (omega arith) (omega arith),
)

abbrev pub Next? : Reader → World → Option (CharResult × Reader × World) → Type 0
Next? r w none = Unit
Next? r w (some x) = Next r w x

refilled-Next :
    (r : Reader) (w w' : World) (a : Answer)
    → r.read_cnt ≡ 0
    → IsValid r
    → Received w.pending (some (a, w'))
    → Next r w (refilled r a w')
unfolding refilled unread next_char
refilled-Next r w w' (error x) e v h = (omega arith, rw (e, h))
refilled-Next r w w' (got []) e v h = (omega arith, rw (e, h))
refilled-Next r w w' (got (c ∷ cs)) e v h =
    let fresh : Reader = record { read_buf = c ∷ cs; read_ptr = 0; read_cnt = length (c ∷ cs) } in
    let (v', step) = next_char-Next fresh w' (length cs) refl (omega arith) in
    (
      v',
      rw e (
          sym h
          ∙ ap (λ l. l ++ w'.pending) (sym (take-all (length (c ∷ cs)) (c ∷ cs) (omega arith)))
          ∙ step),
    )

after_read-Next :
    (r : Reader) (w : World) (o : Option (Answer × World))
    → r.read_cnt ≡ 0
    → IsValid r
    → Received w.pending o
    → Next? r w (after_read r o)
unfolding after_read
after_read-Next r w none e v h = tt
after_read-Next r w (some (a, w')) e v h = refilled-Next r w w' a e v h

-- Whatever the kernel answers: a character that my_read returns is the next of the stream and only
-- it is used up; a return of 0 or -1 uses up nothing; and the buffer is never read out of range.
pub my_read-Next : (r : Reader) (w : World) → IsValid r → Next? r w (my_read r w)
unfolding my_read
my_read-Next r w v = elim (Bool-cases (r.read_cnt == 0)) [
  | inl z ↦ rw z (
      after_read-Next r w (read 100 w.pending w.turns) ((==_iff r.read_cnt 0).0 z) v
        (read-Received 100 w.pending w.turns))
  | inr z ↦ rw z (next_char-Next r w (r.read_cnt - 1) (omega (arith, positive r.read_cnt z)) v)
]
