-- ===== src/Wrap/Progress.antt =====
-- my_read on a stream that serves: it returns the next character, or the end.
use linux_c_study.Prelude.{
  ℕ, zero, suc, ◌+◌, ◌-◌, ◌≤◌, ◌≡◌, sym, ap, ◌∙◌, inl, inr, true, false, some, List, [], ◌∷◌, ◌++◌,
  arith, ◌==◌, ==_iff, Bool-cases, positive, length, get_or, take, drop, take-nil,
}
use linux_c_study.Kernel.{World, got, Serves, served}
use linux_c_study.Prelude.Bytes.{All}
use linux_c_study.Wrap.{read, Reader, char, finished, next_char, refilled, after_read, my_read}
use linux_c_study.Wrap.Buffer.{served-Read, IsValid, unread, take-drop-suc, Next?, my_read-Next}

-- A call that has returned the character `c` and left the stream `s`.
pub record GotChar (c : ℕ) (s : List ℕ) (r : Reader) (w : World) : Type 0 where
  pub reader : Reader
  pub world : World
  pub returned : my_read r w ≡ some (char c, reader, world)
  pub valid : IsValid reader
  pub left : unread reader world ≡ s
  pub serves : All Serves world.turns
  pub fewer : served w.turns ≤ served world.turns + 1

GotChar-next :
    (c c' : ℕ) (s : List ℕ) (r r' : Reader) (w w' : World)
    → IsValid r
    → unread r w ≡ c ∷ s
    → my_read r w ≡ some (char c', r', w')
    → All Serves w'.turns
    → served w.turns ≤ served w'.turns + 1
    → GotChar c s r w
GotChar-next c c' s r r' w w' v e call sv fw =
    let (v', step) =
      let t : Next? r w (some (char c', r', w')) = rw call at (my_read-Next r w v) in t in
    record {
      reader = r';
      world = w';
      returned = call ∙ ap (λ x. some (char x, r', w')) (cc);
      valid = v';
      left = cc;
      serves = sv;
      fewer = fw;
    }

my_read_buffered :
    (r : Reader) (w : World)
    → (r.read_cnt == 0) ≡ false
    → my_read r w
      ≡ some (
        char (get_or r.read_buf r.read_ptr 0),
        record r { read_ptr = r.read_ptr + 1; read_cnt = r.read_cnt - 1 },
        w,
      )
unfolding my_read next_char
my_read_buffered r w z = rw z

my_read_refilled :
    (r : Reader) (w w' : World) (c : ℕ) (cs : List ℕ)
    → (r.read_cnt == 0) ≡ true
    → read 100 w.pending w.turns ≡ some (got (c ∷ cs), w')
    → my_read r w
      ≡ some (
        char c,
        record { read_buf = c ∷ cs; read_ptr = 0 + 1; read_cnt = length (c ∷ cs) - 1 },
        w',
      )
unfolding my_read next_char refilled after_read
my_read_refilled r w w' c cs z e = rw (z, e)

unread-empty : (r : Reader) (w : World) → (r.read_cnt == 0) ≡ true → unread r w ≡ w.pending
unfolding unread
unread-empty r w z = rw ((==_iff r.read_cnt 0).0 z)

-- A read that takes bytes of a stream that goes on with `c` takes `c` first.
first_byte :
    (r : Reader) (w : World) (c : ℕ) (s : List ℕ)
    → (r.read_cnt == 0) ≡ true
    → unread r w ≡ c ∷ s
    → (n : ℕ) → 1 ≤ n
    → take n w.pending ≡ c ∷ take (n - 1) s
first_byte r w c s z e zero h = absurd (omega arith)
first_byte r w c s z e (suc n) h =
    rw (sym (unread-empty r w z) ∙ e) (ap (λ k. c ∷ take k s) (omega arith))

-- On a stream that goes on with `c`, with a call to come that is not interrupted, my_read returns
-- `c`.
pub my_read-GotChar :
    (r : Reader) (w : World) (c : ℕ) (s : List ℕ)
    → IsValid r
    → All Serves w.turns
    → 1 ≤ served w.turns
    → unread r w ≡ c ∷ s
    → GotChar c s r w
my_read-GotChar r w c s v sv h e = elim (Bool-cases (r.read_cnt == 0)) [
  | inl z ↦
      let p = served-Read 100 w.pending w.turns (omega arith) sv h in
      GotChar-next c c s r _ w p.world v e
        (my_read_refilled r w p.world c (take (p.size - 1) s) z (
          p.returned
          ∙ ap (λ bs. some (got bs, p.world)) (first_byte r w c s z e p.size p.some_bytes)))
        p.serves p.fewer
  | inr z ↦
      GotChar-next c (get_or r.read_buf r.read_ptr 0) s r _ w w v e (my_read_buffered r w z) sv
        (omega arith)
]

-- A call at the end of the stream.
pub record AtEnd (r : Reader) (w : World) : Type 0 where
  pub reader : Reader
  pub world : World
  pub returned : my_read r w ≡ some (finished, reader, world)
  pub valid : IsValid reader
  pub left : unread reader world ≡ []
  pub serves : All Serves world.turns
  pub fewer : served w.turns ≤ served world.turns + 1

unread-nil : (r : Reader) (w : World) → IsValid r → unread r w ≡ [] → (r.read_cnt == 0) ≡ true
unfolding unread
unread-nil r w v e = elim (Bool-cases (r.read_cnt == 0)) [
  | inl z ↦ z
  | inr z ↦
      let n : r.read_cnt ≡ suc (r.read_cnt - 1) = omega (arith, positive r.read_cnt z) in
      let t : take r.read_cnt (drop r.read_ptr r.read_buf)
          ≡ get_or r.read_buf r.read_ptr 0
            ∷ take (r.read_cnt - 1) (drop (suc r.read_ptr) r.read_buf) =
        ap (λ k. take k (drop r.read_ptr r.read_buf)) n
        ∙ take-drop-suc r.read_buf r.read_ptr (r.read_cnt - 1) (omega arith) in
      absurd (omega (arith, ap length e, ap length (ap (λ l. l ++ w.pending) t)))
]

my_read_empty :
    (r : Reader) (w w' : World)
    → (r.read_cnt == 0) ≡ true
    → read 100 w.pending w.turns ≡ some (got [], w')
    → my_read r w ≡ some (finished, record r { read_cnt = 0 }, w')
unfolding my_read refilled after_read
my_read_empty r w w' z e = rw (z, e)

-- At the end of the stream, with a call to come that is not interrupted, my_read returns 0.
pub my_read-AtEnd :
    (r : Reader) (w : World)
    → IsValid r
    → All Serves w.turns
    → 1 ≤ served w.turns
    → unread r w ≡ []
    → AtEnd r w
my_read-AtEnd r w v sv h e =
    let z = unread-nil r w v e in
    let none_left : w.pending ≡ [] = sym (unread-empty r w z) ∙ e in
    let p = served-Read 100 w.pending w.turns (omega arith) sv h in
    let nothing : take p.size w.pending ≡ [] = ap (take p.size) none_left ∙ take-nil p.size in
    let call =
      my_read_empty r w p.world z (p.returned ∙ ap (λ bs. some (got bs, p.world)) nothing) in
    let t : Next? r w (some (finished, record r { read_cnt = 0 }, p.world)) =
      rw call at (my_read-Next r w v) in
    record {
      reader = record r { read_cnt = 0 };
      world = p.world;
      returned = call;
      valid = t.0;
      left = t.1 ∙ e;
      serves = p.serves;
      fewer = p.fewer;
    }
