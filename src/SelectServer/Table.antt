-- ===== src/SelectServer/Table.antt =====
-- The table and the descriptor set agree, and a ready client is always found in the table.
use linux_c_study.Prelude.{
  ℕ, ◌+◌, ◌-◌, ◌≤◌, ◌<◌, ◌≡◌, refl, sym, ap, ◌∙◌, ◌⊎◌, true, false, not, some, List, [], ◌∷◌, arith,
  ◌==◌,
}
use linux_c_study.Kernel.{Answer, error, got}
use linux_c_study.Search.{first_from-First, last_from-eq}
use linux_c_study.SelectServer.{
  size, Action, Server, getifno, get_ifnoby_fd, accept_client, answer_client,
}

-- Entry i is for descriptor ftd + 1 + i, whenever it is used; it is in use exactly when that
-- descriptor is in the set; and the set has no other descriptors but ftd.
pub record Aligned (s : Server) : Type 0 where
  pub own_fd : (i : ℕ) → i < size → (s.ifno i).flag ≡ true → (s.ifno i).fd ≡ s.ftd + 1 + i
  pub old_fd : (i : ℕ) → i < size → ((s.ifno i).fd ≡ 0) ⊎ ((s.ifno i).fd ≡ s.ftd + 1 + i)
  pub in_set : (i : ℕ) → i < size → s.set (s.ftd + 1 + i) ≡ (s.ifno i).flag
  pub range : (fd : ℕ) → s.set fd ≡ true → (s.ftd ≤ fd) × (fd ≤ s.ftd + size)
  pub highest : (fd : ℕ) → s.set fd ≡ true → fd ≤ s.maxftd

-- accept returns the lowest descriptor that is not open; those from ftd on are open when they are in
-- the set.
pub record Lowest (s : Server) (cfd : ℕ) : Type 0 where
  pub above : s.ftd < cfd
  pub unused : s.set cfd ≡ false
  pub taken : (fd : ℕ) → s.ftd < fd → fd < cfd → s.set fd ≡ true

-- A client that is in the set is found, in its own entry.
pub get_ifnoby_fd-Aligned :
    (s : Server) (k : ℕ)
    → Aligned s
    → k < size
    → s.set (s.ftd + 1 + k) ≡ true
    → get_ifnoby_fd s.ifno size (s.ftd + 1 + k) ≡ some k
unfolding get_ifnoby_fd
get_ifnoby_fd-Aligned s k v lt on =
    last_from-eq (λ i. (s.ifno i).fd == s.ftd + 1 + k) size 0 k
      (ground (arith, v.own_fd k lt (cc (v.in_set k lt, on)))) (omega arith) (omega arith)
      (λ i a b ne. ground (arith, v.old_fd i))

-- What serving one client leaves.
pub record Answered (s : Server) (k : ℕ) (s' : Server) : Type 0 where
  pub valid : Aligned s'
  pub same_ftd : s'.ftd ≡ s.ftd
  pub others : (fd : ℕ) → s.ftd + 1 + k < fd → s'.set fd ≡ s.set fd

logged-Answered :
    (s : Server) (k : ℕ) (log : List Action) → Aligned s → Answered s k (record s { log = log })
logged-Answered s k log v = record {
  valid = record {
    own_fd = v.own_fd;
    old_fd = v.old_fd;
    in_set = v.in_set;
    range = v.range;
    highest = v.highest;
  };
  same_ftd = refl;
  others = λ fd h. refl;
}

pub answer_client-Answered :
    (s : Server) (k : ℕ) (a : Answer)
    → Aligned s
    → k < size
    → Answered s k (answer_client k (s.ftd + 1 + k) a s)
unfolding answer_client
answer_client-Answered s k (got (b ∷ bs)) v lt = logged-Answered s k _ v
answer_client-Answered s k (error e) v lt = logged-Answered s k _ v
answer_client-Answered s k (got []) v lt = record {
  valid = record {
    own_fd = λ i l h. ground (arith, v.own_fd i);
    old_fd = λ i l. ground (arith, v.old_fd i);
    in_set = λ i l. ground (arith, v.in_set i);
    range = λ fd h. ground (arith, v.range fd);
    highest = λ fd h. ground (arith, v.highest fd);
  };
  same_ftd = refl;
  others = λ fd h. ground arith;
}

-- The lowest free descriptor and the first free entry belong together.
Lowest-own :
    (s : Server) (index cfd : ℕ)
    → Aligned s
    → Lowest s cfd
    → getifno s.ifno size ≡ some index
    → (cfd ≡ s.ftd + 1 + index) × (index < size)
unfolding getifno
Lowest-own s index cfd v low e =
    let first = first_from-First (λ i. not (s.ifno i).flag) size 0 {j = index} e in
    let below : index < size = omega (arith, first.below) in
    let c : ℕ = cfd - (s.ftd + 1) in
    let place : cfd ≡ s.ftd + 1 + c = omega (arith, low.above) in
    let not_set : s.set (s.ftd + 1 + index) ≡ false =
      v.in_set index below ∙ ground (arith, first.passes) in
    let free : s.set (s.ftd + 1 + c) ≡ false = ap s.set (sym place) ∙ low.unused in
    (
      ground
          (arith, place, free, not_set, first.before c, v.in_set c, low.taken (s.ftd + 1 + index)),
      below,
    )

pub accept_client-Aligned :
    (s : Server) (index cfd : ℕ)
    → Aligned s
    → Lowest s cfd
    → getifno s.ifno size ≡ some index
    → Aligned (accept_client index cfd s)
unfolding getifno accept_client
accept_client-Aligned s index cfd v low e =
    let (own, below) = Lowest-own s index cfd v low e in
    record {
      own_fd = λ i l h. ground (arith, v.own_fd i);
      old_fd = λ i l. ground (arith, v.old_fd i);
      in_set = λ i l. ground (arith, v.in_set i);
      range = λ fd h. ground (arith, v.range fd);
      highest = λ fd h. ground (arith, v.highest fd);
    }
