-- ===== src/HelloServer/Echo.antt =====
-- What a client of hellow-libevent.c gets back.
use linux_c_study.Prelude.{
  ℕ, ◌≡◌, refl, sym, ap, ap₂, ◌∙◌, ◌≢◌, inr, Bool, true, false, Option, none, some, List, [], ◌∷◌,
  ◌++◌, map, append_assoc, arith, ℕ_discrete,
}
use mathlib.Core.Logic.{ite}
use linux_c_study.SelectServer.{toupper}
use linux_c_study.HelloServer.{
  Bufferevents, Action, opened, came, sent, freed, Server, put, listener_cb, conn_readcb,
  conn_writecb, conn_eventcb, signal_cb, Step, connects, readable, writable, event, interrupt,
  Reach, here, next, main, main-initial, initial,
}
use mathlib.Core.Path.{subst}

-- What has gone out on a descriptor, and what has come in on it, since it was last opened.
unfoldable pub echoed : ℕ → List Action → List ℕ
echoed fd [] = []
echoed fd (opened g ∷ log) = ite (ℕ_discrete g fd) [] (echoed fd log)
echoed fd (sent g bs ∷ log) = ite (ℕ_discrete g fd) (echoed fd log ++ bs) (echoed fd log)
echoed fd (came g bs ∷ log) = echoed fd log
echoed fd (freed g ∷ log) = echoed fd log

unfoldable pub received : ℕ → List Action → List ℕ
received fd [] = []
received fd (opened g ∷ log) = ite (ℕ_discrete g fd) [] (received fd log)
received fd (came g bs ∷ log) = ite (ℕ_discrete g fd) (received fd log ++ bs) (received fd log)
received fd (sent g bs ∷ log) = received fd log
received fd (freed g ∷ log) = received fd log

map-append : (f : ℕ → ℕ) (xs ys : List ℕ) → map f (xs ++ ys) ≡ map f xs ++ map f ys
map-append f [] ys = refl
map-append f (x ∷ xs) ys = ap (λ zs. f x ∷ zs) (map-append f xs ys)

module _ {ℓ} {A : Type ℓ} (fd g : ℕ) (a b : A) where
  pick_same : fd ≡ g → ite (ℕ_discrete fd g) a b ≡ a
  pick_same same = ground arith

  pick_other : fd ≢ g → ite (ℕ_discrete fd g) a b ≡ b
  pick_other other = ground arith

some-inj {ℓ} : {A : Type ℓ} {a b : A} → some a ≡ some b → a ≡ b
some-inj e = ground arith

for_some {ℓ} : {A : Type ℓ} (P : A → Type 0) {a : A} → P a → (b : A) → some a ≡ some b → P b
for_some P p b e = subst P (some-inj e) p

module _ (lib : Bufferevents) where
  open lib use {
    Bev, new, input, output, read, write, arrive, flush, input-new, output-new, read-input,
    read-output, write-input, write-output, arrive-input, arrive-output, flush-input, flush-output,
  }

  -- What a connection still owes: the answers in its output, and those to its input.
  abbrev pub owed : Bev → List ℕ
  owed b = output b ++ map toupper (input b)

  owed-conn_readcb : (b : Bev) → owed (conn_readcb lib b) ≡ owed b
  unfolding conn_readcb
  owed-conn_readcb b =
      let (buf, b') = read 1024 b in
      ap₂ ◌++◌
        (write-output (map toupper buf) b' ∙ ap (λ xs. xs ++ map toupper buf) (read-output 1024 b))
        (ap (map toupper) (write-input (map toupper buf) b'))
      ∙ append_assoc (output b) (map toupper buf) (map toupper (input b'))
      ∙ ap (λ xs. output b ++ xs)
          (sym (map-append toupper buf (input b')) ∙ ap (map toupper) (read-input 1024 b))

  owed-arrive : (bs : List ℕ) (b : Bev) → owed (arrive bs b) ≡ owed b ++ map toupper bs
  owed-arrive bs b =
      ap₂ ◌++◌ (arrive-output bs b)
        (ap (map toupper) (arrive-input bs b) ∙ map-append toupper (input b) bs)
      ∙ sym (append_assoc (output b) (map toupper (input b)) (map toupper bs))

  owed-flush : (k : ℕ) (b : Bev) → (flush k b).0 ++ owed ((flush k b).1) ≡ owed b
  owed-flush k b =
      sym
        (append_assoc (flush k b).0 (output ((flush k b).1)) (map toupper (input ((flush k b).1))))
      ∙ ap₂ ◌++◌ (flush-output k b) (ap (map toupper) (flush-input k b))

  -- The answers that have gone out and those still owed are those to all that has come in.
  abbrev Echoes : Server lib → Type 0
  Echoes s =
      (fd : ℕ) (b : Bev)
      → s.conn fd ≡ some b
      → echoed fd s.log ++ owed b ≡ map toupper (received fd s.log)

  -- A step that gives fd the bufferevent `new_bev`, whose log is right for it and the same for the
  -- other descriptors.
  put-Echoes :
      (fd : ℕ) (new_bev : Option Bev) (log : List Action) (s : Server lib)
      → Echoes s
      → ((b : Bev) → new_bev ≡ some b → echoed fd log ++ owed b ≡ map toupper (received fd log))
      → ((g : ℕ) → fd ≢ g → echoed g log ≡ echoed g s.log)
      → ((g : ℕ) → fd ≢ g → received g log ≡ received g s.log)
      → Echoes (record s { conn = put lib s.conn fd new_bev; log = log })
  put-Echoes fd new_bev log s h own sent_other came_other g b e = elim (ℕ_discrete fd g) [
    | yes same ↦
        subst (λ k. echoed k log ++ owed b ≡ map toupper (received k log)) same
          (own b (sym (pick_same fd g new_bev (s.conn g) same) ∙ e))
    | no other ↦
        ap (λ xs. xs ++ owed b) (sent_other g other)
        ∙ h g b (sym (pick_other fd g new_bev (s.conn g) other) ∙ e)
        ∙ sym (ap (map toupper) (came_other g other))
  ]

  connects-Echoes :
      (fd : ℕ) (created : Bool) (s : Server lib) → Echoes s → Echoes (listener_cb lib fd created s)
  unfolding listener_cb echoed received
  connects-Echoes fd false s h = h
  connects-Echoes fd true s h =
      put-Echoes fd (some new) (opened fd ∷ s.log) s h
        (for_some
          (λ b.
            echoed fd (opened fd ∷ s.log) ++ owed b ≡ map toupper (received fd (opened fd ∷ s.log)))
          (ap₂ ◌++◌ (pick_same fd fd [] (echoed fd s.log) refl)
              (ap₂ ◌++◌ output-new (ap (map toupper) input-new))
            ∙ sym (ap (map toupper) (pick_same fd fd [] (received fd s.log) refl))))
        (λ g other. pick_other fd g [] (echoed g s.log) other)
        (λ g other. pick_other fd g [] (received g s.log) other)

  readable-Echoes :
      (fd : ℕ) (bev : Bev) (bs : List ℕ) (s : Server lib)
      → s.conn fd ≡ some bev
      → Echoes s
      → Echoes (record s {
        conn = put lib s.conn fd (some (conn_readcb lib (arrive bs bev)));
        log = came fd bs ∷ s.log;
      })
  unfolding echoed received
  readable-Echoes fd bev bs s c h =
      put-Echoes fd (some (conn_readcb lib (arrive bs bev))) (came fd bs ∷ s.log) s h
        (for_some (λ b. echoed fd s.log ++ owed b ≡ map toupper (received fd (came fd bs ∷ s.log)))
          (ap (λ xs. echoed fd s.log ++ xs) (owed-conn_readcb (arrive bs bev) ∙ owed-arrive bs bev)
            ∙ sym (append_assoc (echoed fd s.log) (owed bev) (map toupper bs))
            ∙ ap (λ xs. xs ++ map toupper bs) (h fd bev c)
            ∙ sym (map-append toupper (received fd s.log) bs)
            ∙ sym (
                ap (map toupper)
                  (pick_same fd fd (received fd s.log ++ bs) (received fd s.log) refl))))
        (λ g other. refl)
        (λ g other. pick_other fd g (received g s.log ++ bs) (received g s.log) other)

  writable-Echoes :
      (fd : ℕ) (bev : Bev) (k : ℕ) (s : Server lib)
      → s.conn fd ≡ some bev
      → Echoes s
      → Echoes (record s {
        conn = put lib s.conn fd (some (conn_writecb lib (flush k bev).1));
        log = sent fd (flush k bev).0 ∷ s.log;
      })
  unfolding echoed received conn_writecb
  writable-Echoes fd bev k s c h =
      put-Echoes fd (some ((flush k bev).1)) (sent fd (flush k bev).0 ∷ s.log) s h
        (for_some
          (λ b.
            echoed fd (sent fd (flush k bev).0 ∷ s.log) ++ owed b ≡ map toupper (received fd s.log))
          (ap (λ xs. xs ++ owed ((flush k bev).1))
              (pick_same fd fd (echoed fd s.log ++ (flush k bev).0) (echoed fd s.log) refl)
            ∙ append_assoc (echoed fd s.log) (flush k bev).0 (owed ((flush k bev).1))
            ∙ ap (λ xs. echoed fd s.log ++ xs) (owed-flush k bev)
            ∙ h fd bev c))
        (λ g other. pick_other fd g (echoed g s.log ++ (flush k bev).0) (echoed g s.log) other)
        (λ g other. refl)

  event-Echoes : (fd : ℕ) (s : Server lib) → Echoes s → Echoes (conn_eventcb lib fd s)
  unfolding echoed received conn_eventcb
  event-Echoes fd s h =
      put-Echoes fd none (freed fd ∷ s.log) s h (λ b e. absurd (ground arith)) (λ g other. refl)
        (λ g other. refl)

  Step-Echoes : {s t : Server lib} → Step lib s t → Echoes s → Echoes t
  unfolding signal_cb
  Step-Echoes {s} (connects fd created r c) h = connects-Echoes fd created s h
  Step-Echoes {s} (readable fd bev bs r c) h = readable-Echoes fd bev bs s c h
  Step-Echoes {s} (writable fd bev k r c) h = writable-Echoes fd bev k s c h
  Step-Echoes {s} (event fd bev r c) h = event-Echoes fd s h
  Step-Echoes (interrupt r) h = h

  Reach-Echoes : {s t : Server lib} → Reach lib s t → Echoes s → Echoes t
  Reach-Echoes here h = h
  Reach-Echoes (next r st) h = Step-Echoes st (Reach-Echoes r h)

  initial-Echoes : Echoes (initial lib)
  initial-Echoes fd b e = absurd (ground arith)

  -- hellow-libevent.c, in any order of what happens on the sockets: on each open connection, what
  -- libevent has sent since it was opened, then what waits in its output, then the capitals of what
  -- conn_readcb has not yet read, are all that has come in on it, in capitals and in order. Nothing of
  -- another connection gets in between, and nothing is lost.
  pub Reach-echoed :
      (base listener signal_event add : Bool) {s t : Server lib} (fd : ℕ) (bev : Bev)
      → main lib base listener signal_event add ≡ inr s
      → Reach lib s t
      → t.conn fd ≡ some bev
      → echoed fd t.log ++ (output bev ++ map toupper (input bev)) ≡ map toupper (received fd t.log)
  Reach-echoed base listener signal_event add {s} {t} fd bev m r c =
      Reach-Echoes r
        (subst Echoes (main-initial lib base listener signal_event add {s = s} m) initial-Echoes) fd
        bev c
