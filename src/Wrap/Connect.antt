-- ===== src/Wrap/Connect.antt =====
-- linux-network/wrap.c: the wrappers that end the process on an error, and tcp4bind.
use linux_c_study.Prelude.{
  ℕ, ◌+◌, ◌*◌, ◌/◌, ◌%◌, ◌<◌, ◌≡◌, refl, ap, ◌∙◌, Bool, true, false, Option, none, some, List, [],
  ◌∷◌, ◌++◌, map, arith, if◌then◌else◌,
}
use linux_c_study.Kernel.{Errno, eintr, econnaborted, SysRet, failed, value}

-- A function that returns a value, or ends the process with a status.
pub data Outcome {ℓ} (A : Type ℓ) : Type ℓ where
  returned : A → Outcome A
  exited : ℕ → Outcome A

infixl 5 ◌>>=◌
abbrev pub ◌>>=◌ {ℓ κ} : {A : Type ℓ} {B : Type κ} → Outcome A → (A → Outcome B) → Outcome B
returned a >>= f = f a
exited n >>= f = exited n

-- perr_exit: exit(-1), a status of 255.
pub perr_exit {ℓ} : {A : Type ℓ} → Outcome A
perr_exit = exited 255

-- Socket, Bind, Connect, Listen and Close, by what the system call returns.
unfoldable pub socket : SysRet → Outcome ℕ
unfolding perr_exit
socket (value n) = returned n
socket (failed e) = perr_exit

unfoldable pub bind : SysRet → Outcome ℕ
unfolding perr_exit
bind (value n) = returned n
bind (failed e) = perr_exit

unfoldable pub connect : SysRet → Outcome ℕ
unfolding perr_exit
connect (value n) = returned n
connect (failed e) = perr_exit

unfoldable pub listen : SysRet → Outcome ℕ
unfolding perr_exit
listen (value n) = returned n
listen (failed e) = perr_exit

unfoldable pub close : SysRet → Outcome ℕ
unfolding perr_exit
close (value n) = returned n
close (failed e) = perr_exit

-- errno == ECONNABORTED || errno == EINTR
abbrev retries : Errno → Bool
retries eintr = true
retries econnaborted = true
retries _ = false

-- Accept, on the answers of accept(2) in the order of the calls; `none`: it still waits.
unfoldable pub accept : List SysRet → Option (Outcome ℕ × List SysRet)
unfolding perr_exit
accept [] = none
accept (value fd ∷ rest) = some (returned fd, rest)
accept (failed e ∷ rest) =
    let again = accept rest in if retries e then again else some (perr_exit, rest)

-- struct sockaddr_in, with the two fields that are in network order as they lie in memory.
pub record SockAddr : Type 0 where
  pub sin_port : ℕ
  pub s_addr : ℕ

-- htons on a little-endian machine: the two bytes of a short, exchanged.
pub htons : ℕ → ℕ
htons p = p % 256 * 256 + p / 256 % 256

abbrev inaddr_any : ℕ
inaddr_any = 0

-- inet_pton(AF_INET, IP, …), where the address is given: `none` for a return of 0 or less.
unfoldable pub address : (List ℕ → Option ℕ) → Option (List ℕ) → Outcome ℕ
address inet_pton none = returned inaddr_any
address inet_pton (some ip) = elim (inet_pton ip) [ some a ↦ returned a | none ↦ exited 1 ]

-- tcp4bind: `sock` is what socket(2) answers, and `bound` what bind(2) answers to an address.
unfoldable pub tcp4bind :
    SysRet → (List ℕ → Option ℕ) → (SockAddr → SysRet) → ℕ → Option (List ℕ) → Outcome ℕ
tcp4bind sock inet_pton bound port ip = do
  lfd ← socket sock
  a ← address inet_pton ip
  n ← bind (bound (record { sin_port = htons port; s_addr = a }))
  returned lfd

-- Faults that are retried, one after another.
abbrev Retried : List Errno → Type 0
Retried [] = Unit
Retried (e ∷ es) = (retries e ≡ true) × Retried es

-- Accept goes on through aborted connections and interruptions, however many, to the first
-- connection, which it returns; at any other error the process ends.
pub accept_lem :
    (es : List Errno) (rest : List SysRet) (fd : ℕ) (e : Errno)
    → Retried es
    → retries e ≡ false
    → (accept (map failed es ++ (value fd ∷ rest)) ≡ some (returned fd, rest))
      × (accept (map failed es ++ (failed e ∷ rest)) ≡ some (exited 255, rest))
unfolding accept
accept_lem [] rest fd e h f = (refl, rw f)
accept_lem (x ∷ es) rest fd e h f =
    let (connected, ended) = accept_lem es rest fd e h.1 f in (rw (h.0) connected, rw (h.0) ended)

-- htons is its own inverse on the 16-bit numbers.
htons-htons : (p : ℕ) → p < 65536 → htons (htons p) ≡ p
unfolding htons
htons-htons p h = omega arith

>>=-eq-returned :
    {A B : Type 0} (m : Outcome A) (f : A → Outcome B) {b : B}
    → (m >>= f) ≡ returned b
    → (a : A) × (m ≡ returned a) × (f a ≡ returned b)
>>=-eq-returned (returned a) f h = (a, refl, h)
>>=-eq-returned (exited n) f h = cc

socket-eq-returned : (s : SysRet) {n : ℕ} → socket s ≡ returned n → s ≡ value n
unfolding socket
socket-eq-returned (value m) h = cc
socket-eq-returned (failed e) h = cc

bind-eq-returned : (s : SysRet) {n : ℕ} → bind s ≡ returned n → s ≡ value n
unfolding bind
bind-eq-returned (value m) h = cc
bind-eq-returned (failed e) h = cc

-- When tcp4bind returns, its value is the socket's descriptor; the socket was bound to the port,
-- and to the address that inet_pton reads in the text, or to any address if there is no text.
pub tcp4bind_lem :
    (sock : SysRet) (inet_pton : List ℕ → Option ℕ) (bound : SockAddr → SysRet) (port fd : ℕ)
    (ip : Option (List ℕ))
    → tcp4bind sock inet_pton bound port ip ≡ returned fd
    → (sock ≡ value fd)
      × (a : ℕ) × (address inet_pton ip ≡ returned a)
      × (n : ℕ) × (bound (record { sin_port = htons port; s_addr = a }) ≡ value n)
unfolding tcp4bind
tcp4bind_lem sock inet_pton bound port fd ip h =
    let (lfd, s, h1) = >>=-eq-returned (socket sock) _ h in
    let (a, p, h2) = >>=-eq-returned (address inet_pton ip) _ h1 in
    let (n, b, h3) =
      >>=-eq-returned (bind (bound (record { sin_port = htons port; s_addr = a }))) _ h2 in
    let e : lfd ≡ fd = cc in (socket-eq-returned sock s ∙ ap value e, a, p, n, bind-eq-returned _ b)
