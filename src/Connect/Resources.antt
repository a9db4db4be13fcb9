-- ===== src/Connect/Resources.antt =====
-- coremodel.c: what `coremodel_connect` leaves behind, on each of its exits.
use coremodel.Base.{
  ℕ, ◌≡◌, ◌≢◌, refl, ap, ◌∙◌, ◌&&◌, Bool, true, false, List, ◌∷◌, Option, none, some, arith, ◌==◌,
  ℤ, pos, negsuc, Bool-cases, Option-cases, inl, inr, ◌⊎◌, subst,
}
use coremodel.Connect.{
  Try, good, bad, Host, Held, Conn, coremodel_init, close, ebadf, enomem, enoent, einval, Outcome,
  err_mutex, err_pipe, err_socket, split_target, port_of, connect_socket, connect_target, chosen,
  connect_pipe, coremodel_connect,
}

abbrev pub is_good : {A : Type 0} → Try A → Bool
is_good (good a) = true
is_good (bad e) = false

-- Every call that the code makes succeeds.
abbrev pub socket_good : Host → ℕ → ℕ → Bool
socket_good host addr port =
    is_good host.socket && (is_good (host.connect addr port) && is_good host.sock_nonblock)

abbrev pub resolved_good : Host → ℕ → Option ℕ → Bool
resolved_good host port none = false
resolved_good host port (some addr) = socket_good host addr port

abbrev pub target_good : Host → Option (List ℕ) → Bool
target_good host none = false
target_good host (some t) =
    host.copy
    && resolved_good host (port_of host (split_target t).1) (host.gethostbyname (split_target t).0)

abbrev pub all_good : Host → Option (List ℕ) → Bool
all_good host target =
    is_good host.pipe
    && (is_good host.wake_nonblock && target_good host (chosen target host.coremodel_vm))

-- The two ends that pipe(2) gives are different.
abbrev pub Differ : Try (ℕ × ℕ) → Type 0
Differ (good (r, w)) = r ≢ w
Differ (bad e) = Unit {0}

abbrev pub holding : List ℕ → ℕ → Bool → Bool → Bool → Held
holding fds e cm strp mutex = record {
  open_fds = fds;
  errno = e;
  cm_held = cm;
  strp_held = strp;
  mutex_held = mutex;
}

abbrev pub conn_of : ℤ → ℕ → ℕ → Conn
conn_of fd r w = record { fd = fd; wake_read = pos r; wake_write = pos w }

-- Not connected: -EBADF, and nothing is held but `fds`.
abbrev pub let_go : List ℕ → Outcome
let_go fds = (negsuc 8, none, holding fds ebadf false false false)

-- Connected, if the flag is true: the socket and the two ends of the pipe are open besides the
-- descriptors in `fds`, and the copy of the target is still held.
pub data Ended (fds : List ℕ) : Bool → Outcome → Type 0 where
  connected :
      (n r w e : ℕ)
      → Ended fds true
          (pos 0, some (conn_of (pos n) r w), holding (n ∷ w ∷ r ∷ fds) e true true true)
  failed : Ended fds false (let_go fds)

close_top :
    (n : ℕ) (fds : List ℕ) (e : ℕ) (a b c : Bool)
    → close (pos n) (holding (n ∷ fds) e a b c) ≡ holding fds e a b c
close_top n fds e a b c = let same : (n == n) ≡ true = ground arith in rw same refl

close_second :
    (n m : ℕ) (fds : List ℕ) (e : ℕ) (a b c : Bool)
    → n ≢ m
    → close (pos n) (holding (m ∷ n ∷ fds) e a b c) ≡ holding (m ∷ fds) e a b c
close_second n m fds e a b c ne =
    let other : (m == n) ≡ false = ground arith in
    let same : (n == n) ≡ true = ground arith in rw (other, same) refl

module _ (fds : List ℕ) (e : ℕ) (b : Bool) where
  err_mutex_lem : err_mutex coremodel_init (holding fds e true b true) ≡ let_go fds
  unfolding err_mutex
  err_mutex_lem = refl

  module _ (r w : ℕ) (ne : r ≢ w) where
    err_pipe_lem :
        err_pipe (conn_of (negsuc 0) r w) (holding (w ∷ r ∷ fds) e true b true) ≡ let_go fds
    unfolding err_pipe
    err_pipe_lem =
        let closed =
          ap (close (pos w)) (close_second r w fds e true b true ne)
          ∙ close_top w fds e true b true in
        rw closed refl

    err_socket_lem :
        (n : ℕ)
        → err_socket (conn_of (pos n) r w) (holding (n ∷ w ∷ r ∷ fds) e true b true) ≡ let_go fds
    unfolding err_socket
    err_socket_lem n = rw (close_top n (w ∷ r ∷ fds) e true b true) err_pipe_lem

Try-cases : {A : Type 0} (t : Try A) → ((a : A) × (t ≡ good a)) ⊎ ((e : ℕ) × (t ≡ bad e))
Try-cases (good a) = inl (a, refl)
Try-cases (bad e) = inr (e, refl)

module _ (host : Host) (fds : List ℕ) (r w : ℕ) (ne : r ≢ w) where
  connect_socket-Ended :
      (addr port e : ℕ)
      → Ended fds (socket_good host addr port) (
          connect_socket host addr port
            (conn_of (negsuc 0) r w)
            (holding (w ∷ r ∷ fds) e true true true))
  unfolding connect_socket
  connect_socket-Ended addr port e = elim (Try-cases host.socket) [
    | inr (e', b) ↦ rw b (rw (err_pipe_lem fds e' true r w ne) failed)
    | inl (n, g) ↦ rw g (elim (Try-cases (host.connect addr port)) [
      | inr (e', b) ↦ rw b (rw (err_socket_lem fds e' true r w ne n) failed)
      | inl (u, g') ↦ rw g' (elim (Try-cases host.sock_nonblock) [
        | inr (e', b) ↦ rw b (rw (err_socket_lem fds e' true r w ne n) failed)
        | inl (v, g'') ↦ rw g'' (connected n r w e)
      ])
    ])
  ]

  connect_target-Ended :
      (t : List ℕ) (e : ℕ)
      → Ended fds
          (target_good host (some t))
          (connect_target host t (conn_of (negsuc 0) r w) (holding (w ∷ r ∷ fds) e true false true))
  unfolding connect_target
  connect_target-Ended t e =
      let (name, port) = split_target t in
      elim (Bool-cases host.copy) [
        | inr no_copy ↦ rw no_copy (rw (err_pipe_lem fds enomem false r w ne) failed)
        | inl copied ↦ rw copied (elim (Option-cases (host.gethostbyname name)) [
          | inl unknown ↦ rw unknown (rw (err_pipe_lem fds enoent true r w ne) failed)
          | inr (addr, known) ↦ rw known (connect_socket-Ended addr (port_of host port) e)
        ])
      ]

  connect_chosen-Ended :
      (o : Option (List ℕ))
      → Ended fds (target_good host o) (elim o as (λ _. Outcome) [
        | none ↦ err_pipe (conn_of (negsuc 0) r w) (holding (w ∷ r ∷ fds) einval true false true)
        | some t ↦
            connect_target host t
              (conn_of (negsuc 0) r w)
              (holding (w ∷ r ∷ fds) ebadf true false true)
      ])
  connect_chosen-Ended none = rw (err_pipe_lem fds einval false r w ne) failed
  connect_chosen-Ended (some t) = connect_target-Ended t ebadf

-- If the connection and its mutex could be made, `coremodel_connect` gives 0 and a connection whose
-- socket and pipe are open exactly when every later call succeeds. Otherwise it gives -EBADF whatever
-- failed, sets no connection, and holds no descriptor, memory or mutex that it did not hold before.
-- The condition: the two ends of the pipe are different.
pub coremodel_connect-Ended :
    (host : Host) (target : Option (List ℕ)) (fds : List ℕ) (e : ℕ)
    → host.init ≡ true
    → host.mutex ≡ true
    → Differ host.pipe
    → Ended fds
        (all_good host target)
        (coremodel_connect host target (holding fds e false false false))
unfolding coremodel_connect connect_pipe
coremodel_connect-Ended host target fds e init mutex differ =
    rw (init, mutex)
      (elim (Try-cases host.pipe) [
        | inr (e', b) ↦ rw b (rw (err_mutex_lem fds e' false) failed)
        | inl ((r, w), g) ↦
            (let ne : r ≢ w = subst Differ g differ in
              rw g (elim (Try-cases host.wake_nonblock) [
                | inr (e', b) ↦ rw b (rw (err_pipe_lem fds e' false r w ne) failed)
                | inl (u, g') ↦
                    rw g' (connect_chosen-Ended host fds r w ne (chosen target host.coremodel_vm))
              ]))
      ])
