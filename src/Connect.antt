-- ===== src/Connect.antt =====
-- coremodel.c: `coremodel_init`, `coremodel_connect` and `coremodel_fini`. What the system answers to
-- each call is an argument; close(2) fails with EBADF on what is no open descriptor.
pub mod Resources
mod Tests
use coremodel.Base.{
  ℕ, suc, zero, ◌-◌, ◌%◌, ◌^◌, Bool, true, false, List, [], ◌∷◌, Option, none, some, ◌==◌,
  if◌then◌else◌, ℤ, pos, negsuc, is_zero,
}

abbrev pub ebadf : ℕ
ebadf = 9

abbrev pub enomem : ℕ
enomem = 12

abbrev pub einval : ℕ
einval = 22

abbrev pub enoent : ℕ
enoent = 2

abbrev pub coremodel_dflt_port : ℕ
coremodel_dflt_port = 1900

-- The answer to a call: its result, or the value it leaves in errno.
pub data Try (A : Type 0) : Type 0 where
  good : A → Try A
  bad : ℕ → Try A

-- What the system answers. `mutex` is the answer to the three calls on the mutex, which do not touch
-- errno.
pub record Host : Type 0 where
  pub init : Bool
  pub mutex : Bool
  pub pipe : Try (ℕ × ℕ)
  pub wake_nonblock : Try (Unit {0})
  pub coremodel_vm : Option (List ℕ)
  pub copy : Bool
  pub strtol : List ℕ → ℕ
  pub gethostbyname : List ℕ → Option ℕ
  pub socket : Try ℕ
  pub connect : ℕ → ℕ → Try (Unit {0})
  pub sock_nonblock : Try (Unit {0})

-- What the process holds: the open descriptors, errno, and whether the connection, the copy of the
-- target and the mutex are there.
pub record Held : Type 0 where
  pub open_fds : List ℕ
  pub errno : ℕ
  pub cm_held : Bool
  pub strp_held : Bool
  pub mutex_held : Bool

-- The descriptors of `struct coremodel`.
pub record Conn : Type 0 where
  pub fd : ℤ
  pub wake_read : ℤ
  pub wake_write : ℤ

-- `coremodel_init`
abbrev pub coremodel_init : Conn
coremodel_init = record { fd = negsuc 0; wake_read = negsuc 0; wake_write = negsuc 0 }

abbrev pub has_fd : ℕ → List ℕ → Bool
has_fd n [] = false
has_fd n (x ∷ xs) = if x == n then true else has_fd n xs

abbrev pub without_fd : ℕ → List ℕ → List ℕ
without_fd n [] = []
without_fd n (x ∷ xs) = if x == n then xs else x ∷ without_fd n xs

abbrev pub set_errno : ℕ → Held → Held
set_errno e s = record s { errno = e }

abbrev pub close : ℤ → Held → Held
close (negsuc n) s = set_errno ebadf s
close (pos n) s =
    if has_fd n s.open_fds
    then record s { open_fds = without_fd n s.open_fds }
    else set_errno ebadf s

-- `-errno`
abbrev pub minus : ℕ → ℤ
minus zero = pos 0
minus (suc n) = negsuc n

-- The result, what `*priv` is set to, and what is held then.
abbrev pub Outcome : Type 0
Outcome = ℤ × Option Conn × Held

abbrev err_entry : Held → Outcome
err_entry s = (minus s.errno, none, s)

-- The label `cleanup` with a connection: `coremodel_fini`, and the copy of the target.
unfoldable pub cleanup : Conn → Held → Outcome
cleanup cm s =
    let s' = if is_zero cm.fd then s else close cm.fd s in
    err_entry (record s' { cm_held = false; strp_held = false })

unfoldable pub err_mutex : Conn → Held → Outcome
unfolding cleanup
err_mutex cm s = cleanup cm (record s { mutex_held = false })

unfoldable pub err_pipe : Conn → Held → Outcome
unfolding err_mutex
err_pipe cm s =
    err_mutex (record cm { wake_read = negsuc 0; wake_write = negsuc 0 })
      (close cm.wake_write (close cm.wake_read s))

unfoldable pub err_socket : Conn → Held → Outcome
unfolding err_pipe
err_socket cm s = err_pipe (record cm { fd = negsuc 0 }) (close cm.fd s)

-- The text before the colon, and behind it.
abbrev pub split_target : List ℕ → List ℕ × Option (List ℕ)
split_target [] = ([], none)
split_target (c ∷ cs) =
    let (name, port) = split_target cs in if c == b':' then ([], some cs) else (c ∷ name, port)

-- `htons(portn)`
abbrev pub port_of : Host → Option (List ℕ) → ℕ
port_of host none = coremodel_dflt_port
port_of host (some text) = host.strtol text % 2 ^ 16

-- From the socket on.
unfoldable pub connect_socket : Host → ℕ → ℕ → Conn → Held → Outcome
unfolding err_pipe err_socket
connect_socket host addr port cm s = elim host.socket [
  | bad e ↦ err_pipe cm (set_errno e s)
  | good n ↦
      let cm' = record cm { fd = pos n } in
      let s' = record s { open_fds = n ∷ s.open_fds } in
      elim (host.connect addr port) [
        | bad e ↦ err_socket cm' (set_errno e s')
        | good u ↦ elim host.sock_nonblock [
          | bad e ↦ err_socket cm' (set_errno e s')
          | good v ↦ (pos 0, some cm', s')
        ]
      ]
]

-- From the copy of the target on.
unfoldable pub connect_target : Host → List ℕ → Conn → Held → Outcome
unfolding err_pipe connect_socket
connect_target host target cm s =
    let copied = record s { strp_held = true } in
    let (name, port) = split_target target in
    if host.copy
    then elim (host.gethostbyname name) as (λ _. Outcome) [
      | none ↦ err_pipe cm (set_errno enoent copied)
      | some addr ↦ connect_socket host addr (port_of host port) cm copied
    ]
    else err_pipe cm (set_errno enomem s)

abbrev pub chosen : Option (List ℕ) → Option (List ℕ) → Option (List ℕ)
chosen none env = env
chosen (some t) env = some t

-- From the pipe on. The call that asks for the flags of the descriptor -1 leaves EBADF in errno.
unfoldable pub connect_pipe : Host → Option (List ℕ) → Conn → Held → Outcome
unfolding err_mutex err_pipe connect_target
connect_pipe host target cm s = elim host.pipe [
  | bad e ↦ err_mutex cm (set_errno e s)
  | good (r, w) ↦
      let cm' = record cm { wake_read = pos r; wake_write = pos w } in
      let s' = record s { open_fds = w ∷ r ∷ s.open_fds; errno = ebadf } in
      elim host.wake_nonblock [
        | bad e ↦ err_pipe cm' (set_errno e s')
        | good u ↦ elim (chosen target host.coremodel_vm) [
          | none ↦ err_pipe cm' (set_errno einval s')
          | some t ↦ connect_target host t cm' s'
        ]
      ]
]

-- When the mutex fails, the code returns without freeing the connection.
unfoldable pub coremodel_connect : Host → Option (List ℕ) → Held → Outcome
unfolding connect_pipe
coremodel_connect host target s =
    let allocated = record s { cm_held = true } in
    if host.init
    then (if host.mutex
        then connect_pipe host target coremodel_init (record allocated { mutex_held = true })
        else err_entry allocated)
    else err_entry (set_errno enomem s)
