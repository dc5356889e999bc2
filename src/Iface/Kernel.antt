-- ===== src/Iface/Kernel.antt =====
-- The driver over the kernel's CAN sockets (src/iface/iface_socketcan.c); the system calls are a
-- parameter.
use socanmatic.Base.{ℕ, List, if◌then◌else◌}
use socanmatic.Base.Int.{ℤ, pos, is_nonneg, same_int}
use socanmatic.Can.{CanFrame, Status, ok, err_os, err_param, err_not_sup}
use socanmatic.Iface.{Iface, is_kernel}
use socanmatic.Iface.Esd.{CanFilter}

-- The calls, with their results. `sys_read` may store a part of a frame. `ioctl` is given the name, as
-- far as `strncpy` copies it, and gives the index of the device; `errno` is what a call left.
pub record Kernel : Type 1 where
  pub State : Type 0
  pub Name : Type 0
  pub frame_size : ℕ
  pub sys_write : State → ℤ → CanFrame → ℤ × State
  pub sys_read : State → ℤ → CanFrame → ℤ × CanFrame × State
  pub sys_close : State → ℤ → ℤ × State
  pub socket : State → ℤ × State
  pub ioctl : State → ℤ → Name → ℤ × ℕ × State
  pub bind : State → ℤ → ℕ → ℤ × State
  pub setsockopt : State → ℤ → List CanFilter → ℤ × State
  pub errno : State → ℤ

module _ (k : Kernel) where
  open k use {
    State, Name, frame_size, sys_write, sys_read, sys_close, socket, ioctl, bind, setsockopt, errno,
  }

  unfoldable pub keep_errno : Iface ℤ → State → Status × Iface ℤ × State
  keep_errno cif s = (err_os, record cif { err = errno s }, s)

  unfoldable pub v_send : CanFrame → Iface ℤ → State → Status × Iface ℤ × State
  v_send frame cif s =
      if is_kernel cif.vtable
      then (let (r, s1) = sys_write s cif.fd frame in
          if same_int r (pos frame_size) then (ok, cif, s1) else keep_errno cif s1)
      else (err_param, cif, s)

  unfoldable pub v_recv : CanFrame → Iface ℤ → State → Status × CanFrame × Iface ℤ × State
  v_recv frame cif s =
      if is_kernel cif.vtable
      then (let (r, got, s1) = sys_read s cif.fd frame in
          if same_int r (pos frame_size)
          then (ok, got, cif, s1)
          else (err_os, got, record cif { err = errno s1 }, s1))
      else (err_param, frame, cif, s)

  unfoldable pub v_destroy : Iface ℤ → State → Status × Iface ℤ × State
  v_destroy cif s =
      if is_kernel cif.vtable
      then (let (r, s1) = sys_close s cif.fd in
          if same_int r (pos 0) then (ok, cif, s1) else keep_errno cif s1)
      else (err_param, cif, s)

  -- A failure after the socket is made leaves it open.
  unfoldable pub v_open : Name → Iface ℤ → State → Status × Iface ℤ × State
  v_open name cif s =
      if is_kernel cif.vtable
      then (let (fd, s1) = socket s in
          if is_nonneg fd
          then (let (r, index, s2) = ioctl s1 fd name in
              if same_int r (pos 0)
              then (let (r2, s3) = bind s2 fd index in
                  if same_int r2 (pos 0)
                  then (ok, record cif { fd = fd; err = pos 0 }, s3)
                  else keep_errno cif s3)
              else keep_errno cif s2)
          else keep_errno cif s1)
      else (err_param, cif, s)

  unfoldable pub v_set_kbps : ℕ → Iface ℤ → State → Status × Iface ℤ × State
  v_set_kbps kbps cif s = (err_not_sup, cif, s)

  -- `v_filter`, which looks at no table and keeps no error.
  unfoldable pub v_filter : List CanFilter → Iface ℤ → State → Status × Iface ℤ × State
  v_filter filters cif s =
      let (i, s1) = setsockopt s cif.fd filters in
      (if same_int i (pos 0) then ok else err_os, cif, s1)
