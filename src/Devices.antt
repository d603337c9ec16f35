-- ===== src/Devices.antt =====
-- kernel/devices.c. A `kdevice_t` is known by its address, and the `list_t` of all of them is the list
-- of their addresses. The functions of a driver act on the memory, its device's registers included;
-- what the calls use of the architecture layer is the parameter `Arch`. `fresh` is what `kmalloc`
-- returns, and a user's address stands as `U2K_GET_ADR` has translated it. A call is `none` where the
-- kernel halts, reads a device that is not there, or where the rounds for a comparison of names, `fuel`,
-- are not enough.
pub mod Calls
pub mod Spec
pub mod Refine
pub mod Open
use Prim.Native.Nat.{bit_and}
use diplomski_rad.Base.{
  ℕ, Bool, true, false, not, ◌&&◌, Option, none, some, is_some, List, [], ◌∷◌, ◌++◌, ◌==◌,
  if◌then◌else◌, ◌>>=◌, update,
}
use diplomski_rad.Base.Int.{ℤ, pos, negsuc}
use diplomski_rad.Base.Members.{has, erase}
use diplomski_rad.Threads.{Kernel, queue_of, null, put_queue, kthread_enqueue, kthreadq_release}
use diplomski_rad.Scheduler.{Env, kthreads_schedule}
use diplomski_rad.Strings.{Mem, strcmp}

-- A function of a driver, on two words or on three.
abbrev pub Setup : Type 0
Setup = ℕ → ℕ → Mem → ℤ × Mem

abbrev pub Transfer : Type 0
Transfer = ℕ → ℕ → ℕ → Mem → ℤ × Mem

-- `device_t`: `dev_name` is the address of the name, and `irq_num` is -1 where there is no interrupt.
pub record Device : Type 0 where
  pub dev_name : ℕ
  pub irq_num : ℤ
  pub irq_handler : ℕ
  pub callback : ℕ
  pub init : Option Setup
  pub destroy : Option Setup
  pub send : Option Transfer
  pub recv : Option Transfer
  pub flags : ℕ
  pub params : ℕ

-- `kdevice_t`, less its queue of threads.
pub record Kdevice : Type 0 where
  pub dev : Device
  pub is_open : Bool
  pub locked : Bool

-- `arch_register_interrupt_handler` and `arch_unregister_interrupt_handler` with the number, the handler
-- and the device, `arch_irq_enable` and `arch_irq_disable`.
pub record Arch : Type 0 where
  pub register : ℤ → ℕ → ℕ → Mem → Mem
  pub unregister : ℤ → ℕ → ℕ → Mem → Mem
  pub irq_enable : ℤ → Mem → Mem
  pub irq_disable : ℤ → Mem → Mem

pub record Devs : Type 0 where
  pub kernel : Kernel
  pub mem : Mem
  pub kdevices : ℕ → Option Kdevice
  pub devices : List ℕ
  pub u_stdin : ℕ
  pub u_stdout : ℕ

abbrev pub put_device : ℕ → Kdevice → Devs → Devs
put_device a d s = record s { kdevices = update s.kdevices a (some d) }

unfoldable pub k_device_add : ℕ → Device → Devs → Option (ℕ × Devs)
k_device_add fresh dev s =
    if fresh == null
    then none
    else some (
      fresh,
      record s {
        kdevices =
            update s.kdevices fresh (some (record { dev = dev; is_open = false; locked = false }));
        devices = s.devices ++ fresh ∷ [];
      },
    )

abbrev is_minus_one : ℤ → Bool
is_minus_one (pos n) = false
is_minus_one (negsuc n) = n == 0

abbrev pub is_zero : ℤ → Bool
is_zero (pos n) = n == 0
is_zero (negsuc n) = false

-- A call of a driver's function that may be missing.
abbrev pub call_setup : Option Setup → ℕ → ℕ → Mem → ℤ × Mem
call_setup none flags params mem = (pos 0, mem)
call_setup (some f) flags params mem = f flags params mem

unfoldable pub k_device_init : Arch → ℕ → ℕ → ℕ → ℕ → Devs → Option (ℤ × Devs)
k_device_init arch kdev flags params callback s = do
  d ← s.kdevices kdev
  let dev = record d.dev {
    flags = if flags == 0 then d.dev.flags else flags;
    params = if params == 0 then d.dev.params else params;
  }
  let called = call_setup dev.init flags params s.mem
  let mem =
      if is_zero called.0 && not (dev.irq_handler == null)
      then arch.irq_enable dev.irq_num (arch.register dev.irq_num dev.irq_handler kdev called.1)
      else called.1
  some (
    called.0,
    record s {
      kernel = put_queue (queue_of kdev) [] s.kernel;
      mem = mem;
      kdevices = update s.kdevices kdev (
          some (record d {
            dev = record dev { callback = if callback == 0 then dev.callback else callback };
            locked = false;
          }));
    },
  )

-- The loop of `k_devices_init` over the built-in devices, each with the memory for its `kdevice_t`.
unfoldable pub k_devices_init : Arch → List (ℕ × Device) → Devs → Option Devs
k_devices_init arch [] s = some s
k_devices_init arch ((fresh, dev) ∷ devs) s = do
  added ← k_device_add fresh dev s
  ready ← k_device_init arch added.0 0 0 0 added.1
  k_devices_init arch devs ready.1

unfoldable pub k_device_remove : Arch → ℕ → Devs → Option (ℤ × Devs)
k_device_remove arch kdev s = do
  d ← s.kdevices kdev
  let dev = d.dev
  let mem1 = if is_minus_one dev.irq_num then s.mem else arch.irq_disable dev.irq_num s.mem
  let mem2 =
      if dev.irq_handler == null
      then mem1
      else arch.unregister dev.irq_num dev.irq_handler kdev mem1
  let mem3 = (call_setup dev.destroy dev.flags dev.params mem2).1
  if has kdev s.devices
      then some (
        pos 0,
        record s {
          mem = mem3;
          kdevices = update s.kdevices kdev none;
          devices = erase kdev s.devices;
        },
      )
      else none

abbrev pub call_transfer : Option Transfer → ℕ → ℕ → ℕ → Mem → ℤ × Mem
call_transfer none buffer size flags mem = (negsuc 0, mem)
call_transfer (some f) buffer size flags mem = f buffer size flags mem

unfoldable pub k_device_send : ℕ → ℕ → ℕ → ℕ → Devs → Option (ℤ × Devs)
k_device_send buffer size flags kdev s = do
  d ← s.kdevices kdev
  let called = call_transfer d.dev.send buffer size flags s.mem
  some (called.0, record s { mem = called.1 })

unfoldable pub k_device_recv : ℕ → ℕ → ℕ → ℕ → Devs → Option (ℤ × Devs)
k_device_recv buffer size flags kdev s = do
  d ← s.kdevices kdev
  let called = call_transfer d.dev.recv buffer size flags s.mem
  some (called.0, record s { mem = called.1 })

-- `flags & DEV_TYPE_NOTSHARED`.
abbrev pub is_not_shared : Device → Bool
is_not_shared dev = not (bit_and dev.flags 2 == 0)

-- The loop of `k_device_open` over the devices that are left: the device that was opened, or `NULL`.
unfoldable pub open_from : ℕ → ℕ → List ℕ → Devs → Option (ℕ × Devs)
open_from fuel name [] s = some (null, s)
open_from fuel name (kdev ∷ kdevs) s =
    let next = open_from fuel name kdevs s in
    do
      d ← s.kdevices kdev
      order ← strcmp fuel name d.dev.dev_name s.mem
      if is_zero order
          then if is_not_shared d.dev && d.is_open
            then some (null, s)
            else some (kdev, put_device kdev (record d { is_open = true }) s)
          else next

unfoldable pub k_device_open : ℕ → ℕ → Devs → Option (ℕ × Devs)
k_device_open fuel name s = open_from fuel name s.devices s

unfoldable pub k_device_close : ℕ → Devs → Option Devs
k_device_close kdev s = do
  d ← s.kdevices kdev
  some (put_device kdev (record d { is_open = false }) s)

unfoldable pub k_device_lock : Env → ℕ → Bool → Devs → Option (ℤ × Devs)
k_device_lock e dev wait s = do
  d ← s.kdevices dev
  if not wait && d.locked then some (negsuc 0, s) else do
    k ←
        if d.locked
        then (do k1 ← kthread_enqueue null (queue_of dev) s.kernel; kthreads_schedule e k1)
        else some s.kernel
    some (pos 0, put_device dev (record d { locked = true }) (record s { kernel = k }))

unfoldable pub k_device_unlock : Env → ℕ → Devs → Option (ℤ × Devs)
k_device_unlock e dev s = do
  d ← s.kdevices dev
  let released = kthreadq_release (queue_of dev) s.kernel
  if released.0
      then (do k ← kthreads_schedule e released.1; some (pos 0, record s { kernel = k }))
      else some
          (pos 0, put_device dev (record d { locked = false }) (record s { kernel = released.1 }))
