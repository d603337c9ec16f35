-- ===== src/Devices/Calls.antt =====
-- The system calls of kernel/devices.c. A call that opens a device returns also what
-- it writes to the word at `dev`; `true` stands for the value 1 of `*dev == NULL`.
use diplomski_rad.Base.{ℕ, Bool, Option, some, ◌==◌, if◌then◌else◌, ◌>>=◌}
use diplomski_rad.Base.Int.{ℤ, pos}
use diplomski_rad.Threads.{null}
use diplomski_rad.Scheduler.{Env}
use diplomski_rad.Devices.{
  Devs, k_device_send, k_device_recv, k_device_open, k_device_close, k_device_lock, k_device_unlock,
}

unfoldable pub sys__device_send : ℕ → ℕ → ℕ → ℕ → Devs → Option (ℤ × Devs)
sys__device_send buffer size flags dev s = k_device_send buffer size flags dev s

unfoldable pub sys__device_recv : ℕ → ℕ → ℕ → ℕ → Devs → Option (ℤ × Devs)
sys__device_recv buffer size flags dev s = k_device_recv buffer size flags dev s

-- The value, the word at `dev` afterwards, and the state.
unfoldable pub sys__device_open : ℕ → ℕ → Devs → Option (Bool × ℕ × Devs)
sys__device_open fuel dev_name s = do
  opened ← k_device_open fuel dev_name s
  some (opened.0 == null, opened.0, opened.1)

unfoldable pub sys__device_close : ℕ → Devs → Option (ℤ × Devs)
sys__device_close kdev s = do closed ← k_device_close kdev s; some (pos 0, closed)

unfoldable pub sys__device_lock : Env → ℕ → Bool → Devs → Option (ℤ × Devs)
sys__device_lock e dev wait s = k_device_lock e dev wait s

unfoldable pub sys__device_unlock : Env → ℕ → Devs → Option (ℤ × Devs)
sys__device_unlock e dev s = k_device_unlock e dev s

unfoldable pub sys__set_default_stdin : ℕ → ℕ → Devs → Option (Bool × ℕ × Devs)
sys__set_default_stdin fuel dev_name s = do
  opened ← k_device_open fuel dev_name s
  some (
    opened.0 == null,
    opened.0,
    if opened.0 == null then opened.1 else record opened.1 { u_stdin = opened.0 },
  )

unfoldable pub sys__set_default_stdout : ℕ → ℕ → Devs → Option (Bool × ℕ × Devs)
sys__set_default_stdout fuel dev_name s = do
  opened ← k_device_open fuel dev_name s
  some (
    opened.0 == null,
    opened.0,
    if opened.0 == null then opened.1 else record opened.1 { u_stdout = opened.0 },
  )
