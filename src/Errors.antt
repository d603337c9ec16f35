-- ===== src/Errors.antt =====
-- lib/errno.h and kernel/errno.h: the error numbers, and `EXIT`. The kernel is built with `DEBUG`
-- (Makefile.kernel), so `ASSERT` halts and `ASSERT_ERRNO_AND_EXIT` returns the error.
use diplomski_rad.Base.{ℕ}
use diplomski_rad.Base.Int.{ℤ, neg}
use diplomski_rad.Threads.{Kernel, set_errno}

abbrev pub success : ℕ
success = 0

abbrev pub e_not_expired : ℕ
e_not_expired = 6

abbrev pub e_not_finished : ℕ
e_not_finished = 5

abbrev pub e_not_owner : ℕ
e_not_owner = 7

abbrev pub e_param_null : ℕ
e_param_null = 8

abbrev pub e_dont_exist : ℕ
e_dont_exist = 9

abbrev pub e_ignored : ℕ
e_ignored = 10

abbrev pub e_invalid_type : ℕ
e_invalid_type = 11

abbrev pub e_invalid_handle : ℕ
e_invalid_handle = 12

abbrev pub e_no_memory : ℕ
e_no_memory = 14

abbrev pub e_retry : ℕ
e_retry = 15

abbrev pub e_empty : ℕ
e_empty = 16

abbrev pub e_too_big : ℕ
e_too_big = 17

abbrev pub e_deadline : ℕ
e_deadline = 18

-- `EXIT (e)`: the error number of the active thread is set, and its negation returned.
unfoldable pub exit : ℕ → Kernel → ℤ × Kernel
exit e k = (neg e, set_errno e k)
