-- ===== src/Errno.antt =====
-- inc/error.h: the error codes. A function that returns 0 or -E_X returns an `Option Errno`, where
-- `none` is 0.
use jos_miles.Prelude.{ℕ}

pub data Errno : Type 0 where
  unspecified bad_env inval no_mem no_free_env fault no_sys : Errno

unfoldable pub code : Errno → ℕ
code Errno.unspecified = 1
code Errno.bad_env = 2
code Errno.inval = 3
code Errno.no_mem = 4
code Errno.no_free_env = 5
code Errno.fault = 6
code Errno.no_sys = 7

abbrev pub maxerror : ℕ
maxerror = 8
