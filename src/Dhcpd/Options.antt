-- ===== src/Dhcpd/Options.antt =====
-- The options of the DHCP server of src/dhcpd.c: the parser.
use aj.Common.{ℕ, zero, suc, ◌+◌, ◌≤◌, ◌≡◌, refl, false, ltb, Memory, arith}
use aj.Dhcpd.{scan_options}

-- How many rounds are allowed does not matter from the number of bytes left on: the parser ends by
-- itself, at the end of the options or at the byte 255.
pub scan_options_enough :
    (n k : ℕ) (m : Memory) (at' end type : ℕ)
    → end ≤ at' + n
    → end ≤ at' + k
    → scan_options n m at' end type ≡ scan_options k m at' end type
unfolding scan_options
scan_options_enough zero zero m at' end type h g = refl
scan_options_enough zero (suc k) m at' end type h g =
    let e : ltb at' end ≡ false = ground arith in rw e
scan_options_enough (suc n) zero m at' end type h g =
    let e : ltb at' end ≡ false = ground arith in rw e
scan_options_enough (suc n) (suc k) m at' end type h g = rw (
  scan_options_enough n k m (at' + 1) end type (omega arith) (omega arith),
  scan_options_enough n k m (at' + 2 + m (at' + 1)) end type (omega arith) (omega arith),
  scan_options_enough n k m (at' + 2 + m (at' + 1)) end (m (at' + 2)) (omega arith) (omega arith),
)
