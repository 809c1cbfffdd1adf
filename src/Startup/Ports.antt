-- ===== src/Startup/Ports.antt =====
-- The port as the text that `getaddrinfo` takes.
use bttracker.Common.{ℕ, ◌+◌, ◌^◌, ◌<◌, ◌≤◌, ◌≡◌, arith, length}
use bttracker.Text.{digits}
use bttracker.Text.Digits.{read_decimal, length-digits, read_decimal-digits, print_int_positive}
use bttracker.Startup.{Os, portstr}

small_port : (os : Os) (port : ℕ) → port < 2 ^ 16 → portstr os port ≡ digits 10 port
unfolding portstr
small_port os port h = print_int_positive port (omega arith)

-- For every 16-bit port, the text and its terminator fit the ten bytes that the code keeps for
-- them, and the text reads back as the port.
pub portstr-Fits :
    (os : Os) (port : ℕ)
    → port < 2 ^ 16
    → (length (portstr os port) + 1 ≤ 10) × (read_decimal 0 (portstr os port) ≡ port)
portstr-Fits os port h = rw (small_port os port h) (
  omega (arith, length-digits 10 4 port (omega arith)),
  read_decimal-digits 10 port (omega arith),
)
