-- ===== src/Io.antt =====
-- src/io: port input and output. The transfers themselves are machine code (src/io/io.asm), so they
-- are a parameter here, over the state `D` of the devices behind the ports; `iowait` is C.
use white_os.Base.{ℕ}

pub record Ports (D : Type 0) : Type 0 where
  pub outb : D → (port value : ℕ) → D
  pub outw : D → (port value : ℕ) → D
  pub insb : D → (port : ℕ) → ℕ × D
  pub insw : D → (port : ℕ) → ℕ × D

-- UNUSED_PORT
abbrev pub unused_port : ℕ
unused_port = 0x80

unfoldable pub iowait : {D : Type 0} → Ports D → D → D
iowait ports d = ports.outb d unused_port 0
