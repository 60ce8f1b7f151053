-- ===== src/Pic.antt =====
-- src/pic/pic.c: the two interrupt controllers, through the ports of src/io. `irq` is not negative;
-- a mask is a byte. `D` is the state of the devices behind the ports.
pub mod Masks
mod Examples
use white_os.Base.{ℕ, ◌+◌, ◌-◌, ◌*◌, ◌/◌, ◌%◌, ◌^◌, bit_and, bit_or, ltb, leb, if◌then◌else◌}
use white_os.Io.{Ports, iowait}

-- PIC_1_CTRL, PIC_2_CTRL, PIC_1_DATA, PIC_2_DATA
abbrev pub pic_1_ctrl : ℕ
pic_1_ctrl = 0x20

abbrev pub pic_2_ctrl : ℕ
pic_2_ctrl = 0xA0

abbrev pub pic_1_data : ℕ
pic_1_data = 0x21

abbrev pub pic_2_data : ℕ
pic_2_data = 0xA1

module _ {D : Type 0} (ports : Ports D) where
  unfoldable pub kb_init : D → D
  kb_init d = ports.outb d 0x64 0xAE

  -- A byte to a port, and a wait.
  unfoldable pub send : D → (port value : ℕ) → D
  unfolding iowait
  send d port value = iowait ports (ports.outb d port value)

  -- The four words of the initialization to both controllers, and the masks.
  unfoldable pub pic_remap : D → D
  unfolding send
  pic_remap d =
      let d1 = send (send d pic_1_ctrl 0x11) pic_2_ctrl 0x11 in
      let d2 = send (send d1 pic_1_data 0x20) pic_2_data 0x28 in
      let d3 = send (send d2 pic_1_data 0x04) pic_2_data 0x02 in
      let d4 = send (send d3 pic_1_data 0x01) pic_2_data 0x01 in
      send (send d4 pic_1_data 0xff) pic_2_data 0xff

  -- `mask | (1 << irq)`, cut to a byte
  unfoldable pub pic_mask : D → (irq : ℕ) → D
  pic_mask d irq =
      let port = if ltb irq 8 then pic_1_data else pic_2_data in
      let bit = if ltb irq 8 then irq else irq - 8 in
      let (mask, d') = ports.insb d port in ports.outb d' port (bit_or mask (2 ^ bit) % 256)

  -- `mask & ~(1 << irq)`, cut to a byte; the complement has 32 bits.
  unfoldable pub pic_unmask : D → (irq : ℕ) → D
  pic_unmask d irq =
      let port = if ltb irq 8 then pic_1_data else pic_2_data in
      let bit = if ltb irq 8 then irq else irq - 8 in
      let (mask, d') = ports.insb d port in
      ports.outb d' port (bit_and mask (2 ^ 32 - 1 - 2 ^ bit) % 256)

  unfoldable pub pic_disable : D → D
  unfolding send
  pic_disable d = send (send d pic_1_data 0xff) pic_2_data 0xff

  unfoldable pub pic_send_end_of_interrupt : D → (irq : ℕ) → D
  pic_send_end_of_interrupt d irq =
      let d' = if leb 8 irq then ports.outb d pic_2_ctrl 0x20 else d in
      ports.outb d' pic_1_ctrl 0x20

  -- The registers of both controllers behind a command: the second one in the upper byte.
  unfoldable pub read_registers : D → (command : ℕ) → ℕ × D
  read_registers d command =
      let d' = ports.outb (ports.outb d pic_1_ctrl command) pic_2_ctrl command in
      let (low, d1) = ports.insb d' pic_1_ctrl in
      let (high, d2) = ports.insb d1 pic_2_ctrl in (bit_or low (high * 2 ^ 8), d2)

  unfoldable pub pic_read_irq_req_reg : D → ℕ × D
  unfolding read_registers
  pic_read_irq_req_reg d = read_registers d 0x0A

  unfoldable pub pic_read_in_service_reg : D → ℕ × D
  unfolding read_registers
  pic_read_in_service_reg d = read_registers d 0x0B
