-- ===== src/Platform/Uart.antt =====
-- crates/platform/src/uart.rs: the serial console. The handle that shares the interrupt controller
-- is a field, so an operation returns the controller with the UART.
pub mod Line
pub mod Fifo
use v.Base.{ℕ, ◌+◌, ◌-◌, ◌*◌, ◌/◌, ◌%◌, ◌^◌, bit_and, bit_or, u8, u16, u32, Bool, true, false}
use v.Base.{◌&&◌}
use v.Base.{List, [], ◌∷◌, ◌++◌, ◌==◌, ◌!=◌, leb, ltb, if◌then◌else◌, get_or}
use v.Platform.Gic.{Gic, set_pending, clear_pending}

abbrev pub fr_rxfe : ℕ
fr_rxfe = 2 ^ 4

abbrev pub fr_txfe : ℕ
fr_txfe = 2 ^ 7

abbrev pub int_rx : ℕ
int_rx = 2 ^ 4

abbrev pub int_tx : ℕ
int_tx = 2 ^ 5

abbrev pub int_rt : ℕ
int_rt = 2 ^ 6

abbrev pub id_regs : List ℕ
id_regs = 0x11 ∷ 0x10 ∷ 0x14 ∷ 0x00 ∷ 0x0d ∷ 0xf0 ∷ 0x05 ∷ 0xb1 ∷ []

pub record Uart : Type 0 where
  pub tx : List ℕ
  pub rx : List ℕ
  pub imsc : ℕ
  pub cr : ℕ
  pub lcr_h : ℕ
  pub ibrd : ℕ
  pub fbrd : ℕ
  pub ifls : ℕ
  pub gic : Gic
  pub irq : ℕ

unfoldable pub new : Gic → ℕ → Uart
new gic irq = record {
  tx = [];
  rx = [];
  imsc = 0;
  cr = 0;
  lcr_h = 0;
  ibrd = 0;
  fbrd = 0;
  ifls = 0;
  gic = gic;
  irq = irq;
}

-- `rx.is_empty()`
abbrev pub is_empty : List ℕ → Bool
is_empty [] = true
is_empty (b ∷ rest) = false

-- `rx.pop_front().unwrap_or(0)` and what it leaves
abbrev pub front : List ℕ → ℕ
front [] = 0
front (b ∷ rest) = b

abbrev pub without_front : List ℕ → List ℕ
without_front [] = []
without_front (b ∷ rest) = rest

unfoldable pub ris : Uart → ℕ
ris u = if is_empty u.rx then int_tx else bit_or int_tx (bit_or int_rx int_rt)

unfoldable pub update_irq : Uart → Uart
update_irq u =
    if bit_and (ris u) u.imsc != 0
    then record u { gic = set_pending u.gic u.irq }
    else record u { gic = clear_pending u.gic u.irq }

unfoldable pub read : Uart → ℕ → ℕ × Uart
read u offset =
    if offset == 0x000
    then (front u.rx, update_irq (record u { rx = without_front u.rx }))
    else if offset == 0x018
    then ((if is_empty u.rx then bit_or fr_txfe fr_rxfe else fr_txfe), u)
    else if offset == 0x024
    then (u.ibrd, u)
    else if offset == 0x028
    then (u.fbrd, u)
    else if offset == 0x02C
    then (u.lcr_h, u)
    else if offset == 0x030
    then (u.cr, u)
    else if offset == 0x034
    then (u.ifls, u)
    else if offset == 0x038
    then (u.imsc, u)
    else if offset == 0x03C
    then (ris u, u)
    else if offset == 0x040
    then (bit_and (ris u) u.imsc, u)
    else if leb 0xFE0 offset && ltb offset 0x1000
    then (get_or id_regs ((offset - 0xFE0) / 4) 0, u)
    else (0, u)

unfoldable pub write : Uart → ℕ → ℕ → Uart
write u offset val =
    if offset == 0x000
    then update_irq (record u { tx = u.tx ++ u8 val ∷ [] })
    else if offset == 0x024
    then record u { ibrd = u32 val }
    else if offset == 0x028
    then record u { fbrd = u32 val }
    else if offset == 0x02C
    then record u { lcr_h = u32 val }
    else if offset == 0x030
    then record u { cr = u32 val }
    else if offset == 0x034
    then record u { ifls = u32 val }
    else if offset == 0x038
    then update_irq (record u { imsc = u16 val })
    else if offset == 0x044
    then update_irq u
    else u

unfoldable pub take_tx : Uart → List ℕ × Uart
take_tx u = (u.tx, record u { tx = [] })

unfoldable pub feed : Uart → List ℕ → Uart
feed u bytes = update_irq (record u { rx = u.rx ++ bytes })
