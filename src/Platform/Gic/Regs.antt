-- ===== src/Platform/Gic/Regs.antt =====
-- The register blocks of gic.rs: the Distributor (`dist_read`, `dist_write`) and the CPU interface
-- (`cpu_read`, `cpu_write`). A write returns the new controller.
use v.Base.{ℕ, zero, suc, ◌+◌, ◌-◌, ◌*◌, ◌/◌, ◌<<<◌, ◌>>>◌, bit_and, bit_or, u8, u32}
use v.Base.{Bool, true, false, ◌&&◌, Option, none, some, ◌==◌, ◌!=◌}
use v.Base.{ltb, leb, if◌then◌else◌, bit_of, update}
use v.Platform.Gic.{Gic, num_irqs, spurious, recompute, highest_pending, running_prio}
use v.Platform.Gic.{acknowledge, end_of_interrupt, read_bitmap, write_bitmap}

-- `lo..hi` as a pattern
abbrev pub within : ℕ → ℕ → ℕ → Bool
within lo hi off = leb lo off && ltb off hi

unfoldable pub read_priorities : (ℕ → ℕ) → ℕ → ℕ → ℕ → ℕ → ℕ
read_priorities priority idx zero i w = w
read_priorities priority idx (suc left) i w =
    read_priorities priority idx left (i + 1)
      (if ltb (idx + i) num_irqs then bit_or w (priority (idx + i) <<< (i * 8)) else w)

unfoldable pub write_priorities : ℕ → ℕ → ℕ → ℕ → (ℕ → ℕ) → ℕ → ℕ
write_priorities idx val zero i priority = priority
write_priorities idx val (suc left) i priority =
    write_priorities idx val left (i + 1) (
      if ltb (idx + i) num_irqs then update priority (idx + i) (u8 (val >>> (i * 8))) else priority)

unfoldable pub read_targets : ℕ → ℕ → ℕ → ℕ
read_targets zero i w = w
read_targets (suc left) i w = read_targets left (i + 1) (bit_or w (1 <<< (i * 8)))

unfoldable pub dist_read : Gic → ℕ → ℕ → ℕ
dist_read g off size =
    if off == 0x000
    then bit_of g.dist_enabled
    else if off == 0x004
    then num_irqs / 32 - 1
    else if off == 0x008
    then 0
    else if within 0x100 0x180 off
    then read_bitmap g.enabled (off - 0x100) size
    else if within 0x180 0x200 off
    then read_bitmap g.enabled (off - 0x180) size
    else if within 0x200 0x280 off
    then read_bitmap g.pending (off - 0x200) size
    else if within 0x280 0x300 off
    then read_bitmap g.pending (off - 0x280) size
    else if within 0x300 0x380 off
    then read_bitmap g.active (off - 0x300) size
    else if within 0x380 0x400 off
    then read_bitmap g.active (off - 0x380) size
    else if within 0x400 0x800 off
    then read_priorities g.priority (off - 0x400) size 0 0
    else if within 0x800 0xC00 off
    then read_targets size 0 0
    else 0

-- GICD_SGIR: whether CPU0 is a target of the software-generated interrupt.
unfoldable pub to_cpu0 : ℕ → Bool
to_cpu0 val =
    let filter = bit_and (val >>> 24) 0x3 in
    if filter == 0 then bit_and (val >>> 16) 0x1 != 0 else if filter == 2 then true else false

unfoldable pub send_sgi : Gic → ℕ → Gic
send_sgi g val =
    let sgi = bit_and val 0xf in
    if to_cpu0 val
    then record g { enabled = update g.enabled sgi true; pending = update g.pending sgi true }
    else g

-- The `match` of `GicDist::write`, before the cache is refreshed.
unfoldable pub dist_update : Gic → ℕ → ℕ → ℕ → Gic
dist_update g off size val =
    if off == 0x000
    then record g { dist_enabled = bit_and val 1 != 0 }
    else if within 0x100 0x180 off
    then record g { enabled = write_bitmap g.enabled (off - 0x100) size val true }
    else if within 0x180 0x200 off
    then record g { enabled = write_bitmap g.enabled (off - 0x180) size val false }
    else if within 0x200 0x280 off
    then record g { pending = write_bitmap g.pending (off - 0x200) size val true }
    else if within 0x280 0x300 off
    then record g { pending = write_bitmap g.pending (off - 0x280) size val false }
    else if within 0x300 0x380 off
    then record g { active = write_bitmap g.active (off - 0x300) size val true }
    else if within 0x380 0x400 off
    then record g { active = write_bitmap g.active (off - 0x380) size val false }
    else if within 0x400 0x800 off
    then record g { priority = write_priorities (off - 0x400) val size 0 g.priority }
    else if off == 0xF00
    then send_sgi g val
    else g

unfoldable pub dist_write : Gic → ℕ → ℕ → ℕ → Gic
dist_write g off size val = recompute (dist_update g off size val)

abbrev id_or_spurious : Option (ℕ × ℕ) → ℕ
id_or_spurious none = spurious
id_or_spurious (some (id, p)) = id

unfoldable pub cpu_read : Gic → ℕ → ℕ × Gic
cpu_read g offset =
    if offset == 0x00
    then (bit_of g.cpu_enabled, g)
    else if offset == 0x04
    then (g.pmr, g)
    else if offset == 0x0C
    then acknowledge g
    else if offset == 0x14
    then (running_prio g, g)
    else if offset == 0x18
    then (id_or_spurious (highest_pending g), g)
    else (0, g)

unfoldable pub cpu_write : Gic → ℕ → ℕ → Gic
cpu_write g offset val =
    if offset == 0x00
    then record g { cpu_enabled = bit_and val 1 != 0 }
    else if offset == 0x04
    then record g { pmr = u8 val }
    else if offset == 0x10
    then end_of_interrupt g (u32 val)
    else g
