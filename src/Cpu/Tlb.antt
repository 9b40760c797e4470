-- ===== src/Cpu/Tlb.antt =====
-- crates/cpu/src/tlb.rs: the direct-mapped translation cache.
pub mod Laws
use v.Base.{ℕ, ◌-◌, ◌^◌, ◌>>>◌, bit_and, Option, none, some, List, map, ◌==◌, if◌then◌else◌}
use v.Base.{get_or, set, replicate}

abbrev pub tlb_size : ℕ
tlb_size = 1024

-- `u64::MAX`, the tag of an empty slot
abbrev pub empty : ℕ
empty = 2 ^ 64 - 1

pub record Entry : Type 0 where
  pub tag : ℕ
  pub pa : ℕ
  pub perms : ℕ

abbrev pub empty_entry : Entry
empty_entry = record { tag = empty; pa = 0; perms = 0 }

pub record Tlb : Type 0 where
  pub entries : List Entry

unfoldable pub new : Tlb
new = record { entries = replicate tlb_size empty_entry }

unfoldable pub index : ℕ → ℕ
index va_page = bit_and (va_page >>> 12) (tlb_size - 1)

-- The array has `tlb_size` slots and `index` stays below that, so the default of `get_or` is
-- never read.
unfoldable pub lookup : Tlb → ℕ → Option (ℕ × ℕ)
lookup t va_page =
    let e = get_or t.entries (index va_page) empty_entry in
    if e.tag == va_page then some (e.pa, e.perms) else none

unfoldable pub insert : Tlb → ℕ → ℕ → ℕ → Tlb
insert t va_page pa_page perms = record t {
  entries = set t.entries (index va_page) (record { tag = va_page; pa = pa_page; perms = perms });
}

clear_tag : Entry → Entry
clear_tag e = record e { tag = empty }

unfoldable pub flush : Tlb → Tlb
unfolding clear_tag
flush t = record t { entries = map clear_tag t.entries }
