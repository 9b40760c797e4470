-- ===== src/Cpu/Tlb/Laws.antt =====
-- What the translation cache promises: it returns only what was inserted for the same page, and
-- after a flush nothing.
use v.Base.{ℕ, ◌/◌, ◌^◌, ◌<◌, ◌≡◌, ◌≢◌, ◌∙◌, none, some, arith}
use v.Base.{◌==◌, if◌then◌else◌, length, length-set, length-map, get_or-map, length-replicate}
use v.Base.{get_or-set_self}
use v.Base.{get_or-set_ne}
use v.Base.Bits.{bit_and_low}
use v.Cpu.Tlb.{Tlb, tlb_size, empty, empty_entry, new, index, clear_tag, lookup, insert, flush}

pub record IsValid (t : Tlb) : Type 0 where
  pub slots : length t.entries ≡ tlb_size

index-lt : (va_page : ℕ) → index va_page < tlb_size
unfolding index
index-lt va_page = omega (arith, bit_and_low 10 (va_page / 2 ^ 12))

pub new-IsValid : IsValid new
unfolding new
new-IsValid = record { slots = length-replicate tlb_size empty_entry }

pub insert-IsValid : {t : Tlb} (va pa perms : ℕ) → IsValid t → IsValid (insert t va pa perms)
unfolding insert
insert-IsValid {t} va pa perms h = record { slots = length-set t.entries (index va) _ ∙ h.slots }

pub flush-IsValid : {t : Tlb} → IsValid t → IsValid (flush t)
unfolding flush
flush-IsValid {t} h = record { slots = length-map clear_tag t.entries ∙ h.slots }

-- A page looked up after an insertion into a cache with all its slots: the page inserted is found,
-- a page of another slot is looked up as before, and a different page of the same slot is gone.
pub lookup-insert :
    {t : Tlb} (va pa perms page : ℕ)
    → IsValid t
    → lookup (insert t va pa perms) page ≡ (
        if va == page
        then some (pa, perms)
        else if index va == index page
        then none
        else lookup t page)
unfolding lookup insert
lookup-insert {t} va pa perms page h = ground (
  arith,
  index-lt va,
  get_or-set_self empty_entry t.entries (index va) (record { tag = va; pa = pa; perms = perms }),
  get_or-set_ne empty_entry t.entries (index va) (index page)
      (record { tag = va; pa = pa; perms = perms }),
)

-- No page other than the reserved tag `empty` is found after a flush.
pub lookup-flush : (t : Tlb) (page : ℕ) → page ≢ empty → lookup (flush t) page ≡ none
unfolding lookup flush clear_tag
lookup-flush t page h = rw (get_or-map clear_tag t.entries (index page) empty_entry) (ground arith)
