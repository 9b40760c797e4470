-- ===== src/Decoder/Neon/Matches.antt =====
-- crates/decoder/src/neon.rs: the tests that the vector decoders share.
use v.Base.{ℕ, bit_and, bit_or, ◌<<<◌, ◌>>>◌, Bool, false, ◌||◌, List, [], ◌∷◌}
use v.Base.{◌==◌}
use v.Base.{◌!=◌, bit_of}

unfoldable pub matches : ℕ → ℕ → ℕ → Bool
matches word mask value = bit_and word mask == value

-- `matches!(x, a | b | c)`
abbrev pub one_of : ℕ → List ℕ → Bool
one_of x [] = false
one_of x (a ∷ rest) = x == a || one_of x rest

-- `size != 3 || q`: an element of 64 bits needs the whole register.
abbrev pub not_d_or_q : ℕ → Bool → Bool
not_d_or_q size q = size != 3 || q

-- `opcode | ((size >> 1) << 5) | (u8::from(u) << 6)`
abbrev pub fp_opcode : ℕ → ℕ → Bool → ℕ
fp_opcode opcode size u = bit_or (bit_or opcode ((size >>> 1) <<< 5)) (bit_of u <<< 6)
