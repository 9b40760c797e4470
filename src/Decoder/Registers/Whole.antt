-- ===== src/Decoder/Registers/Whole.antt =====
-- The whole decoder names registers below 32.
use v.Base.{ℕ, bit_and}
use v.Base.{◌||◌, ◌==◌}
use v.Decoder.Fields.{field}
use v.Decoder.Registers.{InRange, Fits-InRange, Fits, Fits-if, Fits-unsupported}
use v.Decoder.Decode.{decode}
use v.Decoder.Registers.Memory
use v.Decoder.Registers.DpImm as ImmFits
use v.Decoder.Registers.DpReg as RegFits
use v.Decoder.Registers.Branch as BranchFits
use v.Decoder.Registers.Scalar as ScalarFits
use v.Decoder.Registers.Fp as FpFits
use v.Decoder.Registers.Neon as NeonFits

module _ (word : ℕ) where
  decode-Fits : Fits word (decode word)
  unfolding decode
  decode-Fits =
      let op0 = field word 25 4 in
      Fits-if word (bit_and op0 0b0101 == 0b0100) _ _ (Memory.decode-Fits word) (
        Fits-if word (op0 == 0b1000 || op0 == 0b1001) _ _ (ImmFits.decode-Fits word) (
          Fits-if word (op0 == 0b1010 || op0 == 0b1011) _ _ (BranchFits.decode-Fits word) (
            Fits-if word (op0 == 0b0101 || op0 == 0b1101) _ _ (RegFits.decode-Fits word) (
              Fits-if word (op0 == 0b1111) _ _
                (Fits-if word (field word 30 1 == 1) _ _ (ScalarFits.decode-Fits word)
                  (FpFits.decode-Fits word))
                (Fits-if word (op0 == 0b0111) _ _ (NeonFits.decode-Fits word)
                  (Fits-unsupported word))))))

  -- Every word decodes to an instruction whose register fields, general-purpose and vector, are all
  -- below 32. The registers after Rs and Rt, which a CASP uses too, are below 32 as well, unless Rs
  -- or Rt of the CASP is 31. Where a word is refused, the refusal carries the word itself.
  pub decode-InRange : InRange word (decode word)
  decode-InRange = Fits-InRange decode-Fits
