-- ===== src/Decoder/Registers/Branch.antt =====
-- The decoder of branches and system instructions names registers below 32.
use v.Base.{ℕ, refl, ◌&&◌}
use v.Base.{◌||◌, ◌==◌, ◌!=◌, ltb}
use v.Decoder.Fields.{field, rd-lt, rn-lt}
use v.Decoder.Registers.{named, Fits, Fits-if, Fits-unsupported, Fits-named}
use v.Decoder.Branch

module _ (word : ℕ) where
  branch_imm-Fits : Fits word (Branch.branch_imm word)
  unfolding Branch.branch_imm named
  branch_imm-Fits = Fits-named word _ refl tt

  compare_branch-Fits : Fits word (Branch.compare_branch word)
  unfolding Branch.compare_branch named
  compare_branch-Fits = Fits-named word _ refl (rd-lt word, tt)

  test_branch-Fits : Fits word (Branch.test_branch word)
  unfolding Branch.test_branch named
  test_branch-Fits = Fits-named word _ refl (rd-lt word, tt)

  cond_branch-Fits : Fits word (Branch.cond_branch word)
  unfolding Branch.cond_branch named
  cond_branch-Fits =
      Fits-if word (field word 4 1 != 0 || field word 24 1 != 0) _ _ (Fits-unsupported word)
        (Fits-named word _ refl tt)

  branch_reg-Fits : Fits word (Branch.branch_reg word)
  unfolding Branch.branch_reg named
  branch_reg-Fits =
      let opc = field word 21 4 in
      Fits-if word (field word 16 5 != 0b11111 || field word 10 6 != 0 || field word 0 5 != 0) _ _
        (Fits-unsupported word)
        (Fits-if word (opc == 0b0100 && (field word 5 5 == 0b11111)) _ _ (Fits-named word _ refl tt)
          (Fits-if word (ltb 2 opc) _ _ (Fits-unsupported word)
            (Fits-named word _ refl (rn-lt word, tt))))

  hints-Fits : Fits word (Branch.hints word)
  unfolding Branch.hints named
  hints-Fits =
      let crn = field word 12 4 in
      let crm = field word 8 4 in
      let op2 = field word 5 3 in
      Fits-if word ((field word 21 1 == 1) || field word 0 5 != 31) _ _ (Fits-unsupported word) (
        Fits-if word (crn == 2) _ _
          (Fits-if word (crm == 0 && op2 == 2) _ _ (Fits-named word _ refl tt) (
            Fits-if word (crm == 0 && op2 == 3) _ _ (Fits-named word _ refl tt)
              (Fits-named word _ refl tt)))
          (Fits-if word (crn == 3) _ _ (Fits-named word _ refl tt)
            (Fits-if word (crn == 4) _ _ (Fits-named word _ refl tt) (Fits-unsupported word))))

  maintenance-Fits : Fits word (Branch.maintenance word)
  unfolding Branch.maintenance named
  maintenance-Fits =
      let store = field word 21 1 == 0 in
      let op1 = field word 16 3 in
      let crn = field word 12 4 in
      let crm = field word 8 4 in
      let op2 = field word 5 3 in
      Fits-if word (store && op1 == 0b011 && crn == 0b0111 && crm == 0b0100 && op2 == 0b001) _ _
        (Fits-named word _ refl (rd-lt word, tt))
        (Fits-if word (store && crn == 0b1000) _ _ (Fits-named word _ refl tt) (
          Fits-if word (store && crn == 0b0111 && (crm == 0b0001 || crm == 0b0101)) _ _
            (Fits-named word _ refl tt) (Fits-named word _ refl tt)))

  system-Fits : Fits word (Branch.system word)
  unfolding Branch.system named
  system-Fits =
      let op0 = field word 19 2 in
      Fits-if word (op0 == 0) _ _ (hints-Fits)
        (Fits-if word (op0 == 1) _ _ (maintenance-Fits) (Fits-named word _ refl (rd-lt word, tt)))

  exception-Fits : Fits word (Branch.exception word)
  unfolding Branch.exception named
  exception-Fits =
      let imm16 = field word 5 16 in
      let opc = field word 21 3 in
      let ll = field word 0 2 in
      Fits-if word (opc == 0 && ll == 1) _ _ (Fits-named word _ refl tt) (
        Fits-if word (opc == 0 && ll == 2) _ _ (Fits-named word _ refl tt) (
          Fits-if word (opc == 0 && ll == 3) _ _ (Fits-named word _ refl tt) (
            Fits-if word (opc == 1 && ll == 0) _ _ (Fits-named word _ refl tt)
              (Fits-unsupported word))))

  pub decode-Fits : Fits word (Branch.decode word)
  unfolding Branch.decode named
  decode-Fits = Fits-if word (field word 26 5 == 0b00101) _ _ (branch_imm-Fits) (
      Fits-if word (field word 25 6 == 0b011010) _ _ (compare_branch-Fits) (
        Fits-if word (field word 25 6 == 0b011011) _ _ (test_branch-Fits) (
          Fits-if word (field word 24 8 == 0b0101_0100) _ _ (cond_branch-Fits) (
            Fits-if word (field word 25 7 == 0b1101011) _ _ (branch_reg-Fits) (
              Fits-if word (field word 22 10 == 0b1101010100) _ _ (system-Fits) (
                Fits-if word (field word 24 8 == 0b1101_0100) _ _ (exception-Fits)
                  (Fits-unsupported word)))))))
