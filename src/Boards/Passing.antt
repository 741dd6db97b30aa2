-- ===== src/Boards/Passing.antt =====
-- When the documents of src/tests/FECTest.cpp and src/tests/ZDisc.cpp say that a board passed.
use penn_daq.Prelude.{
  ℕ, zero, suc, ◌^◌, ◌<◌, ◌≡◌, ◌≢◌, ◌↔◌, inl, inr, refl, ap, subst, sym, List, [], ◌∷◌, ◌++◌, map,
  Bool, true, false, ◌&&◌, ◌==◌, ==_iff, All, arith, bit, bit-zero, Bool-cases, drop, get_or,
  length,
}
use penn_daq.Locks.{selected}
use penn_daq.Locks.Laws.{selected_iff}
use penn_daq.Controller.Commands.{upto}
use penn_daq.Boards.Registers.{FecDoc, bit_clear, fec_doc}
use penn_daq.Boards.Discriminator.{channel_error, channel_errors, zdisc_doc}

-- Every register of the document reads back.
pub record IsGood (doc : FecDoc) : Type 0 where
  pub pedestal : doc.pedestal ≡ true
  pub chip_disable : doc.chip_disable ≡ true
  pub lgi_select : doc.lgi_select ≡ true
  pub cmos_prog_low : doc.cmos_prog_low ≡ true
  pub cmos_prog_high : doc.cmos_prog_high ≡ true
  pub cmos_test_reg : All (λ ok. ok ≡ true) doc.cmos_test_reg

bit_clear→bit : (errors k : ℕ) → bit_clear errors k ≡ true → bit errors k ≢ 1
bit_clear→bit errors k h e =
    let s : selected errors k ≡ true = (selected_iff errors k).1 e in
    let t : false ≡ true = rw s at h in ground arith

All-append_right : (xs ys : List Bool) → All (λ ok. ok ≡ true) (xs ++ ys) → All (λ ok. ok ≡ true) ys
All-append_right [] ys h = h
All-append_right (x ∷ xs) ys h = All-append_right xs ys h.1

split_and : (a b : Bool) → (a && b) ≡ true → (a ≡ true) × (b ≡ true)
split_and true true h = (refl, refl)
split_and true false h = absurd (ground arith)
split_and false b h = absurd (ground arith)

clear_zero :
    (ks : List ℕ) (ys : List Bool)
    → All (λ ok. ok ≡ true) ys
    → All (λ ok. ok ≡ true) (map (bit_clear 0) ks ++ ys)
clear_zero [] ys h = h
clear_zero (k ∷ ks) ys h = (none_set k, clear_zero ks ys h)
  where
    none_set : (k : ℕ) → bit_clear 0 k ≡ true
    none_set k = elim (Bool-cases (selected 0 k)) [
      | inl e ↦ absurd (omega (arith, (selected_iff 0 k).0 e, bit-zero k))
      | inr e ↦ rw e refl
    ]

fec_doc-IsGood : (slot : ℕ) → IsGood (fec_doc slot 0 0)
unfolding fec_doc selected
fec_doc-IsGood slot = record {
  pedestal = refl;
  chip_disable = refl;
  lgi_select = refl;
  cmos_prog_low = refl;
  cmos_prog_high = refl;
  cmos_test_reg = clear_zero (upto 32) (true ∷ []) (refl, tt);
}

-- The document of a front-end card says that it passed exactly when every register in it reads back,
-- when the discrete errors are those of the five registers that it names.
pub fec_doc-pass :
    (slot discrete cmos : ℕ)
    → discrete < 2 ^ 5
    → ((fec_doc slot discrete cmos).pass ≡ true) ↔ IsGood (fec_doc slot discrete cmos)
unfolding fec_doc
fec_doc-pass slot discrete cmos few = (
  (λ h.
      let (d, c) = split_and (discrete == 0) (cmos == 0) h in
      subst (λ t. IsGood (fec_doc slot t cmos)) (sym ((==_iff discrete 0).0 d))
        (subst (λ t. IsGood (fec_doc slot 0 t)) (sym ((==_iff cmos 0).0 c)) (fec_doc-IsGood slot))),
  (λ g.
      let n0 : bit discrete 0 ≢ 1 = bit_clear→bit discrete 0 g.pedestal in
      let n1 : bit discrete 1 ≢ 1 = bit_clear→bit discrete 1 g.chip_disable in
      let n2 : bit discrete 2 ≢ 1 = bit_clear→bit discrete 2 g.lgi_select in
      let n3 : bit discrete 3 ≢ 1 = bit_clear→bit discrete 3 g.cmos_prog_low in
      let n4 : bit discrete 4 ≢ 1 = bit_clear→bit discrete 4 g.cmos_prog_high in
      let d : discrete ≡ 0 = omega (arith, n0, n1, n2, n3, n4, few) in
      let c : (cmos == 0) ≡ true =
        (All-append_right (map (bit_clear cmos) (upto 32)) ((cmos == 0) ∷ []) g.cmos_test_reg).0 in
      rw ((==_iff discrete 0).1 d, c) refl),
)

no_errors :
    (n : ℕ) (a b c d : List ℕ)
    → ((channel_errors n a b c d).1 ≡ true) ↔ All (λ e. e ≡ false) (channel_errors n a b c d).0
unfolding channel_errors
no_errors zero a b c d = ((λ h. tt), (λ h. refl))
no_errors (suc n) a b c d =
    let rest = no_errors n (drop 1 a) (drop 1 b) (drop 1 c) (drop 1 d) in
    elim (Bool-cases (channel_error (get_or a 0 0) (get_or b 0 0) (get_or c 0 0) (get_or d 0 0))) [
      | inl e ↦ rw e ((λ h. absurd (ground arith)), (λ h. absurd (ground arith)))
      | inr e ↦ rw e ((λ h. (refl, rest.0 h)), (λ h. rest.1 h.1))
    ]

length-channel_errors : (n : ℕ) (a b c d : List ℕ) → length (channel_errors n a b c d).0 ≡ n
unfolding channel_errors
length-channel_errors zero a b c d = refl
length-channel_errors (suc n) a b c d =
    ap suc (length-channel_errors n (drop 1 a) (drop 1 b) (drop 1 c) (drop 1 d))

-- The document of the discriminators has an entry for each of the 32 channels, and says that it passed
-- exactly when none of them is an error.
pub zdisc_doc-pass :
    (slot rate : ℕ) (results : List ℕ)
    → (length (zdisc_doc slot rate results).errors ≡ 32)
      × (((zdisc_doc slot rate results).pass ≡ true)
          ↔ All (λ e. e ≡ false) (zdisc_doc slot rate results).errors)
unfolding zdisc_doc
zdisc_doc-pass slot rate results = (length-channel_errors 32 _ _ _ _, no_errors 32 _ _ _ _)
