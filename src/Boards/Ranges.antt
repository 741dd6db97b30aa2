-- ===== src/Boards/Ranges.antt =====
-- When the document of src/tests/VMon.cpp says that a card passed.
use penn_daq.Prelude.{
  ℕ, suc, ◌≡◌, ◌⊎◌, ◌↔◌, inl, inr, refl, List, [], ◌∷◌, Bool, true, false, not, ◌&&◌, ◌||◌, All,
  arith, Bool-cases, drop, get_or, leb, ltb, length, ap, sym, ◌∙◌,
}
use penn_daq.Boards.Volts.{
  Rail, Volt, vmon_doc, rails, check_volts, volt_of, is_outside, is_nan, rank, float_lt, float_le,
}

-- The bounds of a place are numbers.
abbrev HasBounds : Rail → Type 0
HasBounds r = (is_nan r.min ≡ false) × (is_nan r.max ≡ false)

-- An entry is in its range, or is not a number.
abbrev pub IsPassable : Volt → Type 0
IsPassable v = (v.ok ≡ true) ⊎ (is_nan v.value ≡ true)

leb-not : (a b : ℕ) → leb a b ≡ not (ltb b a)
leb-not a b = ground arith

float_le-not : (a b : ℕ) → is_nan a ≡ false → is_nan b ≡ false → float_le a b ≡ not (float_lt b a)
unfolding float_le float_lt
float_le-not a b ha hb = rw (ha, hb) (leb-not (rank a) (rank b))

float_lt_nan : (a b : ℕ) → is_nan a ≡ true → (float_lt a b ≡ false) × (float_lt b a ≡ false)
unfolding float_lt
float_lt_nan a b h =
    rw h (refl, elim (Bool-cases (is_nan b)) [ inl e ↦ rw e refl | inr e ↦ rw e refl ])

neither : (x y : Bool) {P : Type 0} → ¬ P → ((x || y) ≡ false) ↔ (((not x && not y) ≡ true) ⊎ P)
neither true y none = (
  (λ h. absurd (ground arith)),
  (λ h. elim h [ inl e ↦ absurd (ground arith) | inr p ↦ absurd (none p) ]),
)
neither false true none = (
  (λ h. absurd (ground arith)),
  (λ h. elim h [ inl e ↦ absurd (ground arith) | inr p ↦ absurd (none p) ]),
)
neither false false none = ((λ h. inl refl), (λ h. refl))

is_outside_iff :
    (r : Rail) (value : ℕ)
    → HasBounds r
    → (is_outside r value ≡ false) ↔ IsPassable (volt_of r value)
unfolding is_outside volt_of
is_outside_iff r value (low, high) = elim (Bool-cases (is_nan value)) [
  | inl nan ↦
      rw ((float_lt_nan value r.min nan).0, (float_lt_nan value r.max nan).1)
        ((λ h. inr nan), (λ h. refl))
  | inr num ↦
      rw (float_le-not r.min value low num, float_le-not value r.max num high)
        (neither (float_lt value r.min) (float_lt r.max value)
          (λ h. let t : true ≡ false = sym h ∙ num in ground arith))
]

check_volts_iff :
    (rs : List Rail) (values : List ℕ)
    → All HasBounds rs
    → ((check_volts rs values).1 ≡ true) ↔ All IsPassable (check_volts rs values).0
unfolding check_volts
check_volts_iff [] values bounds = ((λ h. tt), (λ h. refl))
check_volts_iff (r ∷ rs) values (bound, bounds) =
    let rest = check_volts_iff rs (drop 1 values) bounds in
    let one = is_outside_iff r (get_or values 0 0) bound in
    elim (Bool-cases (is_outside r (get_or values 0 0))) [
      | inl e ↦ rw e ((λ h. absurd (ground arith)), (λ h. absurd (ground (arith, one.1 h.0))))
      | inr e ↦ rw e ((λ h. (one.0 e, rest.0 h)), (λ h. rest.1 h.1))
    ]

length-check_volts :
    (rs : List Rail) (values : List ℕ) → length (check_volts rs values).0 ≡ length rs
unfolding check_volts
length-check_volts [] values = refl
length-check_volts (r ∷ rs) values = ap suc (length-check_volts rs (drop 1 values))

rails-HasBounds : All HasBounds rails
rails-HasBounds =
    (b, (b, (b, (b, (b, (b, (b, (b, (b, (b, (b, (b, (b, (b, (b, (b, (b, (b, tt))))))))))))))))))
  where
    b : (false ≡ false) × (false ≡ false)
    b = (refl, refl)

-- The document of a card has an entry for each of the 18 voltages that have a range, and says that the
-- card passed exactly when each of them is in its range or is not a number.
pub vmon_doc-pass :
    (slot : ℕ) (values : List ℕ)
    → (length (vmon_doc slot values).voltages ≡ 18)
      × (((vmon_doc slot values).pass ≡ true) ↔ All IsPassable (vmon_doc slot values).voltages)
unfolding vmon_doc
vmon_doc-pass slot values =
    (length-check_volts rails values, check_volts_iff rails values rails-HasBounds)
