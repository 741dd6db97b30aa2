-- ===== src/Xl3/Walks.antt =====
-- Where the walk over a megabundle ends: `XL3Link::ProcessPacket` of
-- src/xl3/XL3Link.cpp.
use penn_daq.Prelude.{
  ℕ, zero, suc, ◌+◌, ◌-◌, ◌≤◌, ◌<◌, ◌≡◌, refl, ap, ◌∙◌, ◌⊎◌, inl, inr, List, [], ◌∷◌, ◌++◌, true,
  false, some, drop, length, length-drop, All, arith, append_assoc, sym, take, length-take,
  Bool-cases, ltb,
}
use penn_daq.Xl3.Mega.{Walk, mini_size, is_passcur, mini_loop}
use penn_daq.Xl3.Bundles.{Mini, flat, bundles_in, count_mini-some, counted_after, goes_on}

take_parts :
    (k n : ℕ) (words : List ℕ) → k ≤ n → take n words ≡ take k words ++ take (n - k) (drop k words)
take_parts zero n words h = ap (λ m. take m words) {x = n} {y = n - 0} (omega arith)
take_parts (suc k) zero words h = absurd (omega arith)
take_parts (suc k) (suc n) [] h = take_nil (suc n - suc k)
  where
    take_nil : (m : ℕ) → [] ≡ take {A = ℕ} m []
    take_nil zero = refl
    take_nil (suc m) = refl
take_parts (suc k) (suc n) (w ∷ words) h =
    ap (λ ws. w ∷ ws)
      (take_parts k n words (omega arith)
        ∙ ap (λ m. take k words ++ take m (drop k words)) {x = n - k} {y = suc n - suc k}
            (omega arith))

-- The header has the size of the words.
abbrev pub IsWholeMini : Mini → Type 0
IsWholeMini m = mini_size m.info ≡ length m.words

-- The words of the megabundle are whole minibundles, and their bundles were counted.
pub record IsCounted (part : List ℕ) (n : ℕ) (w : Walk) : Type 0 where
  pub minis : List Mini
  pub whole : All IsWholeMini minis
  pub words : part ≡ flat minis
  pub result : w ≡ record { num_bundles = n + bundles_in minis; corrupted = false }

-- Behind some whole minibundles there is a header with a size that is greater than what is left.
pub record IsCutShort (part : List ℕ) (n : ℕ) (w : Walk) : Type 0 where
  pub minis : List Mini
  pub whole : All IsWholeMini minis
  pub info : ℕ
  pub rest : List ℕ
  pub words : part ≡ flat minis ++ info ∷ rest
  pub too_large : length rest < mini_size info
  pub result :
      w ≡ record { num_bundles = counted_after info (n + bundles_in minis); corrupted = true }

add_mini :
    (info size n : ℕ) (words : List ℕ) (minis : List Mini)
    → mini_size info ≡ length words
    → counted_after info n + bundles_in minis
      ≡ n + bundles_in (record { info = info; words = words } ∷ minis)
add_mini info size n words minis e = elim (Bool-cases (is_passcur info)) [
  | inl p ↦ rw p refl
  | inr p ↦ rw (p, e) (omega arith)
]

module _ (info left n : ℕ) (words : List ℕ) (room : left < length words)
    (fits : mini_size info ≤ left) where
  abbrev mini : Mini
  mini = record { info = info; words = take (mini_size info) words }

  mini-IsWholeMini : IsWholeMini mini
  mini-IsWholeMini = omega (arith, length-take (mini_size info) words)

  parted :
      take left words
      ≡ take (mini_size info) words ++ take (left - mini_size info) (drop (mini_size info) words)
  parted = take_parts (mini_size info) left words fits

  count :
      (minis : List Mini) → counted_after info n + bundles_in minis ≡ n + bundles_in (mini ∷ minis)
  count minis = add_mini info 0 n (take (mini_size info) words) minis mini-IsWholeMini

  one_more :
      (w : Walk)
      → IsCounted
          (take (left - mini_size info) (drop (mini_size info) words))
          (counted_after info n)
          w
      → IsCounted (info ∷ take left words) n w
  one_more w c = record {
    minis = mini ∷ c.minis;
    whole = (mini-IsWholeMini, c.whole);
    words = ap (λ ws. info ∷ ws) (parted ∙ ap (λ ws. take (mini_size info) words ++ ws) c.words);
    result = c.result ∙ ap (λ k. record { num_bundles = k; corrupted = false }) (count c.minis);
  }

  one_more_cut :
      (w : Walk)
      → IsCutShort
          (take (left - mini_size info) (drop (mini_size info) words))
          (counted_after info n)
          w
      → IsCutShort (info ∷ take left words) n w
  one_more_cut w c = record {
    minis = mini ∷ c.minis;
    whole = (mini-IsWholeMini, c.whole);
    info = c.info;
    rest = c.rest;
    words =
        ap (λ ws. info ∷ ws)
          (parted
            ∙ ap (λ ws. take (mini_size info) words ++ ws) c.words
            ∙ sym (append_assoc (take (mini_size info) words) (flat c.minis) (c.info ∷ c.rest)));
    too_large = c.too_large;
    result =
        c.result
        ∙ ap (λ k. record { num_bundles = counted_after c.info k; corrupted = true })
            (count c.minis);
  }

-- With a word behind the megabundle in the packet, and as many rounds as it has words, the walk ends:
-- either the words are whole minibundles, and it has counted the bundles of all of them, or a header
-- says more words than are left, and it has found that one corrupted, behind the whole ones.
pub mini_loop-ends :
    (fuel : ℕ) (words : List ℕ) (left n : ℕ)
    → left < length words
    → left ≤ fuel
    → (w : Walk) × (mini_loop fuel words left n ≡ some w)
      × (IsCounted (take left words) n w ⊎ IsCutShort (take left words) n w)
unfolding mini_loop
mini_loop-ends fuel words zero n room f = (
  record { num_bundles = n; corrupted = false },
  refl,
  inl (record {
    minis = [];
    whole = tt;
    words = refl;
    result =
        ap (λ k. record { num_bundles = k; corrupted = false }) {x = n} {y = n + 0} (omega arith);
  }),
)
mini_loop-ends zero words (suc left) n room f = absurd (omega arith)
mini_loop-ends (suc fuel) [] (suc left) n room f = absurd (omega arith)
mini_loop-ends (suc fuel) (info ∷ words) (suc left) n room f =
    elim (Bool-cases (ltb left (mini_size info))) [
      | inl b ↦ (
        record { num_bundles = counted_after info n; corrupted = true },
        rw (mini_loop, count_mini-some info n words (inr (omega arith)), b) refl,
        inr (record {
          minis = [];
          whole = tt;
          info = info;
          rest = take left words;
          words = refl;
          too_large = ground (arith, length-take left words);
          result =
              ap (λ k. record { num_bundles = counted_after info k; corrupted = true }) {x = n}
                {y = n + 0} (omega arith);
        }),
      )
      | inr b ↦
          let fits : mini_size info ≤ left = ground arith in
          let (w, e, found) =
            mini_loop-ends fuel (drop (mini_size info) words) (left - mini_size info)
              (counted_after info n) (omega (arith, length-drop (mini_size info) words))
              (omega arith) in
          (
            w,
            goes_on fuel info left n words fits (inr (omega arith)) ∙ e,
            elim found [
              | inl c ↦ inl (one_more info left n words (omega arith) fits w c)
              | inr c ↦ inr (one_more_cut info left n words (omega arith) fits w c)
            ],
          )
    ]
