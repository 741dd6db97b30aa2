-- ===== src/Db/Defaults.antt =====
-- What a card gets when the views of the database have no say.
use penn_daq.Prelude.{
  ℕ, arith, zero, suc, none, some, if◌then◌else◌, ◌∙◌, ◌==◌, ◌≡◌, ◌⊎◌, inl, inr, refl, List, Bool,
  true, false, not, ◌&&◌, ◌||◌, Bool-cases, Option,
}
use mathlib.Core.Bool.{and-false}
use penn_daq.Db.Json.{Json}
use penn_daq.Db.Constants.{Mb, parse_fec_debug, parse_fec_hw}
use penn_daq.Db.Overrides.{
  or_fault, put_hw, Step, ◌>>=◌, got, Query, Uses, look_up, with_hw, with_thresholds, with_views,
  fec_settings,
}

not_zero : (n : ℕ) → (suc n == 0) ≡ false
not_zero n = ground arith

module _ (json : Json) (ask : Query → Option json.Node) where
  open json use {Node, find_member, find_element}

  look_up_unwanted :
      (mb_id : ℕ) (query : Query) (put : Node → Mb → Step Mb) (mb : Mb)
      → look_up json ask false mb_id query put mb ≡ got mb
  unfolding look_up
  look_up_unwanted mb_id query put mb = refl

  look_up_unknown :
      (wanted : Bool) (query : Query) (put : Node → Mb → Step Mb) (mb : Mb)
      → look_up json ask wanted 0 query put mb ≡ got mb
  unfolding look_up
  look_up_unknown true query put mb = refl
  look_up_unknown false query put mb = refl

  with_thresholds_unknown :
      (uses : Uses) (in_mask : Bool) (db_id : List ℕ) (mb : Mb)
      → with_thresholds json ask uses in_mask 0 db_id mb ≡ got mb
  unfolding with_thresholds
  with_thresholds_unknown uses in_mask db_id mb =
      elim (Bool-cases ((uses.noise || uses.all && not uses.vthr) && in_mask)) [
        | inl e ↦ rw e (look_up_unknown true _ _ mb)
        | inr e ↦ rw e (look_up_unknown _ _ _ mb)
      ]

  with_thresholds_outside :
      (uses : Uses) (mb_id : ℕ) (db_id : List ℕ) (mb : Mb)
      → with_thresholds json ask uses false mb_id db_id mb ≡ got mb
  unfolding with_thresholds
  with_thresholds_outside uses mb_id db_id mb = simp (and-false, look_up_unwanted)

  -- The views have no say on a card outside the mask, nor on one whose mother board is not known.
  with_views_silent :
      (uses : Uses) (in_mask : Bool) (mb_id : ℕ) (db_id : List ℕ) (mb : Mb)
      → (in_mask ≡ false) ⊎ (mb_id ≡ 0)
      → with_views json ask uses in_mask mb_id db_id mb ≡ got mb
  unfolding with_views
  with_views_silent uses in_mask mb_id db_id mb (inl e) =
      rw e (simp (and-false, look_up_unwanted, with_thresholds_outside))
  with_views_silent uses in_mask mb_id db_id mb (inr e) =
      rw e (simp (look_up_unknown, with_thresholds_unknown))

  -- What a card gets when the views have no say: by whether it is in the mask, the value of `useHw`, and
  -- the rows of the document of its last ECAL.
  abbrev pub without_views : Bool → ℕ → Option Node → Mb → Step Mb
  without_views false hw rows mb = got mb
  without_views true zero rows mb = got mb
  without_views true (suc hw) none mb = Step.fault
  without_views true (suc hw) (some rows) mb =
      or_fault (parse_fec_hw json (find_member (find_element rows 0) "value") mb)

  with_hw-eq :
      (uses : Uses) (in_mask : Bool) (rows : Option Node) (mb : Mb)
      → with_hw json ask uses in_mask rows mb ≡ without_views in_mask uses.hw rows mb
  with_hw-eq uses in_mask rows mb = by_case uses.hw in_mask rows
    where
      by_case :
          (hw : ℕ) (m : Bool) (r : Option Node)
          → (if not (hw == 0) && m then put_hw json ask r mb else got mb) ≡ without_views m hw r mb
      by_case zero true r = refl
      by_case zero false r = refl
      by_case (suc hw) true none = rw (not_zero hw) refl
      by_case (suc hw) true (some r) = rw (not_zero hw) refl
      by_case (suc hw) false r = rw (not_zero hw) refl

  -- Whatever the flags are and whatever the views of the database say: a card that is not in the slot
  -- mask gets the constants of the document of defaults. A card of the mask whose mother board is not
  -- known gets them too when `useHw` is 0, and else those of its last ECAL over them, where the rows
  -- were fetched and have the identifiers.
  pub fec_settings_defaults :
      (uses : Uses) (in_mask : Bool) (mb_id : ℕ) (db_id : List ℕ) (debug_doc : Node)
      (rows : Option Node) (mb : Mb)
      → (in_mask ≡ false) ⊎ (mb_id ≡ 0)
      → fec_settings json ask uses in_mask mb_id db_id debug_doc rows mb
        ≡ without_views in_mask uses.hw rows (parse_fec_debug json debug_doc mb)
  unfolding fec_settings
  fec_settings_defaults uses in_mask mb_id db_id debug_doc rows mb silent =
      unchanged (with_hw json ask uses in_mask rows (parse_fec_debug json debug_doc mb))
      ∙ with_hw-eq uses in_mask rows (parse_fec_debug json debug_doc mb)
    where
      unchanged : (s : Step Mb) → (s >>= with_views json ask uses in_mask mb_id db_id) ≡ s
      unchanged (got m) = with_views_silent uses in_mask mb_id db_id m silent
      unchanged Step.given_up = refl
      unchanged Step.fault = refl
