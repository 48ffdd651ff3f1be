-- ===== src/Format/Titles.antt =====
-- What a title is made of (`titleize` of web/src/utils/format.js).
use job_flow_web_application.Prelude.{
  ℕ, [], ◌∷◌, ◌++◌, Bool, true, false, ◌&&◌, not, ◌≡◌, refl, arith, All, Bool-cases, inl, inr,
  if◌then◌else◌,
}
use job_flow_web_application.Prelude.Text.{Text, is_space, trim_start, trim}
use mathlib.Core.List.{reverse, reverse-cons}
use job_flow_web_application.Format.{is_dash, is_word, to_upper, squeeze, capitalize, titleize}

abbrev pub HasNoDash : Text → Type 0
HasNoDash s = All (λ c. is_dash c ≡ false) s

blank-HasNoDash :
    (inside : Bool) (s : Text) → HasNoDash s → HasNoDash (if inside then s else 32 ∷ s)
blank-HasNoDash true s h = h
blank-HasNoDash false s h = (refl, h)

squeeze_dash-HasNoDash : (inside : Bool) (s : Text) → HasNoDash (squeeze is_dash inside s)
unfolding squeeze
squeeze_dash-HasNoDash inside [] = tt
squeeze_dash-HasNoDash inside (c ∷ s) = elim (Bool-cases (is_dash c)) [
  | inl dash ↦ rw dash (blank-HasNoDash inside _ (squeeze_dash-HasNoDash true s))
  | inr other ↦ rw other (other, squeeze_dash-HasNoDash false s)
]

squeeze-HasNoDash :
    (test : ℕ → Bool) (inside : Bool) (s : Text) → HasNoDash s → HasNoDash (squeeze test inside s)
unfolding squeeze
squeeze-HasNoDash test inside [] h = tt
squeeze-HasNoDash test inside (c ∷ s) (h, hs) = elim (Bool-cases (test c)) [
  | inl hit ↦ rw hit (blank-HasNoDash inside _ (squeeze-HasNoDash test true s hs))
  | inr other ↦ rw other (h, squeeze-HasNoDash test false s hs)
]

trim_start-HasNoDash : (s : Text) → HasNoDash s → HasNoDash (trim_start s)
unfolding trim_start
trim_start-HasNoDash [] h = tt
trim_start-HasNoDash (c ∷ s) (h, hs) = elim (Bool-cases (is_space c)) [
  | inl space ↦ rw space (trim_start-HasNoDash s hs)
  | inr other ↦ rw other (h, hs)
]

to_upper-HasNoDash : (c : ℕ) → is_dash c ≡ false → is_dash (to_upper c) ≡ false
unfolding to_upper
to_upper-HasNoDash c h = ground arith

capitalize-HasNoDash :
    (after_word : Bool) (s : Text) → HasNoDash s → HasNoDash (capitalize after_word s)
unfolding capitalize
capitalize-HasNoDash after_word [] h = tt
capitalize-HasNoDash after_word (c ∷ s) (h, hs) = (first, capitalize-HasNoDash (is_word c) s hs)
  where
    first : is_dash (if is_word c && not after_word then to_upper c else c) ≡ false
    first = elim (Bool-cases (is_word c && not after_word)) [
      | inl start ↦ rw start (to_upper-HasNoDash c h)
      | inr other ↦ rw other h
    ]

append-HasNoDash : (s t : Text) → HasNoDash s → HasNoDash t → HasNoDash (s ++ t)
append-HasNoDash [] t h k = k
append-HasNoDash (c ∷ s) t (h, hs) k = (h, append-HasNoDash s t hs k)

reverse-HasNoDash : (s : Text) → HasNoDash s → HasNoDash (reverse s)
reverse-HasNoDash [] h = tt
reverse-HasNoDash (c ∷ s) (h, hs) =
    rw (reverse-cons c s) (append-HasNoDash (reverse s) (c ∷ []) (reverse-HasNoDash s hs) (h, tt))

trim-HasNoDash : (s : Text) → HasNoDash s → HasNoDash (trim s)
unfolding trim
trim-HasNoDash s h =
    reverse-HasNoDash _ (trim_start-HasNoDash _ (reverse-HasNoDash _ (trim_start-HasNoDash s h)))

-- A title has no underscore and no dash, whatever the value.
pub titleize-HasNoDash : (value : Text) → HasNoDash (titleize value)
unfolding titleize
titleize-HasNoDash value =
    capitalize-HasNoDash false _
      (trim-HasNoDash _ (squeeze-HasNoDash is_space false _ (squeeze_dash-HasNoDash false value)))
