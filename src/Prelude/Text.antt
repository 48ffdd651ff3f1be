-- ===== src/Prelude/Text.antt =====
-- Texts: JavaScript strings as lists of code units, with the string operations that the program uses.
use Prim.Native.Nat.{ℕ}
use Prim.Native.Char.{code}
use Prim.Native.String.{String}
use mathlib.Core.Path.{◌≡◌, refl, ap}
use mathlib.Core.Bool.{Bool, true, false, ◌&&◌, ◌||◌}
use mathlib.Core.Logic.{◌↔◌, ◌≢◌, inl, inr}
use mathlib.Core.List.{List, [], ◌∷◌, ◌++◌, reverse}
use native.Mathlib.Omega.{arith}
use job_flow_web_application.Prelude.Tests.{leb, if◌then◌else◌, Bool-cases, eqb}

abbrev pub Text : Type 0
Text = List ℕ

-- A literal of the source.
unfoldable pub txt : String → Text
txt String.[] = []
txt (String.◌∷◌ c s) = code c ∷ txt s

-- `===` on strings
infix 50 ◌==◌
unfoldable pub ◌==◌ : Text → Text → Bool
[] == [] = true
[] == (_ ∷ _) = false
(_ ∷ _) == [] = false
(a ∷ s) == (b ∷ t) = eqb a b && s == t

pub eq_iff : (s t : Text) → ((s == t) ≡ true) ↔ (s ≡ t)
unfolding ◌==◌
eq_iff [] [] = (λ _. refl, λ _. refl)
eq_iff [] (b ∷ t) = (λ e. cc, λ e. cc)
eq_iff (a ∷ s) [] = (λ e. cc, λ e. cc)
eq_iff (a ∷ s) (b ∷ t) = ground (arith, eq_iff s t)

pub eq_refl : (s : Text) → (s == s) ≡ true
eq_refl s = (eq_iff s s).1 refl

-- the falsy string
abbrev pub is_empty : Text → Bool
is_empty [] = true
is_empty (_ ∷ _) = false

-- `a || b` on strings
abbrev pub or_else : Text → Text → Text
or_else [] d = d
or_else (c ∷ s) d = c ∷ s

pub or_else_of_nonempty : (s d : Text) → s ≢ [] → or_else s d ≡ s
or_else_of_nonempty [] d h = absurd (h refl)
or_else_of_nonempty (c ∷ s) d h = refl

pub or_else_idem : (s d : Text) → or_else (or_else s d) d ≡ or_else s d
or_else_idem [] [] = refl
or_else_idem [] (c ∷ d) = refl
or_else_idem (c ∷ s) d = refl

-- `s.startsWith(p)`, `s.includes(p)`, `s.endsWith(p)`
unfoldable pub starts_with : Text → Text → Bool
starts_with s [] = true
starts_with [] (_ ∷ _) = false
starts_with (a ∷ s) (b ∷ p) = eqb a b && starts_with s p

unfoldable pub includes : Text → Text → Bool
unfolding starts_with
includes [] p = starts_with [] p
includes (a ∷ s) p = starts_with (a ∷ s) p || includes s p

unfoldable pub ends_with : Text → Text → Bool
unfolding ◌==◌
ends_with [] p = [] == p
ends_with (a ∷ s) p = (a ∷ s) == p || ends_with s p

-- The code units that `\s` matches and `trim` strips.
unfoldable pub is_space : ℕ → Bool
is_space c =
    (leb 9 c && leb c 13)
    || eqb c 32
    || eqb c 160
    || eqb c 0x1680
    || (leb 0x2000 c && leb c 0x200a)
    || eqb c 0x2028
    || eqb c 0x2029
    || eqb c 0x202f
    || eqb c 0x205f
    || eqb c 0x3000
    || eqb c 0xfeff

unfoldable pub trim_start : Text → Text
unfolding is_space
trim_start [] = []
trim_start (c ∷ s) = let rest = trim_start s in if is_space c then rest else c ∷ s

unfoldable pub trim : Text → Text
unfolding trim_start
trim s = reverse (trim_start (reverse (trim_start s)))

-- `p` stands somewhere in `s`.
abbrev pub Contains : Text → Text → Type 0
Contains s p = (before : Text) × (after : Text) × (s ≡ before ++ (p ++ after))

starts_with_sound : (s p : Text) → starts_with s p ≡ true → (after : Text) × (s ≡ p ++ after)
unfolding starts_with
starts_with_sound s [] h = (s, refl)
starts_with_sound [] (b ∷ p) h = cc
starts_with_sound (a ∷ s) (b ∷ p) h =
    let (after, e) = starts_with_sound s p (ground arith) in (after, ground arith)

pub starts_with-append : (p after : Text) → starts_with (p ++ after) p ≡ true
unfolding starts_with
starts_with-append [] after = refl
starts_with-append (b ∷ p) after = ground (arith, starts_with-append p after)

includes_sound : (s p : Text) → includes s p ≡ true → Contains s p
unfolding includes starts_with
includes_sound [] [] h = ([], [], refl)
includes_sound [] (b ∷ p) h = cc
includes_sound (a ∷ s) p h = elim (Bool-cases (starts_with (a ∷ s) p)) [
  | inl now ↦ let (after, e) = starts_with_sound (a ∷ s) p now in ([], after, e)
  | inr later ↦
      let (before, after, e) = includes_sound s p (ground arith) in (a ∷ before, after, ap (a ∷◌) e)
]

includes_of_starts_with : (s p : Text) → starts_with s p ≡ true → includes s p ≡ true
unfolding includes
includes_of_starts_with [] p h = h
includes_of_starts_with (a ∷ s) p h = ground arith

includes-append : (before p after : Text) → includes (before ++ (p ++ after)) p ≡ true
unfolding includes
includes-append [] p after = includes_of_starts_with (p ++ after) p (starts_with-append p after)
includes-append (a ∷ before) p after = ground (arith, includes-append before p after)

-- `includes` finds exactly the texts that stand somewhere in `s`.
pub includes_iff : (s p : Text) → (includes s p ≡ true) ↔ Contains s p
includes_iff s p = (includes_sound s p, λ (before, after, e). rw e (includes-append before p after))
