-- ===== src/Prelude/Members.antt =====
-- Membership in filtered lists, and the Boolean test of membership.
use mathlib.Core.List.{Mem, mem-cons, not-mem-nil, mem-cons_self, mem-cons_of_mem}
use mathlib.Core.Logic.Or
use mathlib.Core.Path.{◌≡◌, ap}
use mathlib.Core.Logic.{◌↔◌}
use mathlib.Core.Bool.{Bool, true}
use mathlib.Core.List.{List, [], ◌∷◌}
use job_flow_web_application.Prelude.Tests.{Bool-cases}
use job_flow_web_application.Prelude.Lists.{filter}
use mathlib.Core.Logic.{inl, inr}
use native.Mathlib.Omega.{arith}

pub true_prop : (b : Bool) → IsProp (b ≡ true)
true_prop b = hlevel

module _ {ℓ} {A : Type ℓ} (p : A → Bool) where
  mem_of_mem-filter : (a : A) (xs : List A) → Mem a (filter p xs) → Mem a xs
  mem_of_mem-filter a [] m = m
  mem_of_mem-filter a (x ∷ xs) m = elim (Bool-cases (p x)) [
    | inl kept ↦
        Or.elim squash₁ (mem-cons.0 (rw kept at m)) (λ e. rw e mem-cons_self)
          (λ m'. mem-cons_of_mem x (mem_of_mem-filter a xs m'))
    | inr dropped ↦ mem-cons_of_mem x (mem_of_mem-filter a xs (rw dropped at m))
  ]

  true_of_mem-filter : (a : A) (xs : List A) → Mem a (filter p xs) → p a ≡ true
  true_of_mem-filter a [] m = absurd (not-mem-nil m)
  true_of_mem-filter a (x ∷ xs) m = elim (Bool-cases (p x)) [
    | inl kept ↦
        Or.elim (true_prop (p a)) (mem-cons.0 (rw kept at m)) (λ e. rw e kept)
          (true_of_mem-filter a xs)
    | inr dropped ↦ true_of_mem-filter a xs (rw dropped at m)
  ]

  mem-filter_of : (a : A) (xs : List A) → Mem a xs → p a ≡ true → Mem a (filter p xs)
  mem-filter_of a [] m h = m
  mem-filter_of a (x ∷ xs) m h = elim (Bool-cases (p x)) [
    | inl kept ↦ rw kept (
        Or.elim squash₁ (mem-cons.0 m) (λ e. rw e mem-cons_self)
          (λ m'. mem-cons_of_mem x (mem-filter_of a xs m' h)))
    | inr dropped ↦ rw dropped (
        Or.elim squash₁ (mem-cons.0 m) (λ e. ground (arith, ap p e))
          (λ m'. mem-filter_of a xs m' h))
  ]

  -- A filtered list holds exactly the elements that pass.
  pub mem-filter : (a : A) (xs : List A) → Mem a (filter p xs) ↔ (Mem a xs × (p a ≡ true))
  mem-filter a xs =
      (λ m. (mem_of_mem-filter a xs m, true_of_mem-filter a xs m), λ (m, h). mem-filter_of a xs m h)
