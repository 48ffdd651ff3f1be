-- ===== src/Sort.antt =====
-- `Array.prototype.sort` with a comparator: the stable sort that ECMAScript requires.
pub mod Laws
use job_flow_web_application.Prelude.{List, [], ◌∷◌, if◌then◌else◌}
use job_flow_web_application.Prelude.Int.{ℤ, pos, leb_ℤ}

module _ {ℓ} {A : Type ℓ} (compare : A → A → ℤ) where
  pub insert_by : A → List A → List A
  insert_by x [] = x ∷ []
  insert_by x (y ∷ ys) =
      let later = insert_by x ys in if leb_ℤ (compare x y) (pos 0) then x ∷ y ∷ ys else y ∷ later

  unfoldable pub sort_by : List A → List A
  unfolding insert_by
  sort_by [] = []
  sort_by (x ∷ xs) = insert_by x (sort_by xs)
