-- ===== src/Sort/Laws.antt =====
-- Laws of the sort that the view and the dashboard use.
use mathlib.Core.List.{Perm}
use mathlib.Core.List.Perm
use job_flow_web_application.Prelude.{
  List, [], ◌∷◌, Bool, true, ◌≡◌, ◌⊎◌, inl, inr, refl, arith, All, filter, Bool-cases,
}
use job_flow_web_application.Prelude.Int.{ℤ, pos, leb_ℤ, ◌≤ℤ◌}
use job_flow_web_application.Sort.{insert_by, sort_by}

module _ {ℓ} {A : Type ℓ} (compare : A → A → ℤ) where
  -- `a` may stand before `b`.
  abbrev pub Before : A → A → Type 0
  Before a b = compare a b ≤ℤ pos 0

  -- Each element may stand before all that follow.
  abbrev pub IsSorted : List A → Type ℓ
  IsSorted [] = Unit
  IsSorted (x ∷ xs) = All (Before x) xs × IsSorted xs

  -- What ECMAScript asks of a comparator, on the elements that satisfy `P`.
  pub record IsConsistent (P : A → Type 0) : Type ℓ where
    pub total : (a b : A) → P a → P b → compare a b ≤ℤ pos 0 ⊎ compare b a ≤ℤ pos 0
    pub trans :
        (a b c : A)
        → P a
        → P b
        → P c
        → compare a b ≤ℤ pos 0
        → compare b c ≤ℤ pos 0
        → compare a c ≤ℤ pos 0

  insert_by-perm : (x : A) (ys : List A) → Perm (insert_by compare x ys) (x ∷ ys)
  unfolding insert_by
  insert_by-perm x [] = Perm.refl _
  insert_by-perm x (y ∷ ys) = elim (Bool-cases (leb_ℤ (compare x y) (pos 0))) [
    | inl first ↦ rw first (Perm.refl _)
    | inr later ↦ rw later (Perm.trans (Perm.cons y (insert_by-perm x ys)) (Perm.swap x y ys))
  ]

  pub sort_by-perm : (xs : List A) → Perm (sort_by compare xs) xs
  unfolding sort_by
  sort_by-perm [] = Perm.refl _
  sort_by-perm (x ∷ xs) =
      Perm.trans (insert_by-perm x (sort_by compare xs)) (Perm.cons x (sort_by-perm xs))

  All-insert_by :
      (P : A → Type 0) (x : A) (ys : List A) → P x → All P ys → All P (insert_by compare x ys)
  unfolding insert_by
  All-insert_by P x [] p h = (p, tt)
  All-insert_by P x (y ∷ ys) p (q, h) = elim (Bool-cases (leb_ℤ (compare x y) (pos 0))) [
    | inl first ↦ rw first (p, (q, h))
    | inr later ↦ rw later (q, All-insert_by P x ys p h)
  ]

  pub All-sort_by : (P : A → Type 0) (xs : List A) → All P xs → All P (sort_by compare xs)
  unfolding sort_by
  All-sort_by P [] h = tt
  All-sort_by P (x ∷ xs) (p, h) = All-insert_by P x (sort_by compare xs) p (All-sort_by P xs h)

  module _ {P : A → Type 0} (consistent : IsConsistent P) where
    All-Before_trans :
        (x y : A) (ys : List A)
        → P x
        → P y
        → All P ys
        → compare x y ≤ℤ pos 0
        → All (Before y) ys
        → All (Before x) ys
    All-Before_trans x y [] px py ps p h = tt
    All-Before_trans x y (z ∷ ys) px py (pz, ps) p (q, h) =
        (consistent.trans x y z px py pz p q, All-Before_trans x y ys px py ps p h)

    insert_by-IsSorted :
        (x : A) (ys : List A) → P x → All P ys → IsSorted ys → IsSorted (insert_by compare x ys)
    unfolding insert_by
    insert_by-IsSorted x [] px ps h = (tt, tt)
    insert_by-IsSorted x (y ∷ ys) px (py, ps) (q, h) =
        elim (Bool-cases (leb_ℤ (compare x y) (pos 0))) [
          | inl first ↦
              let le : compare x y ≤ℤ pos 0 = ground arith in
              rw first ((le, All-Before_trans x y ys px py ps le q), (q, h))
          | inr later ↦
              let ge : compare y x ≤ℤ pos 0 = ground (arith, consistent.total x y px py) in
              rw later (All-insert_by (Before y) x ys ge q, insert_by-IsSorted x ys px ps h)
        ]

    pub sort_by-IsSorted : (xs : List A) → All P xs → IsSorted (sort_by compare xs)
    unfolding sort_by
    sort_by-IsSorted [] ps = tt
    sort_by-IsSorted (x ∷ xs) (p, ps) =
        insert_by-IsSorted x (sort_by compare xs) p (All-sort_by P xs ps) (sort_by-IsSorted xs ps)

  -- Elements that tie keep their order: `p` picks a group in which each may stand before each.
  module _ (p : A → Bool) (tied : (a b : A) → p a ≡ true → p b ≡ true → Before a b) where
    filter-insert_by : (x : A) (ys : List A) → filter p (insert_by compare x ys) ≡ filter p (x ∷ ys)
    unfolding insert_by
    filter-insert_by x [] = refl
    filter-insert_by x (y ∷ ys) = ground (arith, filter-insert_by x ys, tied x y)

    pub filter-sort_by : (xs : List A) → filter p (sort_by compare xs) ≡ filter p xs
    unfolding sort_by
    filter-sort_by [] = refl
    filter-sort_by (x ∷ xs) =
        ground (arith, filter-insert_by x (sort_by compare xs), filter-sort_by xs)
