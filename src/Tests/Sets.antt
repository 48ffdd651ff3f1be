-- ===== src/Tests/Sets.antt =====
-- Sorted sets as lists of members with their scores, of which the first one of a member counts.
use mathlib.Core.Path.{subst}
use job_flow_web_application.Prelude.{
  List, [], ◌∷◌, true, false, Option, none, some, Bool-cases, ◌≡◌, inl, inr, refl, ap, sym, ◌∙◌,
  arith, filter, not, length, map, if◌then◌else◌,
}
use job_flow_web_application.Prelude.Int.{ℤ, leb_ℤ, ◌≤ℤ◌}
use job_flow_web_application.Prelude.Text.{Text, ◌==◌, eq_iff, eq_refl}
use job_flow_web_application.Table.{contains}
use job_flow_web_application.Server.Queue.{SortedSets, IsSortedSets}

abbrev pub Members : Type 0
Members = List (Text × ℤ)

abbrev score_in : Text → Members → Option ℤ
score_in n [] = none
score_in n ((m, s) ∷ z) = let rest = score_in n z in if m == n then some s else rest

abbrev without : Text → Members → Members
without m z = filter (λ entry. not (entry.0 == m)) z

abbrev less : Text × ℤ → Option (Text × ℤ) → Text × ℤ
less entry none = entry
less entry (some other) = if leb_ℤ entry.1 other.1 then entry else other

-- The member with the least score, apart from some.
abbrev best : List Text → Members → Option (Text × ℤ)
best seen [] = none
best seen ((m, s) ∷ z) =
    let old = best seen z in
    let others = best (m ∷ seen) z in if contains seen m then old else some (less (m, s) others)

abbrev take_out : Members → Option (Text × ℤ) → Option (Text × Members)
take_out z none = none
take_out z (some entry) = some (entry.0, without entry.0 z)

abbrev pub sets : SortedSets Members
sets = record {
  score = score_in;
  zadd = λ s m z. (m, s) ∷ z;
  zrem = without;
  zpopmin = λ z. take_out z (best [] z);
  up_to = λ s z. map (λ entry. entry.0) (filter (λ entry. leb_ℤ entry.1 s) z);
  zcard = length;
}

score_in-without :
    (m n : Text) (z : Members) → score_in n (without m z) ≡ (if m == n then none else score_in n z)
score_in-without m n [] = ground arith
score_in-without m n ((k, s) ∷ z) =
    ground (arith, eq_iff k m, eq_iff k n, eq_iff m n, score_in-without m n z)

-- The member that is found: its score is the least of the others.
abbrev IsBest : List Text → Members → Option (Text × ℤ) → Type 0
IsBest seen z none = (n : Text) → contains seen n ≡ false → score_in n z ≡ none
IsBest seen z (some (m, s)) =
    (contains seen m ≡ false)
    × (score_in m z ≡ some s)
    × ((n : Text) (t : ℤ) → contains seen n ≡ false → score_in n z ≡ some t → s ≤ℤ t)

unlike :
    (seen : List Text) (m n : Text)
    → contains seen m ≡ true
    → contains seen n ≡ false
    → (m == n) ≡ false
unlike seen m n old new = elim (Bool-cases (m == n)) [
  | inr apart ↦ apart
  | inl this ↦ let wrong : true ≡ false = sym (rw ((eq_iff m n).0 this) at old) ∙ new in cc
]

IsBest-skip :
    (seen : List Text) (m : Text) (s : ℤ) (z : Members) (o : Option (Text × ℤ))
    → contains seen m ≡ true
    → IsBest seen z o
    → IsBest seen ((m, s) ∷ z) o
IsBest-skip seen m s z none old h = λ n new. rw (unlike seen m n old new) (h n new)
IsBest-skip seen m s z (some (k, t)) old (new, is, least) = (
  new,
  rw (unlike seen m k old new) is,
  λ n u fresh scored. least n u fresh (rw (unlike seen m n old fresh) at scored),
)

less_other : (a b : Text × ℤ) → leb_ℤ a.1 b.1 ≡ false → less a (some b) ≡ b
less_other a b gt = rw gt refl

IsBest-take :
    (seen : List Text) (m : Text) (s : ℤ) (z : Members) (o : Option (Text × ℤ))
    → contains seen m ≡ false
    → IsBest (m ∷ seen) z o
    → IsBest seen ((m, s) ∷ z) (some (less (m, s) o))
unfolding contains
IsBest-take seen m s z none new h = (
  new,
  rw (eq_refl m) refl,
  λ n t fresh scored. elim (Bool-cases (m == n)) [
    | inl this ↦
        let same : some s ≡ some t = rw this at scored in let e : s ≡ t = cc in rw e (omega arith)
    | inr apart ↦ let gone : none ≡ some t = sym (h n (ground arith)) ∙ rw apart at scored in cc
  ],
)
IsBest-take seen m s z (some (k, t')) new (other, is, least) = elim (Bool-cases (leb_ℤ s t')) [
  | inl le ↦ rw le (
    new,
    rw (eq_refl m) refl,
    λ n t fresh scored. elim (Bool-cases (m == n)) [
      | inl this ↦
          let same : some s ≡ some t = rw this at scored in let e : s ≡ t = cc in rw e (omega arith)
      | inr apart ↦
          let more = least n t (ground arith) (rw apart at scored) in ground (arith, le, more)
    ],
  )
  | inr gt ↦
      let apart_k : (m == k) ≡ false = ground (arith, eq_iff m k, eq_iff k m, other) in
      let chosen = less_other (m, s) (k, t') gt in
      subst (λ o. IsBest seen ((m, s) ∷ z) (some o)) (sym chosen)
        (
          ground arith,
          rw apart_k is,
          λ n t fresh scored. elim (Bool-cases (m == n)) [
            | inl this ↦
                let same : some s ≡ some t = rw this at scored in
                let e : s ≡ t = cc in rw (sym e) (ground (arith, gt))
            | inr apart ↦ least n t (ground arith) (rw apart at scored)
          ],
        )
]

best-IsBest : (seen : List Text) (z : Members) → IsBest seen z (best seen z)
best-IsBest seen [] = λ n new. refl
best-IsBest seen ((m, s) ∷ z) = elim (Bool-cases (contains seen m)) [
  | inl old ↦ rw old (IsBest-skip seen m s z (best seen z) old (best-IsBest seen z))
  | inr new ↦ rw new (IsBest-take seen m s z (best (m ∷ seen) z) new (best-IsBest (m ∷ seen) z))
]

absent_of_take_out :
    (z : Members) (o : Option (Text × ℤ))
    → take_out z o ≡ none
    → IsBest [] z o
    → (m : Text) → score_in m z ≡ none
unfolding contains
absent_of_take_out z none e h m = h m refl
absent_of_take_out z (some entry) e h m = cc

taken :
    (z rest : Members) (m : Text) (o : Option (Text × ℤ))
    → take_out z o ≡ some (m, rest)
    → IsBest [] z o
    → (s : ℤ) × IsBest [] z (some (m, s)) × (rest ≡ without m z)
taken z rest m none e h = cc
taken z rest m (some (k, s)) e h =
    let made : Text × Members = (k, without k z) in
    let wanted : Text × Members = (m, rest) in
    let same : some made ≡ some wanted = e in
    let pair : made ≡ wanted = cc in
    let name : k ≡ m = ap (λ p. p.0) pair in
    let left : without k z ≡ rest = ap (λ p. p.1) pair in
    (s, rw name at h, sym left ∙ ap (λ x. without x z) name)

taken_out :
    (z rest : Members) (m : Text)
    → take_out z (best [] z) ≡ some (m, rest)
    → (s : ℤ) × IsBest [] z (some (m, s)) × (rest ≡ without m z)
taken_out z rest m e = taken z rest m (best [] z) e (best-IsBest [] z)

pub sets-IsSortedSets : IsSortedSets sets
unfolding contains
sets-IsSortedSets = record {
  score-zadd = λ s m n z. refl;
  zpopmin_empty = λ z m empty. absent_of_take_out z (best [] z) empty (best-IsBest [] z) m;
  zpopmin_held = λ z rest m pops none_there.
      let (s, (new, is, least), left) = taken_out z rest m pops in
      let wrong : some s ≡ none = sym is ∙ none_there in cc;
  zpopmin_least = λ z rest m n s t pops is scored.
      let (u, (new, held, least), left) = taken_out z rest m pops in
      let same : some u ≡ some s = sym held ∙ is in
      let e : u ≡ s = cc in rw e at (least n t refl scored);
  zpopmin_rest = λ z rest m n pops.
      let (u, best_there, left) = taken_out z rest m pops in rw left (score_in-without m n z);
}
