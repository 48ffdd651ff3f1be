-- ===== src/Markup/Bubbling.antt =====
-- What is known of every click on some markup without a look at its targets (web/src/components, web/src/views).
use mathlib.Core.List.{append-nil}
use job_flow_web_application.Prelude.{
  ◌∙◌, if◌then◌else◌, ◌≤◌, List, [], ◌∷◌, ◌++◌, Bool, true, false, ◌&&◌, ◌||◌, ◌≡◌, ◌⊎◌, inl, inr,
  refl, arith, length, All, leb, Bool-cases, leb→le,
}
use job_flow_web_application.Markup.{
  EventKind, Attribute, Markup, text, element, beside, each, when,
}
use job_flow_web_application.Markup.Events.{
  Target, itself, inside, left, right, Bubble, handlers, stopped, is_disabled, pass, fire, offers,
  contained, single, nothing,
}

-- An event that has asked for nothing, or that goes no further.
abbrev pub IsSettled : {A : Type 0} → Bubble A → Type 0
IsSettled b = (b.asked ≡ []) ⊎ (b.going ≡ false)

module _ {A : Type 0} (kind : EventKind) where
  no_handlers : (answers : List A) → leb (length answers) 0 ≡ true → answers ≡ []
  no_handlers [] h = refl
  no_handlers (a ∷ answers) h = ground arith

  pass-stopped :
      (attributes : List (Attribute A)) (b : Bubble A)
      → stopped kind attributes ≡ true
      → (pass kind attributes b).going ≡ false
  unfolding pass
  pass-stopped attributes b h = ground arith

  pass-quiet :
      (attributes : List (Attribute A)) (b : Bubble A)
      → handlers kind attributes ≡ []
      → (pass kind attributes b).asked ≡ b.asked
  unfolding pass
  pass-quiet attributes b h = elim (Bool-cases b.going) [
    | inr e ↦ rw e refl
    | inl e ↦
        rw (e, h)
          (elim (Bool-cases (is_disabled attributes)) [
            | inl d ↦ rw d refl
            | inr d ↦ rw d (append-nil b.asked)
          ])
  ]

  pass-ended :
      (attributes : List (Attribute A)) (b : Bubble A)
      → b.going ≡ false
      → pass kind attributes b ≡ b
  unfolding pass
  pass-ended attributes b h = rw h refl

  pass-first :
      (attributes : List (Attribute A)) (b : Bubble A)
      → b.asked ≡ []
      → leb (length (handlers kind attributes)) 1 ≡ true
      → length (pass kind attributes b).asked ≤ 1
  unfolding pass
  pass-first attributes b e h = elim (Bool-cases b.going) [
    | inr g ↦ rw (g, e) (omega arith)
    | inl g ↦
        rw (g, e)
          (elim (Bool-cases (is_disabled attributes)) [
            | inl d ↦ rw d (omega arith)
            | inr d ↦ rw d (leb→le _ _ h)
          ])
  ]

  quiet-IsSettled :
      (attributes : List (Attribute A)) (b : Bubble A)
      → leb (length (handlers kind attributes)) 0 ≡ true
      → IsSettled b
      → IsSettled (pass kind attributes b)
  quiet-IsSettled attributes b h (inl e) = inl (pass-quiet attributes b (no_handlers _ h) ∙ e)
  quiet-IsSettled attributes b h (inr e) = inr (rw (pass-ended attributes b e) e)

  pass-IsSettled :
      (attributes : List (Attribute A)) (b : Bubble A) (below : Bool)
      → (stopped kind attributes || (leb (length (handlers kind attributes)) 0 && below)) ≡ true
      → (below ≡ true → IsSettled b)
      → IsSettled (pass kind attributes b)
  pass-IsSettled attributes b below h settled = elim (Bool-cases (stopped kind attributes)) [
    | inl s ↦ inr (pass-stopped attributes b s)
    | inr s ↦ quiet-IsSettled attributes b (ground arith) (settled (ground arith))
  ]

  -- Of contained markup nothing comes out that has asked for something.
  pub fire-IsSettled :
      (target : Target) (m : Markup A) → contained kind m ≡ true → IsSettled (fire kind target m)
  unfolding fire contained
  fire-IsSettled itself (element tag attributes m) h =
      pass-IsSettled attributes (nothing kind true) (contained kind m) h (λ _. inl refl)
  fire-IsSettled (inside target) (element tag attributes m) h =
      pass-IsSettled attributes (fire kind target m) (contained kind m) h (fire-IsSettled target m)
  fire-IsSettled (left target) (beside m n) h = fire-IsSettled target m (ground arith)
  fire-IsSettled (right target) (beside m n) h = fire-IsSettled target n (ground arith)
  fire-IsSettled itself (text s) h = inl refl
  fire-IsSettled _ _ h = inl refl

  inside-le :
      (target : Target) (attributes : List (Attribute A)) (m : Markup A)
      → leb (length (handlers kind attributes)) 1 ≡ true
      → (leb (length (handlers kind attributes)) 0 || contained kind m) ≡ true
      → length (fire kind target m).asked ≤ 1
      → length (pass kind attributes (fire kind target m)).asked ≤ 1
  inside-le target attributes m one apart below =
      elim (Bool-cases (leb (length (handlers kind attributes)) 0)) [
        | inl quiet ↦ rw (pass-quiet attributes (fire kind target m) (no_handlers _ quiet)) below
        | inr answering ↦ elim (fire-IsSettled target m (ground arith)) [
          | inl e ↦ pass-first attributes _ e one
          | inr e ↦ rw (pass-ended attributes (fire kind target m) e) below
        ]
      ]

  -- Of single markup an event asks for one thing at most.
  pub fire-single :
      (target : Target) (m : Markup A)
      → single kind m ≡ true
      → length (fire kind target m).asked ≤ 1
  unfolding fire single
  fire-single itself (element tag attributes m) h =
      pass-first attributes (nothing kind true) refl (ground arith)
  fire-single (inside target) (element tag attributes m) h =
      inside-le target attributes m (ground arith) (ground arith)
        (fire-single target m (ground arith))
  fire-single (left target) (beside m n) h = fire-single target m (ground arith)
  fire-single (right target) (beside m n) h = fire-single target n (ground arith)
  fire-single itself (text s) h = omega arith
  fire-single _ _ h = omega arith

  -- The rows of a list are single together if each is; so is what they contain.
  pub single-each :
      {X : Type 0} (f : X → Markup A) (xs : List X)
      → ((x : X) → single kind (f x) ≡ true)
      → single kind (each f xs) ≡ true
  unfolding single
  single-each f [] h = refl
  single-each f (x ∷ xs) h = rw (h x) (single-each f xs h)

  pub single-when :
      (test : Bool) (m : Markup A) → single kind m ≡ true → single kind (when test m) ≡ true
  unfolding single
  single-when true m h = h
  single-when false m h = refl

  pub offers-when :
      (test : Bool) (m : Markup A) → offers kind m ≡ [] → offers kind (when test m) ≡ []
  unfolding offers
  offers-when true m h = h
  offers-when false m h = refl

  pub contained-each :
      {X : Type 0} (f : X → Markup A) (xs : List X)
      → ((x : X) → contained kind (f x) ≡ true)
      → contained kind (each f xs) ≡ true
  unfolding contained
  contained-each f [] h = refl
  contained-each f (x ∷ xs) h = rw (h x) (contained-each f xs h)

module _ {A : Type 0} (kind : EventKind) (P : A → Type 0) where
  All-append : (xs ys : List A) → All P xs → All P ys → All P (xs ++ ys)
  All-append [] ys h k = k
  All-append (x ∷ xs) ys (p, h) k = (p, All-append xs ys h k)

  All-append_left : (xs ys : List A) → All P (xs ++ ys) → All P xs
  All-append_left [] ys h = tt
  All-append_left (x ∷ xs) ys (p, h) = (p, All-append_left xs ys h)

  All-append_right : (xs ys : List A) → All P (xs ++ ys) → All P ys
  All-append_right [] ys h = h
  All-append_right (x ∷ xs) ys (p, h) = All-append_right xs ys h

  -- The answers of an enabled element, and none of a disabled one.
  abbrev own : List (Attribute A) → List A
  own attributes = if is_disabled attributes then [] else handlers kind attributes

  All-pass :
      (attributes : List (Attribute A)) (b : Bubble A)
      → All P (own attributes)
      → All P b.asked
      → All P (pass kind attributes b).asked
  unfolding pass
  All-pass attributes b h k = elim (Bool-cases b.going) [
    | inr g ↦ rw g k
    | inl g ↦ rw g (elim (Bool-cases (is_disabled attributes)) [
      | inl d ↦ rw d k
      | inr d ↦ rw d (All-append b.asked _ k (rw d at h))
    ])
  ]

  -- An event asks only for what the enabled elements offer.
  pub All-fire :
      (target : Target) (m : Markup A) → All P (offers kind m) → All P (fire kind target m).asked
  unfolding fire offers
  All-fire itself (element tag attributes m) h =
      All-pass attributes (nothing kind true) (All-append_left (own attributes) _ h) tt
  All-fire (inside target) (element tag attributes m) h =
      All-pass attributes (fire kind target m) (All-append_left (own attributes) _ h)
        (All-fire target m (All-append_right (own attributes) _ h))
  All-fire (left target) (beside m n) h = All-fire target m (All-append_left (offers kind m) _ h)
  All-fire (right target) (beside m n) h = All-fire target n (All-append_right (offers kind m) _ h)
  All-fire itself (text s) h = tt
  All-fire _ _ h = tt
