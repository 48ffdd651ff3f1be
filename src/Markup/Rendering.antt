-- ===== src/Markup/Rendering.antt =====
-- What is seen of some markup without clicks (web/src/components, web/src/views): whether React renders it, the
-- keys of its elements, and their classes.
use job_flow_web_application.Prelude.{
  ℕ, ◌+◌, if◌then◌else◌, List, [], ◌∷◌, ◌++◌, map, Bool, true, false, ◌&&◌, ◌||◌, ◌≡◌, refl, all,
}
use job_flow_web_application.Prelude.Text.{Text, ◌==◌}
use job_flow_web_application.Markup.{
  Attribute, class_name, key, Markup, empty, invalid, text, element, beside, each, when,
}

-- React throws at a child that it cannot render, and then the whole app is gone.
unfoldable pub renders : {A : Type 0} → Markup A → Bool
renders empty = true
renders invalid = false
renders (text _) = true
renders (element _ _ m) = renders m
renders (beside m n) = renders m && renders n

unfoldable pub own_keys : {A : Type 0} → List (Attribute A) → List Text
own_keys [] = []
own_keys (key k ∷ attributes) = k ∷ own_keys attributes
own_keys (_ ∷ attributes) = own_keys attributes

unfoldable pub keys : {A : Type 0} → Markup A → List Text
unfolding own_keys
keys (element _ attributes m) = own_keys attributes ++ keys m
keys (beside m n) = keys m ++ keys n
keys empty = []
keys invalid = []
keys (text _) = []

unfoldable pub is_of_class : {A : Type 0} → Text → List (Attribute A) → Bool
is_of_class name [] = false
is_of_class name (class_name c ∷ attributes) = c == name || is_of_class name attributes
is_of_class name (_ ∷ attributes) = is_of_class name attributes

-- Some element has just this class.
unfoldable pub shows : {A : Type 0} → Text → Markup A → Bool
unfolding is_of_class
shows name (element _ attributes m) = is_of_class name attributes || shows name m
shows name (beside m n) = shows name m || shows name n
shows name empty = false
shows name invalid = false
shows name (text _) = false

-- How many elements have just this class.
unfoldable pub count_class : {A : Type 0} → Text → Markup A → ℕ
unfolding is_of_class
count_class name (element _ attributes m) =
    (if is_of_class name attributes then 1 else 0) + count_class name m
count_class name (beside m n) = count_class name m + count_class name n
count_class name empty = 0
count_class name invalid = 0
count_class name (text _) = 0

module _ {A X : Type 0} (f : X → Markup A) where
  pub renders-each :
      (good : X → Bool) (xs : List X)
      → ((x : X) → renders (f x) ≡ good x)
      → renders (each f xs) ≡ all good xs
  unfolding renders
  renders-each good [] h = refl
  renders-each good (x ∷ xs) h = rw (h x, renders-each good xs h) refl

  pub keys-each :
      (name : X → Text) (xs : List X)
      → ((x : X) → keys (f x) ≡ name x ∷ [])
      → keys (each f xs) ≡ map name xs
  unfolding keys
  keys-each name [] h = refl
  keys-each name (x ∷ xs) h = rw (h x, keys-each name xs h) refl

  pub shows-each :
      (class : Text) (xs : List X)
      → ((x : X) → shows class (f x) ≡ false)
      → shows class (each f xs) ≡ false
  unfolding shows
  shows-each class [] h = refl
  shows-each class (x ∷ xs) h = rw (h x) (shows-each class xs h)

module _ {A : Type 0} where
  pub renders-when : (test : Bool) (m : Markup A) → renders m ≡ true → renders (when test m) ≡ true
  unfolding renders
  renders-when true m h = h
  renders-when false m h = refl

  pub keys-when : (test : Bool) (m : Markup A) → keys m ≡ [] → keys (when test m) ≡ []
  unfolding keys
  keys-when true m h = h
  keys-when false m h = refl

  pub shows-when :
      (name : Text) (test : Bool) (m : Markup A)
      → shows name m ≡ true
      → shows name (when test m) ≡ test
  unfolding shows
  shows-when name true m h = h
  shows-when name false m h = refl
