-- ===== src/Json.antt =====
-- JSON values, as payloads, drafts and imported files hold them. A number is an integer.
pub mod Laws
use job_flow_web_application.Prelude.{ℕ, Bool, true, false, Option, none, some, not, if◌then◌else◌}
use job_flow_web_application.Prelude.Int.{ℤ, pos, negsuc}
use job_flow_web_application.Prelude.Text.{Text, is_empty, ◌==◌}

mutual
  pub data Json : Type 0 where
    null : Json
    bool : Bool → Json
    num : ℤ → Json
    str : Text → Json
    arr : Items → Json
    obj : Fields → Json

  pub data Items : Type 0 where
    nil : Items
    cons : Json → Items → Items

  -- The own properties of an object, in the order of their insertion.
  pub data Fields : Type 0 where
    end : Fields
    field : Text → Json → Fields → Fields

abbrev pub is_zero : ℤ → Bool
is_zero (pos n) = elim n [ ℕ.zero ↦ true | ℕ.suc _ ↦ false ]
is_zero (negsuc n) = false

-- `Boolean(v)`
unfoldable pub truthy : Json → Bool
truthy null = false
truthy (bool b) = b
truthy (num n) = not (is_zero n)
truthy (str s) = not (is_empty s)
truthy (arr _) = true
truthy (obj _) = true

-- `fields[key]`
unfoldable pub get : Text → Fields → Option Json
get k end = none
get k (field j v fs) = if j == k then some v else get k fs

-- `fields[key] = v`: an old key keeps its place.
unfoldable pub put : Text → Json → Fields → Fields
put k v end = field k v end
put k v (field j w fs) = if j == k then field j v fs else field j w (put k v fs)

-- `value.key`, with undefined as `none`; an array has no such key.
unfoldable pub member : Text → Json → Option Json
unfolding get
member k (obj fs) = get k fs
member k _ = none
