-- ===== src/Server/Accounts.antt =====
-- Signing up, signing in and the token of a request (internal/service/auth_service.go,
-- internal/repository/user_repository.go, internal/middleware/auth.go).
pub mod SignIn
pub mod Emails
use job_flow_web_application.Prelude.{
  ℕ, ◌+◌, ◌*◌, ◌/◌, ◌<◌, List, [], ◌∷◌, ◌++◌, map, Bool, true, false, ◌||◌, ◌&&◌, Option, none,
  some, ◌≡◌, length, drop, leb, if◌then◌else◌,
}
use job_flow_web_application.Prelude.Text.{Text, txt, ◌==◌, is_empty, starts_with}
use job_flow_web_application.Table.{contains}
use job_flow_web_application.Server.{Answer, ok, err, Database}

pub record Account : Type 0 where
  pub id : Text
  pub name : Text
  pub email : Text
  pub company : Option Text
  pub password_hash : Text
  pub created_at : ℕ

abbrev pub new_account : Text → ℕ → Text → Text → Option Text → Text → Account
new_account id now name email company hashed = record {
  id = id;
  name = name;
  email = email;
  company = company;
  password_hash = hashed;
  created_at = now;
}

-- What the code calls of bcrypt, jwt and Go's strings. A token is signed for a user at a time; `subject`
-- is the text of the claim "sub" of a token that is valid at a time, empty if it has none.
pub record Libraries : Type 0 where
  pub hash : Text → Answer Text
  pub compare : Text → Text → Bool
  pub sign : Account → ℕ → Answer Text
  pub subject : ℕ → Text → Option Text
  pub lower : Text → Text
  pub trim : Text → Text

-- What they document: a password matches its hash, and a signed token names its user until it expires,
-- 24 hours after it was made, counted from the full second.
pub record AreLibraries (lib : Libraries) : Type 0 where
  pub compare-hash :
      (password hashed : Text) → lib.hash password ≡ ok hashed → lib.compare hashed password ≡ true
  pub subject-sign :
      (account : Account) (token : Text) (made now : ℕ)
      → lib.sign account made ≡ ok token
      → now < (made / 1000 + 86400) * 1000
      → lib.subject now token ≡ some account.id
  pub sign-nonempty :
      (account : Account) (token : Text) (made : ℕ)
      → lib.sign account made ≡ ok token
      → is_empty token ≡ false

-- `WHERE email = $1`
unfoldable pub account_of : Text → List Account → Option Account
account_of email [] = none
account_of email (account ∷ accounts) =
    let rest = account_of email accounts in if account.email == email then some account else rest

module _ (lib : Libraries) (db : Database) where
  abbrev pub fits_account : Text → Text → Option Text → Bool
  fits_account name email company =
      leb (length name) 160
      && leb (length email) 255
      && elim company [ none ↦ true | some text ↦ leb (length text) 160 ]

  -- The repository's `Create`; the email is unique.
  unfoldable pub create_account :
      Text → ℕ → Text → Text → Option Text → Text → List Account → List Account × Answer Account
  create_account id now name email company hashed accounts = elim db.fault [
    | some message ↦ (accounts, err message)
    | none ↦
        if fits_account name email company
        then (if contains (map (λ account. account.email) accounts) email
            then (accounts, err db.duplicate)
            else (
              accounts ++ new_account id now name email company hashed ∷ [],
              ok (new_account id now name email company hashed),
            ))
        else (accounts, err db.bad_value)
  ]

  unfoldable pub find_by_email : Text → List Account → Answer Account
  unfolding account_of
  find_by_email email accounts = elim db.fault [
    | some message ↦ err message
    | none ↦ elim (account_of email accounts) [ none ↦ err db.no_rows | some account ↦ ok account ]
  ]

  -- The user and the token, or the error of the signing.
  abbrev pub with_token : ℕ → Account → Answer (Account × Text)
  with_token now account = elim (lib.sign account now) [
    | err message ↦ err message
    | ok token ↦ ok (account, token)
  ]

  abbrev pub clean_company : Option Text → Option Text
  clean_company none = none
  clean_company (some text) = if is_empty (lib.trim text) then none else some (lib.trim text)

  -- `strings.TrimSpace(strings.ToLower(email))`
  abbrev pub clean_email : Text → Text
  clean_email email = lib.trim (lib.lower email)

  -- The database makes the identifier of the account.
  unfoldable pub register :
      Text
      → ℕ
      → Text
      → Text
      → Option Text
      → Text
      → List Account
      → List Account × Answer (Account × Text)
  unfolding create_account
  register id now name email company password accounts =
      if is_empty (lib.trim name)
      then (accounts, err (txt "name is required"))
      else elim (lib.hash password) [
        | err message ↦ (accounts, err message)
        | ok hashed ↦
            let (rows, answer) =
              create_account id now (lib.trim name) (clean_email email) (clean_company company)
                hashed accounts in
            elim answer [
              | err message ↦ (rows, err message)
              | ok account ↦ (rows, with_token now account)
            ]
      ]

  unfoldable pub login : ℕ → Text → Text → List Account → Answer (Account × Text)
  unfolding find_by_email
  login now email password accounts = elim (find_by_email email accounts) [
    | err message ↦ err (txt "invalid credentials")
    | ok account ↦
        if lib.compare account.password_hash password
        then with_token now account
        else err (txt "invalid credentials")
  ]

-- `strings.TrimPrefix(text, prefix)`
abbrev pub trim_prefix : Text → Text → Text
trim_prefix text prefix = if starts_with text prefix then drop (length prefix) text else text

-- `c.GetHeader(name)`
abbrev pub header_of : Text → List (Text × Text) → Text
header_of name [] = []
header_of name ((n, v) ∷ headers) =
    let rest = header_of name headers in if n == name then v else rest

-- `Parse`
abbrev pub parse : Libraries → ℕ → Text → Answer Text
parse lib now token = elim (lib.subject now token) [
  | none ↦ err (txt "invalid token")
  | some subject ↦ if is_empty subject then err (txt "missing subject") else ok subject
]

-- The middleware: the user of a request, or the error of the answer 401.
unfoldable pub authorize : Libraries → ℕ → List (Text × Text) → Answer Text
authorize lib now headers =
    let header = header_of (txt "Authorization") headers in
    let token = trim_prefix header (txt "Bearer ") in
    if is_empty token || token == header
    then err (txt "missing bearer token")
    else elim (parse lib now token) [ err _ ↦ err (txt "invalid token") | ok user ↦ ok user ]
