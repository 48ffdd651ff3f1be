-- ===== src/Server/Accounts/SignIn.antt =====
-- From signing up to a request that the API accepts (internal/service/auth_service.go,
-- internal/middleware/auth.go, web/src/api/client.js).
use job_flow_web_application.Prelude.{
  ℕ, suc, ◌+◌, ◌*◌, ◌/◌, ◌<◌, List, [], ◌∷◌, ◌++◌, map, true, false, Option, none, some,
  Option-cases, Bool-cases, ◌≡◌, inl, inr, refl, ap, sym, ◌∙◌, arith, length, drop,
}
use job_flow_web_application.Prelude.Text.{
  Text, txt, ◌==◌, is_empty, starts_with-append, eq_iff, eq_refl,
}
use job_flow_web_application.Table.{contains}
use job_flow_web_application.Client.{Request, request, with_headers, with_header}
use job_flow_web_application.Server.{ok, err, Database}
use job_flow_web_application.Server.Evolution.Stores.{Answer-cases}
use job_flow_web_application.Server.Accounts.{
  Account, new_account, Libraries, AreLibraries, account_of, create_account, find_by_email,
  fits_account, with_token, clean_email, clean_company, register, login, trim_prefix, authorize,
}

drop-append : (p s : Text) → drop (length p) (p ++ s) ≡ s
drop-append [] s = refl
drop-append (c ∷ p) s = drop-append p s

trim_prefix-append : (p s : Text) → trim_prefix (p ++ s) p ≡ s
trim_prefix-append p s = rw (starts_with-append p s) (drop-append p s)

length-append : (p s : Text) → length (p ++ s) ≡ length p + length s
length-append [] s = omega arith
length-append (c ∷ p) s = omega (arith, length-append p s)

longer : (c : ℕ) (p s : Text) → (s == (c ∷ (p ++ s))) ≡ false
longer c p s = elim (Bool-cases (s == (c ∷ (p ++ s)))) [
  | inr other ↦ other
  | inl same ↦
      let e : length s ≡ suc (length (p ++ s)) = ap length ((eq_iff s (c ∷ (p ++ s))).0 same) in
      absurd (omega (arith, e, length-append p s))
]

-- The token that the server signed for a user, on the way that the app and the middleware take.
pub authorize-request :
    (lib : Libraries) (account : Account) (token : Text) (made now : ℕ) (options : Request)
    → AreLibraries lib
    → lib.sign account made ≡ ok token
    → now < (made / 1000 + 86400) * 1000
    → is_empty account.id ≡ false
    → options.headers ≡ []
    → authorize lib now (request options token).headers ≡ ok account.id
unfolding authorize request with_headers with_header txt ◌==◌
authorize-request lib account token made now options laws signed early named plain =
    let full = laws.sign-nonempty account token made signed in
    let valid = laws.subject-sign account token made now signed early in
    rw plain (
      rw full (
        rw (trim_prefix-append (txt "Bearer ") token) (
          rw full (
            rw (longer 66 (101 ∷ 97 ∷ 114 ∷ 101 ∷ 114 ∷ 32 ∷ []) token)
              (rw valid (rw named refl))))))

abbrev pub emails : List Account → List Text
emails accounts = map (λ account. account.email) accounts

account_of-append :
    (email : Text) (accounts : List Account) (account : Account)
    → contains (emails accounts) email ≡ false
    → account.email ≡ email
    → account_of email (accounts ++ account ∷ []) ≡ some account
unfolding account_of contains
account_of-append email [] account absent is = rw (is, eq_refl email) refl
account_of-append email (a ∷ accounts) account absent is = elim (Bool-cases (a.email == email)) [
  | inl this ↦ let wrong : true ≡ false = rw this at absent in cc
  | inr that ↦ rw that (account_of-append email accounts account (rw that at absent) is)
]

-- What an account that was inserted is.
abbrev IsInserted : List Account → Text → Text → List Account → Account → Type 0
IsInserted accounts email hashed rows account =
    (rows ≡ accounts ++ account ∷ [])
    × (contains (emails accounts) email ≡ false)
    × (account.email ≡ email)
    × (account.password_hash ≡ hashed)

module _ (lib : Libraries) (db : Database) where
  create_account-ok :
      (id : Text) (now : ℕ) (name email : Text) (company : Option Text) (hashed : Text)
      → (accounts : List Account) (account : Account)
      → (create_account lib db id now name email company hashed accounts).1 ≡ ok account
      → IsInserted accounts email hashed
          (create_account lib db id now name email company hashed accounts).0
          account
  unfolding create_account
  create_account-ok id now name email company hashed accounts account answered =
      elim (Option-cases db.fault) [
        | inr (message, fails) ↦
            let wrong : err message ≡ ok account = rw (fails, create_account) at answered in cc
        | inl works ↦
            let answered' = rw (works, create_account) at answered in
            rw (works, create_account)
              (elim (Bool-cases (fits_account lib db name email company)) [
                | inr long ↦ let wrong : err db.bad_value ≡ ok account = rw long at answered' in cc
                | inl short ↦
                    let answered'' = rw short at answered' in
                    elim (Bool-cases (contains (emails accounts) email)) [
                      | inl old ↦
                          let wrong : err db.duplicate ≡ ok account = rw old at answered'' in cc
                      | inr new ↦
                          let same : ok (new_account id now name email company hashed)
                              ≡ ok account =
                            rw new at answered'' in
                          let made : new_account id now name email company hashed ≡ account = cc in
                          rw (short, new)
                            (
                              ap (λ a. accounts ++ a ∷ []) made,
                              refl,
                              ap (λ a. a.email) (sym made),
                              ap (λ a. a.password_hash) (sym made),
                            )
                    ]
              ])
      ]

  with_token-ok :
      (now : ℕ) (created account : Account) (token : Text)
      → with_token lib db now created ≡ ok (account, token)
      → created ≡ account
  with_token-ok now created account token answered = elim (Answer-cases (lib.sign created now)) [
    | inr (message, e) ↦
        let wrong : err message ≡ ok (account, token) = rw (e, with_token) at answered in cc
    | inl (signed, e) ↦
        let made : Account × Text = (created, signed) in
        let wanted : Account × Text = (account, token) in
        let same : ok made ≡ ok wanted = rw (e, with_token) at answered in
        let pair : made ≡ wanted = cc in ap (λ p. p.0) pair
  ]

  -- What a registration that is answered with an account has done.
  register-ok :
      (id : Text) (now : ℕ) (name email : Text) (company : Option Text) (password : Text)
      → (accounts : List Account) (account : Account) (token : Text)
      → (register lib db id now name email company password accounts).1 ≡ ok (account, token)
      → (hashed : Text) × (lib.hash password ≡ ok hashed)
        × IsInserted accounts
            (clean_email lib db email)
            hashed
            (register lib db id now name email company password accounts).0
            account
  unfolding register
  register-ok id now name email company password accounts account token answered =
      elim (Bool-cases (is_empty (lib.trim name))) [
        | inl unnamed ↦
            let wrong : err (txt "name is required") ≡ ok (account, token) =
              rw (unnamed, register) at answered in
            cc
        | inr named ↦
            let answered' = rw (named, register) at answered in
            elim (Answer-cases (lib.hash password)) [
              | inr (message, e) ↦
                  let wrong : err message ≡ ok (account, token) = rw e at answered' in cc
              | inl (hashed, e) ↦
                  let answered'' = rw e at answered' in
                  elim (Answer-cases
                    (create_account lib db id now (lib.trim name) (clean_email lib db email)
                      (clean_company lib db company) hashed accounts).1) [
                        | inr (message, f) ↦
                            let wrong : err message ≡ ok (account, token) = rw f at answered'' in cc
                        | inl (created, f) ↦
                            let same =
                              with_token-ok now created account token (rw f at answered'') in
                            let inserted =
                              create_account-ok id now (lib.trim name) (clean_email lib db email)
                                (clean_company lib db company) hashed accounts account
                                (f ∙ ap (λ a. ok a) same) in
                            (hashed, e, rw (named, register) (rw (e, f) inserted))
                      ]
            ]
      ]

  login_found :
      (now : ℕ) (email password hashed : Text) (accounts : List Account) (account : Account)
      → db.fault ≡ none
      → account_of email accounts ≡ some account
      → account.password_hash ≡ hashed
      → lib.compare hashed password ≡ true
      → login lib db now email password accounts ≡ with_token lib db now account
  unfolding login find_by_email
  login_found now email password hashed accounts account works found is right =
      rw (works, login) (rw found (rw (is, right) refl))

  -- Who has signed up can sign in with the same password and the lower-case, trimmed email, and with the
  -- token of the answer the app's requests are accepted as theirs until it expires.
  pub authorize-login-register :
      (id : Text) (now later asked : ℕ) (name email : Text) (company : Option Text)
      (password : Text)
      → (accounts : List Account) (account : Account) (first token : Text) (options : Request)
      → AreLibraries lib
      → db.fault ≡ none
      → (register lib db id now name email company password accounts).1 ≡ ok (account, first)
      → lib.sign account later ≡ ok token
      → asked < (later / 1000 + 86400) * 1000
      → is_empty account.id ≡ false
      → options.headers ≡ []
      → (login lib db later
            (clean_email lib db email)
            password
            (register lib db id now name email company password accounts).0
          ≡ ok (account, token))
        × (authorize lib asked (request options token).headers ≡ ok account.id)
  authorize-login-register id now later asked name email company password accounts account first
        token options laws works answered signed early named plain =
      let (hashed, hashes, (rows, absent, is_email, is_hash)) =
        register-ok id now name email company password accounts account first answered in
      (
        login_found later (clean_email lib db email) password hashed _ account works
              (rw rows
                (account_of-append (clean_email lib db email) accounts account absent is_email))
              is_hash (laws.compare-hash password hashed hashes)
            ∙ rw (signed, with_token) refl,
        authorize-request lib account token later asked options laws signed early named plain,
      )
