-- ===== src/Server/Accounts/Emails.antt =====
-- The emails of the accounts (internal/service/auth_service.go, internal/repository/user_repository.go).
use job_flow_web_application.Prelude.{
  ℕ, List, [], ◌∷◌, ◌++◌, Option, none, Option-cases, Bool-cases, ◌≡◌, ◌≢◌, inl, inr, refl, ap, All,
}
use job_flow_web_application.Prelude.Text.{Text, txt, ◌==◌, is_empty, eq_iff}
use job_flow_web_application.Table.{contains}
use job_flow_web_application.Table.Selection.{IsDistinct, IsDistinct-append}
use job_flow_web_application.Server.{err, Database}
use job_flow_web_application.Server.Evolution.Stores.{Answer-cases}
use job_flow_web_application.Server.Accounts.{
  Account, new_account, Libraries, account_of, create_account, find_by_email, fits_account,
  clean_email, clean_company, register, login,
}
use job_flow_web_application.Server.Accounts.SignIn.{emails}

module _ (lib : Libraries) (db : Database) where
  -- The accounts that registrations leave: their emails are in lower case and trimmed, and distinct.
  abbrev pub AreClean : List Account → Type 0
  AreClean accounts =
      All (λ account. clean_email lib db account.email ≡ account.email) accounts
      × IsDistinct (emails accounts)

  absent_of_unclean :
      (email : Text) (accounts : List Account)
      → All (λ account. clean_email lib db account.email ≡ account.email) accounts
      → clean_email lib db email ≢ email
      → account_of email accounts ≡ none
  unfolding account_of
  absent_of_unclean email [] clean unclean = refl
  absent_of_unclean email (account ∷ accounts) (is, clean) unclean =
      elim (Bool-cases (account.email == email)) [
        | inl this ↦
            let same : account.email ≡ email = (eq_iff account.email email).0 this in
            absurd (unclean (rw same at is))
        | inr that ↦ rw that (absent_of_unclean email accounts clean unclean)
      ]

  -- An email that is not in lower case or not trimmed never signs in, whatever the password, although
  -- signing up with it works.
  pub login-unclean :
      (now : ℕ) (email password : Text) (accounts : List Account)
      → AreClean accounts
      → clean_email lib db email ≢ email
      → login lib db now email password accounts ≡ err (txt "invalid credentials")
  unfolding login find_by_email
  login-unclean now email password accounts (clean, distinct) unclean =
      elim (Option-cases db.fault) [
        | inr (message, fails) ↦ rw (fails, login) refl
        | inl works ↦ rw (works, login) (rw (absent_of_unclean email accounts clean unclean) refl)
      ]

  All-snoc :
      (P : Account → Type 0) (accounts : List Account) (account : Account)
      → All P accounts
      → P account
      → All P (accounts ++ account ∷ [])
  All-snoc P [] account h p = (p, tt)
  All-snoc P (a ∷ accounts) account (q, h) p = (q, All-snoc P accounts account h p)

  emails-snoc :
      (accounts : List Account) (account : Account)
      → emails (accounts ++ account ∷ []) ≡ emails accounts ++ account.email ∷ []
  emails-snoc [] account = refl
  emails-snoc (a ∷ accounts) account = ap (a.email ∷◌) (emails-snoc accounts account)

  create_account-AreClean :
      (id : Text) (now : ℕ) (name email : Text) (company : Option Text) (hashed : Text)
      → (accounts : List Account) → clean_email lib db email ≡ email
      → AreClean accounts
      → AreClean (create_account lib db id now name email company hashed accounts).0
  unfolding create_account
  create_account-AreClean id now name email company hashed accounts is (clean, distinct) =
      elim (Option-cases db.fault) [
        | inr (message, fails) ↦ rw (fails, create_account) (clean, distinct)
        | inl works ↦
            rw (works, create_account)
              (elim (Bool-cases (fits_account lib db name email company)) [
                | inr long ↦ rw long (clean, distinct)
                | inl short ↦ elim (Bool-cases (contains (emails accounts) email)) [
                  | inl old ↦ rw (short, old) (clean, distinct)
                  | inr new ↦
                      let account = new_account id now name email company hashed in
                      rw (short, new)
                        (
                          All-snoc (λ a. clean_email lib db a.email ≡ a.email) accounts account
                              clean is,
                          rw (emails-snoc accounts account)
                              (IsDistinct-append (emails accounts) email new distinct),
                        )
                ]
              ])
      ]

  -- If cleaning an email twice is cleaning it once, every registration, refused ones included, leaves
  -- emails that are distinct, in lower case and trimmed.
  pub register-AreClean :
      (id : Text) (now : ℕ) (name email : Text) (company : Option Text) (password : Text)
      → (accounts : List Account)
      → ((text : Text) → clean_email lib db (clean_email lib db text) ≡ clean_email lib db text)
      → AreClean accounts
      → AreClean (register lib db id now name email company password accounts).0
  unfolding register
  register-AreClean id now name email company password accounts stable clean =
      elim (Bool-cases (is_empty (lib.trim name))) [
        | inl unnamed ↦ rw (unnamed, register) clean
        | inr named ↦
            rw (named, register)
              (elim (Answer-cases (lib.hash password)) [
                | inr (message, e) ↦ rw e clean
                | inl (hashed, e) ↦
                    let kept =
                      create_account-AreClean id now (lib.trim name) (clean_email lib db email)
                        (clean_company lib db company) hashed accounts (stable email) clean in
                    rw e
                      (elim (Answer-cases
                        (create_account lib db id now (lib.trim name) (clean_email lib db email)
                          (clean_company lib db company) hashed accounts).1) [
                            | inr (message, f) ↦ rw f kept
                            | inl (created, f) ↦ rw f kept
                          ])
              ])
      ]
