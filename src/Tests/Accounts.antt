-- ===== src/Tests/Accounts.antt =====
-- Accounts at concrete inputs.
use job_flow_web_application.Prelude.{
  ℕ, ◌+◌, [], ◌∷◌, map, false, Option, none, some, ◌≡◌, ◌≢◌, refl, sym, ap, arith, leb,
  if◌then◌else◌,
}
use job_flow_web_application.Prelude.Text.{Text, txt, ◌==◌, eq_refl, is_empty}
use job_flow_web_application.Table.{contains}
use job_flow_web_application.Client.{Request, get, request}
use job_flow_web_application.Server.{ok, err}
use job_flow_web_application.Server.Accounts.{
  Account, new_account, Libraries, AreLibraries, create_account, clean_email, register, login,
  authorize,
}
use job_flow_web_application.Server.Accounts.SignIn.{authorize-login-register}
use job_flow_web_application.Server.Accounts.Emails.{AreClean, login-unclean}
use job_flow_web_application.Tests.Worlds.{db}

abbrev lower_unit : ℕ → ℕ
lower_unit c = if leb c b'Z' then (if leb b'A' c then c + 32 else c) else c

-- A token is the letter t and the identifier.
abbrev subject_of : Text → Option Text
subject_of [] = none
subject_of (c ∷ id) = some id

abbrev lib : Libraries
lib = record {
  hash = λ password. ok password;
  compare = λ hashed password. hashed == password;
  sign = λ account now. ok (b't' ∷ account.id);
  subject = λ now token. subject_of token;
  lower = map lower_unit;
  trim = λ text. text;
}

signed_id :
    (id token : Text)
    → ok (b't' ∷ id) ≡ ok token
    → (subject_of token ≡ some id) × (is_empty token ≡ false)
signed_id id token e =
    let same : b't' ∷ id ≡ token = cc in (ap subject_of (sym same), ap is_empty (sym same))

lib-AreLibraries : AreLibraries lib
lib-AreLibraries = record {
  compare-hash = λ password hashed e. let same : password ≡ hashed = cc in rw same (eq_refl hashed);
  subject-sign = λ account token made now e early. (signed_id account.id token e).0;
  sign-nonempty = λ account token made e. (signed_id account.id token e).1;
}

abbrev ada : Account
ada = new_account (txt "7") 3 (txt "Ada") (txt "ada@b.c") none (txt "secret")

registered :
    (register lib db (txt "7") 3 (txt "Ada") (txt "Ada@B.c") none (txt "secret") []).1
    ≡ ok (ada, txt "t7")
unfolding register create_account txt contains
registered = refl

abbrev listing : Request
listing = record { method = get; path = []; query = []; headers = []; body = none }

authorize-login-register_example :
    (login lib db 4
        (clean_email lib db (txt "Ada@B.c"))
        (txt "secret")
        (register lib db (txt "7") 3 (txt "Ada") (txt "Ada@B.c") none (txt "secret") []).0
      ≡ ok (ada, txt "t7"))
    × (authorize lib 5 (request listing (txt "t7")).headers ≡ ok (txt "7"))
unfolding txt
authorize-login-register_example =
    authorize-login-register lib db (txt "7") 3 4 5 (txt "Ada") (txt "Ada@B.c") none (txt "secret")
      [] ada (txt "t7") (txt "t7") listing lib-AreLibraries refl registered refl (omega arith) refl
      refl

ada-AreClean : AreClean lib db (ada ∷ [])
unfolding txt contains
ada-AreClean = ((refl, tt), (refl, tt))

as_typed : clean_email lib db (txt "Ada@B.c") ≢ txt "Ada@B.c"
unfolding txt
as_typed e = cc

login-unclean_example :
    login lib db 4 (txt "Ada@B.c") (txt "secret") (ada ∷ []) ≡ err (txt "invalid credentials")
login-unclean_example =
    login-unclean lib db 4 (txt "Ada@B.c") (txt "secret") (ada ∷ []) ada-AreClean as_typed
