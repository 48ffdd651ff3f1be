-- ===== src/JobFlow/SignedOut.antt =====
-- What a sign-out leaves behind (`signOut` of web/src/hooks/useJobFlow.js).
use mathlib.Core.List.{not-mem-nil, append_assoc}
use job_flow_web_application.Prelude.{
  List, [], ◌∷◌, ◌++◌, none, some, ◌≡◌, ◌≢◌, refl, sym, ◌∙◌, arith, Bool-cases, inl, inr,
}
use job_flow_web_application.Prelude.Text.{Text, txt, ◌==◌}
use job_flow_web_application.Model.{Job, Stats, User}
use job_flow_web_application.Client.{fulfilled}
use job_flow_web_application.JobFlow.{
  JobFlow, refresh_start, refresh_settle, sign_out, authenticated, set_notice, set_error,
}
use job_flow_web_application.JobFlow.Steps.{
  Call, reading, World, refresh, token_effect, Step, refreshes, reads, signs_in, signs_out,
  receives, loses_stream, asks_retry, asks_cancel, retries, cancels, asks_create, creates, selects,
  notes, fails,
}

-- Nobody is signed in, no call is under way, and nothing of an account is shown.
pub record IsBlank (w : World) : Type 0 where
  pub token : w.flow.token ≡ []
  pub pending : w.pending ≡ []
  pub jobs : w.flow.jobs ≡ []
  pub stats : w.flow.stats ≡ none
  pub selected : w.flow.selected_job ≡ none

-- Signing out while no call is under way leaves nothing of the account.
pub sign_out-IsBlank : (w : World) → w.pending ≡ [] → IsBlank (record w { flow = sign_out w.flow })
unfolding sign_out txt
sign_out-IsBlank w e = record {
  token = refl;
  pending = e;
  jobs = refl;
  stats = refl;
  selected = refl;
}

append-ne-nil : (before after : List Call) (call : Call) → before ++ (call ∷ after) ≢ []
append-ne-nil [] after call = λ e. cc
append-ne-nil (c ∷ before) after call = λ e. cc

refresh-IsBlank : (token : Text) (w : World) → token ≡ [] → IsBlank w → IsBlank (refresh token w)
unfolding refresh refresh_start
refresh-IsBlank [] w e h = record {
  token = h.token;
  pending = h.pending;
  jobs = h.jobs;
  stats = h.stats;
  selected = h.selected;
}
refresh-IsBlank (c ∷ token) w e h = cc

token_effect-IsBlank : (old : Text) (w : World) → IsBlank w → IsBlank (token_effect old w)
unfolding token_effect
token_effect-IsBlank old w h = elim (Bool-cases (w.flow.token == old)) [
  | inl same ↦ rw same h
  | inr changed ↦ rw changed (refresh-IsBlank w.flow.token w h.token h)
]

token_effect-token : (old : Text) (w : World) → (token_effect old w).flow.token ≡ w.flow.token
unfolding token_effect refresh refresh_start
token_effect-token old w = ground arith

-- Signing in without a token changes nothing of an account but the user.
authenticated-IsBlank :
    (mode token : Text) (user : User) (w : World)
    → token ≡ []
    → IsBlank w
    → IsBlank (record w { flow = authenticated mode token user w.flow })
unfolding authenticated
authenticated-IsBlank mode token user w e h = record {
  token = e;
  pending = h.pending;
  jobs = h.jobs;
  stats = h.stats;
  selected = h.selected;
}

authenticated-token :
    (mode token : Text) (user : User) (s : JobFlow)
    → (authenticated mode token user s).token ≡ token
unfolding authenticated
authenticated-token mode token user s = refl

no_call :
    {w : World} (before after : List Call) (call : Call)
    → IsBlank w
    → ¬ (w.pending ≡ before ++ (call ∷ after))
no_call before after call h e = append-ne-nil before after call (sym e ∙ h.pending)

Step-IsBlank : {w v : World} → Step w v → IsBlank w → v.flow.token ≡ [] → IsBlank v
unfolding set_notice set_error
Step-IsBlank {w} refreshes h t = refresh-IsBlank w.flow.token w h.token h
Step-IsBlank {w} (reads before after token answer e) h t = absurd (no_call before after _ h e)
Step-IsBlank {w} (signs_in mode token user) h t =
    let signed = record w { flow = authenticated mode token user w.flow } in
    let no_token =
      sym (authenticated-token mode token user w.flow)
      ∙ (sym (token_effect-token w.flow.token signed) ∙ t) in
    token_effect-IsBlank w.flow.token signed (authenticated-IsBlank mode token user w no_token h)
Step-IsBlank {w} signs_out h t = sign_out-IsBlank w h.pending
Step-IsBlank {w} (receives event signed) h t = absurd (signed h.token)
Step-IsBlank {w} (loses_stream signed) h t = absurd (signed h.token)
Step-IsBlank {w} (asks_retry signed) h t = absurd (signed h.token)
Step-IsBlank {w} (asks_cancel signed) h t = absurd (signed h.token)
Step-IsBlank {w} (retries before after token answer e) h t = absurd (no_call before after _ h e)
Step-IsBlank {w} (cancels before after token answer e) h t = absurd (no_call before after _ h e)
Step-IsBlank {w} (asks_create signed) h t = absurd (signed h.token)
Step-IsBlank {w} (creates before after token answer e) h t = absurd (no_call before after _ h e)
Step-IsBlank {w} (selects job m) h t = absurd (not-mem-nil (rw h.jobs at m))
Step-IsBlank {w} (notes notice) h t = record {
  token = h.token;
  pending = h.pending;
  jobs = h.jobs;
  stats = h.stats;
  selected = h.selected;
}
Step-IsBlank {w} (fails error) h t = record {
  token = h.token;
  pending = h.pending;
  jobs = h.jobs;
  stats = h.stats;
  selected = h.selected;
}

-- A run of steps in which the token is empty at every moment.
pub data StaysOut (w : World) : World → Type 0 where
  start : StaysOut w w
  more : {u v : World} → StaysOut w u → Step u v → v.flow.token ≡ [] → StaysOut w v

-- After a sign-out with no call under way, and until somebody signs in, no steps bring back any
-- jobs, dashboard figures or selection.
pub sign_out-StaysOut :
    (w : World) {v : World}
    → w.pending ≡ []
    → StaysOut (record w { flow = sign_out w.flow }) v
    → IsBlank v
sign_out-StaysOut w e start = sign_out-IsBlank w e
sign_out-StaysOut w e (more r step t) = Step-IsBlank step (sign_out-StaysOut w e r) t

-- From any state with a reading with some token under way, and for any user, non-empty new token, jobs
-- and figures, three steps are possible. After the first nobody is signed in and no job is shown. After
-- the second the user is signed in with the new token and still no job is shown, while both the old
-- reading and one with the new token are under way. After the third the old reading is over, the one
-- with the new token is still under way, and the user, signed in with the new token, sees the jobs and
-- the figures.
pub sign_out-leak :
    (w : World) (before after : List Call) (old token : Text) (user : User) (jobs : List Job)
    (stats : Stats)
    → w.pending ≡ before ++ (reading old ∷ after)
    → token ≢ []
    → (out : World) × (u : World) × (v : World) × Step w out
      × (out.flow.token ≡ [])
      × (out.flow.user ≡ none)
      × (out.flow.jobs ≡ [])
      × Step out u
      × (u.flow.token ≡ token)
      × (u.flow.user ≡ some user)
      × (u.flow.jobs ≡ [])
      × (u.pending ≡ before ++ (reading old ∷ (after ++ reading token ∷ [])))
      × Step u v
      × (v.pending ≡ before ++ (after ++ reading token ∷ []))
      × (v.flow.token ≡ token)
      × (v.flow.user ≡ some user)
      × (v.flow.jobs ≡ jobs)
      × (v.flow.stats ≡ some stats)
unfolding sign_out refresh_settle authenticated token_effect refresh refresh_start txt ◌==◌
sign_out-leak w before after old [] user jobs stats e ne = absurd (ne refl)
sign_out-leak w before after old (c ∷ token) user jobs stats e ne =
    let out : World = record w { flow = sign_out w.flow } in
    let signed : World =
      token_effect out.flow.token
        (record out { flow = authenticated (txt "login") (c ∷ token) user out.flow }) in
    let pending : signed.pending ≡ before ++ (reading old ∷ (after ++ reading (c ∷ token) ∷ [])) =
      rw e (append_assoc before _ _) in
    (
      out,
      signed,
      _,
      signs_out,
      refl,
      refl,
      refl,
      signs_in (txt "login") (c ∷ token) user,
      refl,
      refl,
      refl,
      pending,
      reads before _ old (fulfilled (jobs, stats)) pending,
      refl,
      refl,
      refl,
      refl,
      refl,
    )
