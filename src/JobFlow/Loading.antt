-- ===== src/JobFlow/Loading.antt =====
-- The sign that the app is loading, and the readings under way (web/src/hooks/useJobFlow.js).
use job_flow_web_application.Prelude.{
  List, [], ◌∷◌, ◌++◌, true, false, Option, ◌≡◌, inl, inr, refl, Bool-cases, arith,
}
use job_flow_web_application.Prelude.Text.{Text, ◌==◌}
use job_flow_web_application.Client.{Settled, fulfilled, rejected}
use job_flow_web_application.JobFlow.{
  JobFlow, Reading, mount, refresh_start, refresh_settle, authenticated, sign_out, on_message,
  on_error, retry_job, cancel_job, created_jobs, set_notice, set_error, set_selected_job,
}
use job_flow_web_application.JobFlow.Steps.{
  Call, reading, retrying, cancelling, creating, World, load, refresh, token_effect, after_action,
  Step, refreshes, reads, signs_in, signs_out, receives, loses_stream, asks_retry, asks_cancel,
  retries, cancels, asks_create, creates, selects, notes, fails, Reach, here, next,
}

-- A reading is under way.
abbrev pub HasReading : List Call → Type 0
HasReading [] = ⊥
HasReading (reading _ ∷ _) = Unit
HasReading (_ ∷ calls) = HasReading calls

abbrev IsAction : Call → Type 0
IsAction (reading _) = ⊥
IsAction _ = Unit

HasReading-append : (calls more : List Call) → HasReading calls → HasReading (calls ++ more)
HasReading-append [] more h = elim h [ ]
HasReading-append (reading t ∷ calls) more h = tt
HasReading-append (retrying t ∷ calls) more h = HasReading-append calls more h
HasReading-append (cancelling t ∷ calls) more h = HasReading-append calls more h
HasReading-append (creating t ∷ calls) more h = HasReading-append calls more h

HasReading-last : (calls : List Call) (token : Text) → HasReading (calls ++ reading token ∷ [])
HasReading-last [] token = tt
HasReading-last (reading t ∷ calls) token = tt
HasReading-last (retrying t ∷ calls) token = HasReading-last calls token
HasReading-last (cancelling t ∷ calls) token = HasReading-last calls token
HasReading-last (creating t ∷ calls) token = HasReading-last calls token

-- The end of an action takes no reading away.
HasReading-remove :
    (before after : List Call) (call : Call)
    → IsAction call
    → HasReading (before ++ (call ∷ after))
    → HasReading (before ++ after)
HasReading-remove [] after (reading t) a h = elim a [ ]
HasReading-remove [] after (retrying t) a h = h
HasReading-remove [] after (cancelling t) a h = h
HasReading-remove [] after (creating t) a h = h
HasReading-remove (reading t ∷ before) after call a h = tt
HasReading-remove (retrying t ∷ before) after call a h = HasReading-remove before after call a h
HasReading-remove (cancelling t ∷ before) after call a h = HasReading-remove before after call a h
HasReading-remove (creating t ∷ before) after call a h = HasReading-remove before after call a h

abbrev Spins : World → Type 0
Spins w = w.flow.loading ≡ true → HasReading w.pending

refresh-Spins : (token : Text) (w : World) → Spins w → Spins (refresh token w)
unfolding refresh refresh_start
refresh-Spins [] w h = h
refresh-Spins (c ∷ token) w h = λ _. HasReading-last w.pending (c ∷ token)

token_effect-Spins : (old : Text) (w : World) → Spins w → Spins (token_effect old w)
unfolding token_effect
token_effect-Spins old w h = elim (Bool-cases (w.flow.token == old)) [
  | inl same ↦ rw same h
  | inr changed ↦ rw changed (refresh-Spins w.flow.token w h)
]

refresh_settle-loading :
    (answer : Reading) (s : JobFlow) → (refresh_settle answer s).loading ≡ false
unfolding refresh_settle
refresh_settle-loading (fulfilled (jobs, stats)) s = refl
refresh_settle-loading (rejected message) s = refl

after_action-Spins :
    (before after : List Call) (call : Call) (token : Text) (answer : Settled JobFlow) (w : World)
    → IsAction call
    → w.pending ≡ before ++ (call ∷ after)
    → ((s : JobFlow) → answer ≡ fulfilled s → s.loading ≡ w.flow.loading)
    → Spins w
    → Spins (after_action token answer (record w { pending = before ++ after }))
unfolding after_action
after_action-Spins before after call token (fulfilled s) w a e same h =
    refresh-Spins token (record { flow = s; pending = before ++ after })
      (λ spins. HasReading-remove before after call a (rw e at (h (rw (same s refl) at spins))))
after_action-Spins before after call token (rejected message) w a e same h =
    λ spins. HasReading-remove before after call a (rw e at (h spins))

Step-Spins : {w v : World} → Step w v → Spins w → Spins v
unfolding retry_job cancel_job created_jobs set_selected_job set_notice set_error on_error
    on_message sign_out authenticated
Step-Spins {w} refreshes h = refresh-Spins w.flow.token w h
Step-Spins {w} (reads before after token answer e) h =
    λ spins. cc (refresh_settle-loading answer w.flow)
Step-Spins {w} (signs_in mode token user) h =
    token_effect-Spins w.flow.token (record w { flow = authenticated mode token user w.flow }) h
Step-Spins {w} signs_out h = h
Step-Spins {w} (receives event signed) h =
    refresh-Spins w.flow.token (record w { flow = on_message event w.flow }) h
Step-Spins {w} (loses_stream signed) h = h
Step-Spins {w} (asks_retry signed) h = λ spins. HasReading-append w.pending _ (h spins)
Step-Spins {w} (asks_cancel signed) h = λ spins. HasReading-append w.pending _ (h spins)
Step-Spins {w} (retries before after token answer e) h =
    after_action-Spins before after (retrying token) token (retry_job answer w.flow) w tt e
      (λ s q. ground arith) h
Step-Spins {w} (cancels before after token answer e) h =
    after_action-Spins before after (cancelling token) token (cancel_job answer w.flow) w tt e
      (λ s q. ground arith) h
Step-Spins {w} (asks_create signed) h = λ spins. HasReading-append w.pending _ (h spins)
Step-Spins {w} (creates before after token answer e) h =
    after_action-Spins before after (creating token) token (created_jobs answer w.flow) w tt e
      (λ s q. ground arith) h
Step-Spins {w} (selects job m) h = h
Step-Spins {w} (notes notice) h = h
Step-Spins {w} (fails error) h = h

-- However the user, the server and the stream take turns after a load of the page: while the app
-- shows that it is loading, a reading is under way.
pub Reach-loading :
    (stored : Option Text) {w : World}
    → Reach (load stored) w
    → w.flow.loading ≡ true
    → HasReading w.pending
unfolding load mount
Reach-loading stored here = λ e. cc
Reach-loading stored (next r step) = Step-Spins step (Reach-loading stored r)
