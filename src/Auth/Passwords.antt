-- ===== src/Auth/Passwords.antt =====
-- Which requests the sign-in screen makes (web/src/components/AuthScreen.jsx).
use job_flow_web_application.Prelude.{
  true, false, ◌&&◌, not, none, some, ◌≡◌, ◌≢◌, ◌⊎◌, inl, inr, refl, arith, Bool-cases,
}
use job_flow_web_application.Prelude.Text.{txt, ◌==◌, eq_iff}
use job_flow_web_application.Client.Routes.{auth_request}
use job_flow_web_application.Auth.{AuthScreen, credentials, submit_start}

-- Registering with two different passwords makes no request, tells so and leaves the button enabled;
-- in every other case the credentials are sent to the endpoint of the mode, and the screen is busy.
pub submit_start_lem :
    (s : AuthScreen)
    → ((s.mode ≡ txt "register")
        × (s.password ≢ s.confirm_password)
        × ((submit_start s).1 ≡ none)
        × ((submit_start s).0.error ≡ txt "Passwords do not match")
        × ((submit_start s).0.busy ≡ false))
      ⊎ ((s.mode ≢ txt "register") ⊎ (s.password ≡ s.confirm_password))
        × ((submit_start s).1 ≡ some (auth_request s.mode (credentials s)))
        × ((submit_start s).0.busy ≡ true)
unfolding submit_start
submit_start_lem s =
    let refuses = s.mode == txt "register" && not (s.password == s.confirm_password) in
    elim (Bool-cases refuses) [
      | inl refuses_it ↦ inl (
        ground (arith, eq_iff s.mode (txt "register")),
        (λ same_password. ground (arith, eq_iff s.password s.confirm_password)),
        rw refuses_it refl,
        rw refuses_it refl,
        rw refuses_it refl,
      )
      | inr accepts ↦ inr (apart accepts, rw accepts refl, rw accepts refl)
    ]
  where
    apart :
        (s.mode == txt "register" && not (s.password == s.confirm_password)) ≡ false
        → (s.mode ≢ txt "register") ⊎ (s.password ≡ s.confirm_password)
    apart accepts = elim (Bool-cases (s.password == s.confirm_password)) [
      | inl equal ↦ inr ((eq_iff s.password s.confirm_password).0 equal)
      | inr other ↦ inl (λ registers. ground (arith, eq_iff s.mode (txt "register")))
    ]
