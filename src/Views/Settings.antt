-- ===== src/Views/Settings.antt =====
-- The page of the settings (web/src/views/SettingsView.jsx).
use job_flow_web_application.Prelude.{ℕ, [], ◌∷◌, ◌++◌, Bool, true, Option, none, some}
use job_flow_web_application.Prelude.Text.{Text, txt}
use job_flow_web_application.Model.{Stats}
use job_flow_web_application.Markup.{
  section, div, h2, h3, p, strong, span, label, select, option, input, button, click, value, named,
  on, on_change, read_only, Markup, el, class, words, glyph,
}
use job_flow_web_application.Views.{Locale}
use job_flow_web_application.Views.Frame.{spin}

-- `stats?.total_jobs || 0`
abbrev pub total_jobs_of : Option Stats → ℕ
total_jobs_of none = 0
total_jobs_of (some stats) = stats.total_jobs

module _ (locale : Locale) {A : Type 0} where
  unfoldable pub settings_view :
      Text → Text → (Text → A) → (Text → A) → Option Stats → A → A → Bool → Markup A
  settings_view density theme on_density_change on_theme_change stats on_export on_refresh loading =
      el div (class "settings-view" ∷ []) (
        el div (class "view-heading" ∷ []) (
          el div [] (
            el h2 [] (words "Settings" ∷ [])
            ∷ el p [] (words "Configure your console preferences" ∷ [])
            ∷ [])
          ∷ el button
              (class "icon-button settings-refresh"
                ∷ on click on_refresh
                ∷ named (txt "title") (txt "Refresh")
                ∷ [])
              (glyph "RefreshCcw" 20 (spin loading ∷ []) ∷ [])
          ∷ [])
        ∷ el section (class "panel settings-panel" ∷ []) (
            el div (class "settings-title" ∷ []) (
              el div (class "settings-icon" ∷ []) (glyph "Settings" 26 [] ∷ [])
              ∷ el div [] (
                  el h3 [] (words "Console Settings" ∷ [])
                  ∷ el span [] (words "Customize how your queue console works" ∷ [])
                  ∷ [])
              ∷ [])
            ∷ el div (class "settings-grid" ∷ []) (
                el label [] (
                  el strong [] (words "Density" ∷ [])
                  ∷ el span [] (words "Adjust the spacing of elements in the console" ∷ [])
                  ∷ el select (value density ∷ on_change on_density_change ∷ []) (
                      el option (value (txt "comfortable") ∷ []) (words "Comfortable" ∷ [])
                      ∷ el option (value (txt "compact") ∷ []) (words "Compact" ∷ [])
                      ∷ [])
                  ∷ [])
                ∷ el label [] (
                    el strong [] (words "Theme" ∷ [])
                    ∷ el span [] (words "Choose the appearance of the console" ∷ [])
                    ∷ el select (value theme ∷ on_change on_theme_change ∷ []) (
                        el option (value (txt "light") ∷ []) (words "Light" ∷ [])
                        ∷ el option (value (txt "dark") ∷ []) (words "Dark" ∷ [])
                        ∷ [])
                    ∷ [])
                ∷ el label (class "api-status-field" ∷ []) (
                    el strong [] (words "API Status" ∷ [])
                    ∷ el span [] (words "Information about the current API state" ∷ [])
                    ∷ el input
                        (value (locale.number_text (total_jobs_of stats) ++ txt " jobs indexed")
                          ∷ read_only true
                          ∷ [])
                        []
                    ∷ [])
                ∷ [])
            ∷ el div (class "settings-actions" ∷ []) (
                el button (class "primary" ∷ on click on_export ∷ [])
                  (glyph "Download" 17 [] ∷ words " Export all jobs" ∷ [])
                ∷ el button (class "secondary refresh-button" ∷ on click on_refresh ∷ [])
                    (glyph "RefreshCcw" 17 (spin loading ∷ []) ∷ words " Refresh status" ∷ [])
                ∷ [])
            ∷ [])
        ∷ [])
