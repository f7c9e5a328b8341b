-- ===== src/Settings/Tools.antt =====
-- The tools of settings/mod.rs: `set_default_shell`, `list_shells` and `request_reload`, on the store of
-- the context.
use remote_executor.Base.{true, Option, none, some, List, [], ◌∷◌, ◌++◌, map, if◌then◌else◌}
use remote_executor.Base.Outcome.{Outcome, ok, err, panic}
use remote_executor.Text.{Text, codes, is_empty, trim, join}
use remote_executor.Dict.{Dict}
use remote_executor.Json.{Value, string, bool}
use remote_executor.Protocol.{ToolResult, json_object, strings_value, option_value, tool_output}
use remote_executor.Settings.{
  Chain, ShellProfile, ShellSettings, SettingsState, SettingsStore, ShellResolution, SettingsFiles,
  Codec, Machine,
}
use remote_executor.Settings.Store
use remote_executor.Settings.Store.{reload}

unfoldable pub display_args : List Text → Text
display_args args =
    if is_empty args
    then codes "<none>"
    else join (codes " ") (map (λ arg. if is_empty arg then codes "<empty>" else arg) args)

abbrev profile_lines : Dict ShellProfile → List Text
profile_lines [] = []
profile_lines ((name, profile) ∷ rest) =
    (codes "- "
      ++ (name
          ++ (codes ": candidates="
              ++ (display_args profile.candidates
                  ++ (codes " commandArgs="
                      ++ (display_args profile.command_args
                          ++ (codes " interactiveArgs="
                              ++ display_args profile.interactive_args)))))))
    ∷ profile_lines rest

abbrev error_line : Option Text → List Text
error_line none = []
error_line (some e) = (codes "settingsError:" ++ e) ∷ []

unfoldable pub format_shell_settings : ShellSettings → Text → Option Text → Text
format_shell_settings settings settings_path reload_error = join (b'\n' ∷ []) (
    (codes "default:" ++ settings.default)
    ∷ (codes "interactive:" ++ settings.interactive)
    ∷ (codes "settingsPath:" ++ settings_path)
    ∷ codes "profiles:"
    ∷ ((if is_empty settings.profiles then codes "- none" ∷ [] else profile_lines settings.profiles)
        ++ error_line reload_error))

-- what `Serialize` writes for a profile, for the profiles and for a resolution
abbrev profile_value : ShellProfile → Value
profile_value profile = json_object (
    (codes "candidates", strings_value profile.candidates)
    ∷ (codes "commandArgs", strings_value profile.command_args)
    ∷ (codes "interactiveArgs", strings_value profile.interactive_args)
    ∷ [])

abbrev profile_entries : Dict ShellProfile → List (Text × Value)
profile_entries [] = []
profile_entries ((name, profile) ∷ rest) = (name, profile_value profile) ∷ profile_entries rest

abbrev resolution_value : ShellResolution → Value
resolution_value r = json_object (
    (codes "requested", string r.requested)
    ∷ (codes "profile", string r.profile)
    ∷ (codes "program", string r.program)
    ∷ (codes "args", strings_value r.args)
    ∷ (codes "settingsPath", string r.settings_path)
    ∷ [])

abbrev shell_entries : ShellSettings → Text → List (Text × Value)
shell_entries settings settings_path =
    (codes "default", string settings.default)
    ∷ (codes "interactive", string settings.interactive)
    ∷ (codes "profiles", json_object (profile_entries settings.profiles))
    ∷ (codes "settingsPath", string settings_path)
    ∷ []

abbrev no_store : Chain
no_store = codes "settings store is not available" ∷ []

unfoldable pub list_shells : Option (SettingsStore × SettingsState) → Outcome Chain ToolResult
list_shells none = err no_store
list_shells (some (store, state)) =
    let shells = state.settings.shells in
    ok (record {
      metadata = json_object (
          shell_entries shells store.path
          ++ ((codes "settingsError", option_value state.reload_error) ∷ []));
      output = tool_output (format_shell_settings shells store.path state.reload_error);
    })

module _ {S : Type 0} (files : SettingsFiles S) (codec : Codec) (machine : Machine) where
  abbrev default_report : Text → SettingsStore → ShellResolution → ToolResult
  default_report shell store r = record {
    metadata = json_object (
        (codes "defaultShell", string shell)
        ∷ (codes "resolution", resolution_value r)
        ∷ (codes "settingsPath", string store.path)
        ∷ []);
    output = tool_output (
        codes "defaultShell:"
        ++ (shell
            ++ (codes "\nsettingsPath:"
                ++ (store.path
                    ++ (codes "\nresolution: requested="
                        ++ (r.requested
                            ++ (codes " profile="
                                ++ (r.profile
                                    ++ (codes " program="
                                        ++ (r.program
                                            ++ (codes " args="
                                                ++ (display_args r.args
                                                    ++ (codes " settingsPath="
                                                        ++ r.settings_path)))))))))))));
  }

  abbrev pub report_default :
      Text
      → SettingsStore
      → S × SettingsState × Outcome Chain ShellResolution
      → S × SettingsState × Outcome Chain ToolResult
  report_default shell store (st, state, ok r) = (st, state, ok (default_report shell store r))
  report_default shell store (st, state, err e) = (st, state, err e)
  report_default shell store (st, state, panic) = (st, state, panic)

  unfoldable pub set_default_shell_tool :
      S → SettingsStore → SettingsState → Text → S × SettingsState × Outcome Chain ToolResult
  set_default_shell_tool st store state shell =
      report_default (trim shell) store
        (Store.set_default_shell files codec machine st store state shell)

  abbrev pub report_reload :
      SettingsStore
      → SettingsState × Outcome Chain (Unit {0})
      → SettingsState × Outcome Chain ToolResult
  report_reload store (state, err e) = (state, err e)
  report_reload store (state, panic) = (state, panic)
  report_reload store (state, ok u) =
      let shells = state.settings.shells in
      (
        state,
        ok (record {
          metadata = json_object ((codes "reloaded", bool true) ∷ shell_entries shells store.path);
          output =
              tool_output (codes "reloaded:true\n" ++ format_shell_settings shells store.path none);
        }),
      )

  unfoldable pub request_reload :
      S → SettingsStore → SettingsState → SettingsState × Outcome Chain ToolResult
  request_reload st store state = report_reload store (reload files codec machine st store state)
