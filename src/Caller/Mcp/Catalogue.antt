-- ===== src/Caller/Mcp/Catalogue.antt =====
-- The tools that caller/mcp.rs tells of, with the schemas of their parameters.
use remote_executor.Base.{Bool, true, false, Option, none, some, List, [], ◌∷◌, if◌then◌else◌}
use remote_executor.Base.Options.{and_then}
use remote_executor.Text.{Text, codes}
use remote_executor.Json.{
  Value, null, bool, number, string, array, object, Fields, end, field, get, insert_field,
  remove_field, as_str, as_object,
}
use remote_executor.Protocol.{json_object, strings_value}

unfoldable pub prop : Text → Text → Value
unfolding json_object
prop name kind = json_object ((codes "name", string name) ∷ (codes "type", string kind) ∷ [])

unfoldable pub prop_desc : Text → Text → Text → Value
unfolding json_object
prop_desc name kind description = json_object (
    (codes "name", string name)
    ∷ (codes "type", string kind)
    ∷ (codes "description", string description)
    ∷ [])

-- `prop.as_object_mut().unwrap().remove("name")`
abbrev pub without_name : Value → Value
without_name (object fs) = object (remove_field (codes "name") fs)
without_name null = null
without_name (bool b) = bool b
without_name (number n) = number n
without_name (string s) = string s
without_name (array xs) = array xs

abbrev pub insert_prop : Option Text → Value → Fields → Fields
insert_prop none value properties = properties
insert_prop (some name) value properties = insert_field name (without_name value) properties

-- the loop of `schema`
unfoldable pub insert_props : List Value → Fields → Fields
insert_props [] properties = properties
insert_props (value ∷ rest) properties =
    insert_props rest (insert_prop (and_then (get (codes "name") value) as_str) value properties)

unfoldable pub schema : List Text → List Value → Value
unfolding json_object
schema required props = json_object (
    (codes "type", string (codes "object"))
    ∷ (codes "properties", object (insert_props props end))
    ∷ (codes "required", strings_value required)
    ∷ [])

abbrev pub string_type : Value
string_type = object (field (codes "type") (string (codes "string")) end)

-- the properties with those that say where a call goes
abbrev pub routed : Bool → Fields → Fields
routed directory properties =
    let with_target = insert_field (codes "targetExecutor") string_type properties in
    if directory then insert_field (codes "directory") string_type with_target else with_target

abbrev put_properties : Bool → Value → Option Fields → Value
put_properties directory (object fs) (some properties) =
    object (insert_field (codes "properties") (object (routed directory properties)) fs)
put_properties directory input_schema _ = input_schema

unfoldable pub add_executor_routing : Value → Bool → Value
add_executor_routing input_schema directory =
    put_properties directory input_schema
      (and_then (get (codes "properties") input_schema) as_object)

unfoldable pub tool : Text → Text → Value → Value
unfolding json_object
tool name description input_schema = json_object (
    (codes "name", string name)
    ∷ (codes "description", string description)
    ∷ (codes "inputSchema", input_schema)
    ∷ [])

unfoldable pub executor_tool : Text → Text → Value → Bool → Value
executor_tool name description input_schema directory =
    tool name description (add_executor_routing input_schema directory)

unfoldable pub tools : List Value
tools =
    executor_tool (codes "read") (codes "Read a file or directory")
      (schema (codes "filePath" ∷ []) (
        prop (codes "filePath") (codes "string")
        ∷ prop (codes "mode") (codes "string")
        ∷ prop (codes "offset") (codes "number")
        ∷ prop (codes "limit") (codes "number")
        ∷ prop (codes "hashCheckMode") (codes "boolean")
        ∷ []))
      true
    ∷ executor_tool (codes "glob") (codes "Find files by glob pattern")
        (schema (codes "pattern" ∷ [])
          (prop (codes "pattern") (codes "string") ∷ prop (codes "path") (codes "string") ∷ []))
        true
    ∷ executor_tool (codes "stat") (codes "Return a FileStamp for a file path")
        (schema (codes "filePath" ∷ []) (prop (codes "filePath") (codes "string") ∷ [])) true
    ∷ executor_tool (codes "FileAction") (codes "Create, delete, rename, or patch a single file")
        (schema (codes "mode" ∷ codes "filePath" ∷ []) (
          prop (codes "mode") (codes "string")
          ∷ prop (codes "filePath") (codes "string")
          ∷ prop (codes "newFilePath") (codes "string")
          ∷ prop (codes "patchText") (codes "string")
          ∷ prop (codes "content") (codes "string")
          ∷ prop (codes "patchMode") (codes "string")
          ∷ prop (codes "hashCheckMode") (codes "boolean")
          ∷ prop (codes "hashCode") (codes "string")
          ∷ []))
        true
    ∷ executor_tool (codes "set_default_shell")
        (codes "Set and persist the default exbash shell profile on the target Executor")
        (schema (codes "shell" ∷ []) (prop (codes "shell") (codes "string") ∷ [])) false
    ∷ executor_tool (codes "list_shells")
        (codes "List configured exbash shell profiles on the target Executor") (schema [] []) false
    ∷ executor_tool (codes "request_reload")
        (codes "Reload and validate Executor settings from disk") (schema [] []) false
    ∷ executor_tool (codes "file_transfer")
        (codes
          "Prepare same-port HTTP file transfer request metadata; bytes are transferred outside MCP")
        (schema (codes "mode" ∷ codes "localPath" ∷ codes "targetPath" ∷ []) (
          prop (codes "mode") (codes "string")
          ∷ prop (codes "localPath") (codes "string")
          ∷ prop (codes "targetPath") (codes "string")
          ∷ prop (codes "overwrite") (codes "boolean")
          ∷ []))
        false
    ∷ executor_tool (codes "exbash")
        (codes
          "PTY-backed background terminal. Prefer shell mode for ordinary commands because it uses the configured shell and normal program lookup. Use run only when the first token is an explicit executable program; run splits command into executable + args without shell parsing.")
        (schema (codes "mode" ∷ []) (
          prop_desc (codes "mode") (codes "string") (
            codes
              "Operation selector. Prefer shell for normal commands; run requires an explicit executable program as the first token and does not use shell syntax.")
          ∷ prop_desc (codes "command") (codes "string") (
              codes
                "Command input must be at most 4KB. In shell mode it is sent to the configured shell; in run mode it is split into executable + argv without shell parsing.")
          ∷ prop (codes "shell") (codes "string")
          ∷ prop (codes "description") (codes "string")
          ∷ prop_desc (codes "timeout") (codes "number") (
              codes
                "Total lifetime timeout in ms for run/shell. For attach, timeout is accepted as a legacy read wait when read_timeout is absent, capped at 10000 ms.")
          ∷ prop_desc (codes "read_timeout") (codes "number") (
              codes
                "Read wait in ms. Attach uses this field; if timeout is also present, read_timeout wins.")
          ∷ prop (codes "asyncID") (codes "string")
          ∷ prop_desc (codes "text") (codes "string") (
              codes
                "Text input for attach mode, at most 4KB after escape parsing. Interactive programs may require control bytes; use \\n for Enter/newline and \\u0003 for Ctrl-C/control bytes.")
          ∷ prop (codes "filePath") (codes "string")
          ∷ prop (codes "showRawPretty") (codes "boolean")
          ∷ []))
        true
    ∷ executor_tool (codes "rg") (codes "Ripgrep-style search")
        (schema (codes "pattern" ∷ []) (
          prop (codes "pattern") (codes "string")
          ∷ prop (codes "root") (codes "string")
          ∷ prop (codes "path") (codes "string")
          ∷ prop (codes "globs") (codes "array")
          ∷ prop (codes "case_sensitive") (codes "boolean")
          ∷ prop (codes "max_count") (codes "number")
          ∷ prop_desc (codes "timeout") (codes "number")
              (codes "Soft search timeout in milliseconds. Default 10000. Use -1 for no timeout.")
          ∷ []))
        false
    ∷ tool (codes "list_executor") (codes "List connected executors") (schema [] [])
    ∷ tool (codes "connect_to_executor") (codes "Connect a WebSocket Executor") (
        schema (codes "id" ∷ codes "url" ∷ []) (
          prop (codes "id") (codes "string")
          ∷ prop (codes "url") (codes "string")
          ∷ prop (codes "system") (codes "string")
          ∷ prop (codes "device") (codes "string")
          ∷ prop (codes "labels") (codes "object")
          ∷ []))
    ∷ tool (codes "set_default_executor") (codes "Set the default Executor")
        (schema (codes "id" ∷ []) (prop (codes "id") (codes "string") ∷ []))
    ∷ []
