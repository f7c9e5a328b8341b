-- ===== src/Executor/Info.antt =====
-- What the caller learns from an executor's description of itself.
use remote_executor.Base.{◌≡◌, refl, ap, true, false, Option, none, some}
use remote_executor.Base.Options.{or_option}
use remote_executor.Base.Outcome.{ok}
use remote_executor.Text.{Text, codes, text_eq, is_empty, trim}
use remote_executor.Dict.{text_lt}
use remote_executor.Json.{get_field, insert_field, as_str}
use remote_executor.Protocol.{json_object, option_value}
use remote_executor.Caller.{ExecutorEndpoint}
use remote_executor.Caller.Remote.{apply_info}
use remote_executor.Executor.{Executor, info_value}

text_at-option_value : (o : Option Text) → as_str (option_value o) ≡ o
text_at-option_value none = refl
text_at-option_value (some s) = refl

-- An executor whose version is not blank describes itself so that a caller takes the description: the
-- endpoint then has its version and protocol, its system and device where the caller gave none, and
-- knows that files can be transferred and where. The name and the address stay the caller's.
pub apply_info-info_value :
    (executor : Executor) (endpoint : ExecutorEndpoint)
    → is_empty (trim executor.version) ≡ false
    → (told : ExecutorEndpoint) × (apply_info endpoint (info_value executor) ≡ ok told)
      × (told.info.id ≡ endpoint.info.id)
      × (told.url ≡ endpoint.url)
      × (told.info.system ≡ or_option endpoint.info.system executor.info.system)
      × (told.info.device ≡ or_option endpoint.info.device executor.info.device)
      × (told.protocol ≡ some (codes "remote-executor"))
      × (told.version ≡ some executor.version)
      × (told.file_transfer ≡ true)
      × (told.file_transfer_path ≡ codes "/re-file/v1")
unfolding apply_info info_value json_object get_field insert_field text_eq text_lt trim
apply_info-info_value executor endpoint full = rw full (
  _,
  refl,
  refl,
  refl,
  ap (or_option endpoint.info.system) (text_at-option_value executor.info.system),
  ap (or_option endpoint.info.device) (text_at-option_value executor.info.device),
  refl,
  refl,
  refl,
  refl,
)
