-- ===== src/Servers/Common.antt =====
-- mediascanmonitor/servers/base.py: the results of an adapter's calls, and the adapter itself.
use syno_plex_change_monitor.Base.{ℕ, Bool, false, Option, List, []}
use syno_plex_change_monitor.Base.Text.{Text, codes}
use syno_plex_change_monitor.Pipeline.Events.{ScanRequest}

pub record TriggerResult : Type 0 where
  pub ok : Bool
  pub status_code : Option ℕ
  pub detail : Text

pub record TestResult : Type 0 where
  pub ok : Bool
  pub detail : Text

pub record LibraryOption : Type 0 where
  pub id : Text
  pub name : Text

pub record LibraryListResult : Type 0 where
  pub ok : Bool
  pub detail : Text
  pub libraries : List LibraryOption

-- How an awaited call ends: with a value, with an `Exception` (its `repr`), or cancelled.
pub data Outcome {ℓ} (A : Type ℓ) : Type ℓ where
  returned : A → Outcome A
  raised : Text → Outcome A
  cancelled : Outcome A

-- `ServerAdapter.list_libraries`, for a backend without libraries.
unfoldable pub default_list_libraries : LibraryListResult
default_list_libraries = record { ok = false; detail = codes "not supported"; libraries = [] }

-- `ServerAdapter` for one server: its methods, and what its class declares.
pub record ServerAdapter : Type 0 where
  pub trigger : ScanRequest → Outcome TriggerResult
  pub test : Outcome TestResult
  pub list_libraries : Outcome LibraryListResult
  pub supports_library_discovery : Bool
