-- ===== src/Db/Crypto.antt =====
-- mediascanmonitor/db/crypto.py: the key of the `SecretBox`. Of the file system there is the
-- content of the key file, `none` where it is not there. Parameter: the key that Fernet generates.
use syno_plex_change_monitor.Base.{
  arith, ℕ, ◌≡◌, refl, Bool, true, false, ◌&&◌, ◌||◌, Option, none, some, ◌∷◌, ◌==◌, nat_eq, leb,
  if◌then◌else◌,
}
use mathlib.Core.Path.{subst}
use mathlib.Core.Option.{some-injective}
use syno_plex_change_monitor.Base.Lists.{all}
use syno_plex_change_monitor.Base.Text.{Text, strip, is_space}

-- What `bytes.strip` takes for white space.
abbrev pub is_ascii_space : ℕ → Bool
is_ascii_space c = c == 32 || (leb 9 c && leb c 13)

-- The key, and the file after it.
pub record Loaded : Type 0 where
  pub key : Text
  pub file : Option Text

abbrev create_key : Bool → Text → Option Loaded
create_key can_create generated =
    if can_create then some (record { key = generated; file = some generated }) else none

abbrev from_file : Bool → Text → Option Text → Option Loaded
from_file can_create generated none = create_key can_create generated
from_file can_create generated (some content) =
    some (record { key = strip is_ascii_space content; file = some content })

-- `env_key.strip().encode("ascii")`
abbrev from_value : Text → Option Text → Option Loaded
from_value value file =
    let key = strip is_space value in
    if all (λ c. leb c 127) key then some (record { key = key; file = file }) else none

-- `load_or_create_key`, for a file that can be created or not; `none` stands for an exception.
unfoldable pub load_or_create_key : Bool → Text → Option Text → Option Text → Option Loaded
unfolding strip is_space
load_or_create_key can_create generated (some (c ∷ value)) file = from_value (c ∷ value) file
load_or_create_key can_create generated env_key file = from_file can_create generated file

-- Without a key in the environment, a second start finds the key of the first: whatever the first
-- loaded or created, the second loads the same key, writes nothing, and needs no file to be
-- created, provided that the key which Fernet generates has no white space around it.
pub load_or_create_key-again :
    (can_create can_create_later : Bool) (generated later : Text) (file : Option Text)
    (first : Loaded)
    → strip is_ascii_space generated ≡ generated
    → load_or_create_key can_create generated none file ≡ some first
    → load_or_create_key can_create_later later none first.file ≡ some first
unfolding load_or_create_key
load_or_create_key-again can later_can generated later (some content) first h e =
    subst (λ (l : Loaded). from_file later_can later l.file ≡ some l) (some-injective _ _ e) refl
load_or_create_key-again false later_can generated later none first h e = absurd (ground arith)
load_or_create_key-again true later_can generated later none first h e =
    subst (λ (l : Loaded). from_file later_can later l.file ≡ some l) (some-injective _ _ e)
      (rw h refl)
