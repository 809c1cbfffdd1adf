-- ===== src/Conf/Loaded.antt =====
-- What the loader makes of a configuration file.
use bttracker.Common.{◌≡◌, ◌⊎◌, inl, inr, refl, Option, none, some}
use bttracker.Memory.{Bytes}
use bttracker.Text.{codes}
use bttracker.Conf.{KeyFile, crashed, loaded, load_config, load_file, fill}

abbrev pub restriction_text : KeyFile → Option Bytes
restriction_text file = file.get_string (codes "Announce") (codes "InfoHashRestriction")

abbrev pub level_text : KeyFile → Option Bytes
level_text file = file.get_string (codes "BtTracker") (codes "LogLevel")

load_cases :
    (file : KeyFile) (a b : Option Bytes)
    → restriction_text file ≡ a
    → level_text file ≡ b
    → load_config (some file) ≡ elim a [
      | none ↦ crashed
      | some r ↦ elim b [ none ↦ crashed | some l ↦ loaded (fill file r l) ]
    ]
unfolding load_config load_file
load_cases file none b e f = rw (e, load_file)
load_cases file (some r) none e f = rw (e, f, load_file)
load_cases file (some r) (some l) e f = rw (e, f, load_file)

missing_level :
    (file : KeyFile) (a : Option Bytes)
    → restriction_text file ≡ a
    → level_text file ≡ none
    → load_config (some file) ≡ crashed
missing_level file none e f = load_cases file none none e f
missing_level file (some r) e f = load_cases file (some r) none e f

-- Where the file can be loaded and lacks the restriction or the log level, the loader compares NULL.
pub load_config_crashed :
    (file : KeyFile)
    → (restriction_text file ≡ none) ⊎ (level_text file ≡ none)
    → load_config (some file) ≡ crashed
load_config_crashed file (inl e) = load_cases file none (level_text file) e refl
load_config_crashed file (inr f) = missing_level file (restriction_text file) refl f
