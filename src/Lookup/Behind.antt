-- ===== src/Lookup/Behind.antt =====
-- One more name behind a path to a directory.
use unix_like_file_system.Base.{ℕ, List, [], ◌∷◌, ◌++◌}
use unix_like_file_system.Block.{Block}
use unix_like_file_system.Disk.{Disk}
use unix_like_file_system.Path.{Text}
use unix_like_file_system.Lookup.Resolves.{HasEntry, Lists, Resolves, here, into}
use unix_like_file_system.Lookup.Missing.{Leads, stay, enter_dir}

pub Leads-Resolves :
    {d : Disk} {current dir dirs : Block} {names : List Text} {name : Text} {n : ℕ}
    → Leads d current names dir
    → Lists d dir name dirs
    → HasEntry dirs name n
    → Resolves d current (names ++ name ∷ []) n
Leads-Resolves stay lists entry = here lists entry
Leads-Resolves {names = t ∷ []} (enter_dir is at found there is' leads) lists entry =
    into is at found there is' (Leads-Resolves leads lists entry)
Leads-Resolves {names = t ∷ u ∷ ts} (enter_dir is at found there is' leads) lists entry =
    into is at found there is' (Leads-Resolves leads lists entry)
