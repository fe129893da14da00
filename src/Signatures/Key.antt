-- ===== src/Signatures/Key.antt =====
-- Which line of the environment file gives the key.
use idsproject.Base.{Text, starts_with, false, ◌++◌, ◌≡◌}
use idsproject.Signatures.{prefix, trim}

abbrev pub IsKeyLine : Text → Text → Type 0
IsKeyLine key line = trim line ≡ prefix ++ key

abbrev pub HasNoKey : Text → Type 0
HasNoKey line = starts_with prefix (trim line) ≡ false
