-- ===== src/Assembly/Urls/Split.antt =====
-- Where `extract_base_url` cuts a URL.
use zsync_rs.Prelude.{ℕ, ◌≡◌, ◌≢◌, ◌⊎◌, [], ◌∷◌, ◌++◌}
use zsync_rs.Prelude.{All}
use zsync_rs.Control.{Bytes}

-- The bytes of a name within a directory.
pub IsPlain : ℕ → Type 0
IsPlain c = (c ≢ b'/') × (c ≢ b'?') × (c ≢ b'#')

-- Empty, or ended by a slash.
pub IsDirectory : Bytes → Type 0
IsDirectory [] = Unit
IsDirectory (c ∷ []) = c ≡ b'/'
IsDirectory (c ∷ d ∷ ds) = IsDirectory (d ∷ ds)

-- Empty, or a query or a fragment.
pub IsSuffix : Bytes → Type 0
IsSuffix [] = Unit
IsSuffix (c ∷ cs) = (c ≡ b'?') ⊎ (c ≡ b'#')

IsInPath : ℕ → Type 0
IsInPath c = (c ≢ b'?') × (c ≢ b'#')

-- What `through_last_slash` promises of a path and the part of it that it keeps.
IsSplit : Bytes → Bytes → Type 0
IsSplit path kept = (name : Bytes) × (path ≡ kept ++ name) × All IsPlain name × IsDirectory kept
