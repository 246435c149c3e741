-- ===== src/CString/Text.antt =====
-- A string in memory as the list of its characters.
use jos_miles.Prelude.{ℕ, ◌+◌, ◌≡◌, ◌≢◌, List, [], ◌∷◌}
use jos_miles.CString.{Bytes}

-- The string cs stands at p, with its terminating 0.
abbrev pub TextAt : Bytes → ℕ → List ℕ → Type 0
TextAt mem p [] = mem p ≡ 0
TextAt mem p (c ∷ cs) = (mem p ≡ c) × (c ≢ 0) × TextAt mem (p + 1) cs
