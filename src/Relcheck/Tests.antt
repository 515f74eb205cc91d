-- ===== src/Relcheck/Tests.antt =====
-- The versions of src/relcheck.c at concrete tags.
use forgectrl.Prelude.{◌≡◌, refl, false, [], none, codes}
use forgectrl.Relcheck.Versions.{Version, parse_version, strtol, relcheck_is_newer}

abbrev release : Version
release = record { major = 1; minor = 10; patch = 0; suffix = [] }

abbrev beta : Version
beta = record { major = 1; minor = 10; patch = 0; suffix = codes "beta.2" }

abbrev older : Version
older = record { major = 1; minor = 9; patch = 12; suffix = [] }

no_version : relcheck_is_newer (codes "nightly") none ≡ false
unfolding relcheck_is_newer parse_version strtol
no_version = refl
