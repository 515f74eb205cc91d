-- ===== src/Relcheck/Ordered.antt =====
-- On `relcheck_is_newer` of src/relcheck.c as an order.
use forgectrl.Prelude.{◌≡◌, some, Bytes}
use forgectrl.Relcheck.Versions.{Version, parse_version}

-- A text's version.
abbrev pub IsVersion : Bytes → Version → Type 0
IsVersion s v = parse_version s ≡ some v
