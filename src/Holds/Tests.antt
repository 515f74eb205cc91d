-- ===== src/Holds/Tests.antt =====
-- The verdict at concrete directories.
use forgectrl.Prelude.{◌≡◌, false, [], ◌∷◌, none, some, codes}
use forgectrl.Holds.Verdict.{File, Scan, entries, missing, holds_read}
use forgectrl.Holds.Standing.{withholds, holds_read-standing}

abbrev files : Scan File
files = entries (
    record {
      stem = codes "org.a";
      content =
          some (record {
            id = codes "org.a";
            required = false;
            raised = false;
            reason = [];
            at = 900;
          });
    }
    ∷ record { stem = codes "org.b"; content = none }
    ∷ [])

holds_read-standing_example :
    (holds_read 1000 files missing).standing ≡ withholds 1000 files missing
holds_read-standing_example = holds_read-standing 1000 files missing
