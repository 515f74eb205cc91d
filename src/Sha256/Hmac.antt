-- ===== src/Sha256/Hmac.antt =====
-- `hmac_sha256` of src/sha256.c.
use Prim.Native.Nat.{bit_xor}
use forgectrl.Prelude.{ℕ, ◌-◌, ◌++◌, map, Bytes, length, replicate, ltb, if◌then◌else◌}
use forgectrl.Sha256.Stream.{start, update, final, sha256}

-- The key in a block of 64 bytes: its hash if it is longer.
unfoldable pub block_key : Bytes → Bytes
block_key key =
    let k = if ltb 64 (length key) then sha256 key else key in k ++ replicate (64 - length k) 0

-- `ipad` and `opad`
abbrev pub keyed : ℕ → Bytes → Bytes
keyed pad key = map (λ x. bit_xor x pad) (block_key key)

unfoldable pub hmac_sha256 : Bytes → Bytes → Bytes
hmac_sha256 key message =
    let inner = final (update (update start (keyed 54 key)) message) in
    final (update (update start (keyed 92 key)) inner)
