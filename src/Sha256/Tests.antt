-- ===== src/Sha256/Tests.antt =====
-- The hash and the comparison at concrete inputs.
use forgectrl.Prelude.{big_endian, ◌≡◌, refl, codes, length, ◌/◌, ◌%◌}
use forgectrl.Sha256.Compare.{sha256_hex}
use forgectrl.Sha256.Compress.{Words}
use forgectrl.Sha256.Stream.{Ctx, initial, start, update, sha256, out_bytes}
use forgectrl.Sha256.Hmac.{hmac_sha256, block_key}
use forgectrl.Sha256.Digests.{hash_blocks, padded, sha256-blocks}

sha256-blocks_example :
    (sha256 (codes "abc")
      ≡ out_bytes (hash_blocks (length (padded (codes "abc")) / 64) initial (padded (codes "abc"))))
    × (length (padded (codes "abc")) % 64 ≡ 0)
sha256-blocks_example = sha256-blocks (codes "abc")

-- The hash of the text "abc", as the standard gives it.
abc :
    sha256_hex (sha256 (codes "abc"))
    ≡ codes "ba7816bf8f01cfea414140de5dae2223b00361a396177a9cb410ff61f20015ad"
unfolding sha256_hex sha256 forgectrl.Sha256.Stream.final update forgectrl.Sha256.Stream.feed
    forgectrl.Sha256.Stream.settle forgectrl.Sha256.Stream.pad_zeros big_endian out_bytes
    forgectrl.Sha256.Compress.compress forgectrl.Sha256.Compress.rounds
    forgectrl.Sha256.Compress.round forgectrl.Sha256.Compress.rotr forgectrl.Sha256.Compress.extend
    forgectrl.Sha256.Compress.next_word forgectrl.Sha256.Compress.load_from
    forgectrl.Sha256.Compress.load
abc = refl

-- The second test case of RFC 4231.
jefe :
    sha256_hex (hmac_sha256 (codes "Jefe") (codes "what do ya want for nothing?"))
    ≡ codes "5bdcc146bf60754e6a042426089575c75a003f089d2739839dec58b964ec3843"
unfolding hmac_sha256 block_key sha256_hex sha256 forgectrl.Sha256.Stream.final update
    forgectrl.Sha256.Stream.feed forgectrl.Sha256.Stream.settle forgectrl.Sha256.Stream.pad_zeros
    big_endian out_bytes forgectrl.Sha256.Compress.compress forgectrl.Sha256.Compress.rounds
    forgectrl.Sha256.Compress.round forgectrl.Sha256.Compress.rotr forgectrl.Sha256.Compress.extend
    forgectrl.Sha256.Compress.next_word forgectrl.Sha256.Compress.load_from
    forgectrl.Sha256.Compress.load
jefe = refl
