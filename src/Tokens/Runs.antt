-- ===== src/Tokens/Runs.antt =====
-- On any run of the calls of src/tokens.c, with restarts of the daemon.
use forgectrl.Prelude.{
  ◌<◌, ◌^◌, refl, sym, ap, ◌∙◌, Bool, true, false, List, [], ◌∷◌, Option, none, some, Bytes, codes,
  length, if◌then◌else◌, arith,
}
use forgectrl.Tokens.Caps.{caps_parse, Parsed, parsed, bad_cap}
use forgectrl.Tokens.File.{load}
use forgectrl.Tokens.Store.{
  Store, World, save, tokens_init, tokens_flush, tokens_check, tokens_create, tokens_revoke,
  tokens_host_mint, mint_with, random_hex,
}
use forgectrl.Tokens.Kept.{IsStore, save-IsStore, check-IsStore, length-grants}
use forgectrl.Tokens.Making.{RawBytes, create-IsStore, revoke-IsStore}

-- The calls that other components make, each with what its surroundings give; a restart loses what
-- only the memory has.
pub data Call : Type 0 where
  restart flush : World → Call
  check : World → Bytes → Option Bytes → Call
  create : World → Bytes → Bytes → Option Bytes → Option Bytes → Call
  revoke : World → Bytes → Call
  mint : Option Bytes → Call

-- A daemon that starts has no credential for the host yet.
abbrev pub restarted : World → Store → Store
restarted w s = tokens_init w (record {
  tokens = [];
  file = s.file;
  dirty = false;
  last_flush = 0;
  host_tok = [];
  host_caps = [];
})

unfoldable pub call : Call → Store → Store
call (restart w) s = restarted w s
call (flush w) s = tokens_flush w s
call (check w presented cap) s = (tokens_check w presented cap s).0
call (create w name caps raw raw_id) s = (tokens_create w name caps raw raw_id s).0
call (revoke w id) s = (tokens_revoke w id s).0
call (mint raw) s = (tokens_host_mint raw s).0

unfoldable pub run : List Call → Store → Store
run [] s = s
run (c ∷ cs) s = run cs (call c s)

-- The wall clock's seconds fit a `long`, and the random bytes are bytes.
abbrev pub IsCall : Call → Type 0
IsCall (restart w) = Unit
IsCall (flush w) = Unit
IsCall (check w presented cap) = w.wall < 2 ^ 63
IsCall (create w name caps raw raw_id) = (w.wall < 2 ^ 63) × RawBytes raw_id
IsCall (revoke w id) = Unit
IsCall (mint raw) = Unit

abbrev pub AllCalls : List Call → Type 0
AllCalls [] = Unit
AllCalls (c ∷ cs) = IsCall c × AllCalls cs

-- The credential of the host is no token of the table.
mint-IsStore :
    (p : Parsed) (hex : Option Bytes) (s : Store) → IsStore s → IsStore (mint_with p hex s).0
mint-IsStore (bad_cap word) hex s v = v
mint-IsStore (parsed set) none s v = v
mint-IsStore (parsed set) (some hex) s v = record {
  at_most = v.at_most;
  all_tokens = v.all_tokens;
  file_tokens = v.file_tokens;
  synced = v.synced;
}

restarted-IsStore : (w : World) (s : Store) → IsStore s → IsStore (restarted w s)
restarted-IsStore w s v =
    let n = sym (length-grants (load s.file)) ∙ ap length v.synced ∙ length-grants s.tokens in
    record {
      at_most = let few = v.at_most in omega (arith, n);
      all_tokens = v.file_tokens;
      file_tokens = v.file_tokens;
      synced = refl;
    }

flush-IsStore : (w : World) (s : Store) → IsStore s → IsStore (tokens_flush w s)
unfolding tokens_flush
flush-IsStore w s v =
    let both : (b : Bool) → IsStore (if b then (save w s).0 else s) = λ b.
      elim b as (λ b. IsStore (if b then (save w s).0 else s)) [
        | true ↦ save-IsStore w s v
        | false ↦ v
      ] in
    both s.dirty

call-IsStore : (c : Call) (s : Store) → IsCall c → IsStore s → IsStore (call c s)
unfolding call
call-IsStore (restart w) s l v = restarted-IsStore w s v
call-IsStore (flush w) s l v = flush-IsStore w s v
call-IsStore (check w presented cap) s l v = check-IsStore w presented cap s l v
call-IsStore (create w name caps raw raw_id) s l v =
    create-IsStore w name caps raw raw_id s l.0 l.1 v
call-IsStore (revoke w id) s l v = revoke-IsStore w id s v
call-IsStore (mint raw) s l v =
    unfold tokens_host_mint in
    mint-IsStore (caps_parse (codes "motion.jog,motion.job")) (random_hex 16 raw) s v

-- Whatever calls and restarts there are, with a disk that takes a write or not, the table has at
-- most 16 tokens, all well formed, and a restart at any time has exactly the same tokens but for
-- the times of their last use, for a table that is so.
pub run-IsStore : (cs : List Call) (s : Store) → AllCalls cs → IsStore s → IsStore (run cs s)
unfolding run
run-IsStore [] s l v = v
run-IsStore (c ∷ cs) s l v = run-IsStore cs (call c s) l.1 (call-IsStore c s l.0 v)
