-- ===== src/Super/Main.antt =====
-- `super_init`, `configured_mode` and the loop of `super_main` in src/super.c.
use forgectrl.Prelude.{
  Bool, true, false, ◌&&◌, List, [], ◌∷◌, Option, none, some, Bytes, codes, same, if◌then◌else◌,
}
use forgectrl.Super.State.{Ctl, grbl, cloud, Super, initial}
use forgectrl.Super.Sections.{Other, others}
use forgectrl.Super.Pass.{Pass, pass}

-- `configured_mode`, from the stored mode (`none` where it cannot be read) and `cloud_enabled`.
unfoldable pub configured_mode : Option Bytes → Bool → Ctl
configured_mode none enabled = grbl
configured_mode (some v) enabled = if same v (codes "cloud") && enabled then cloud else grbl

-- `super_init`
unfoldable pub init : Option Bytes → Bool → Bool → Super
unfolding configured_mode
init mode enabled unmanaged = record initial {
  want = configured_mode mode enabled;
  suspended = unmanaged;
  standby_takeover = unmanaged;
  th_run = true;
}

-- One turn of the loop: the pass, and the sections of other threads while it waits.
pub record Round : Type 0 where
  pub pass : Pass
  pub between : List Other

-- `while (th_run)` of `super_main`, over the turns that it makes.
unfoldable pub lifecycle : List Round → Super → Super
unfolding others
lifecycle [] s = s
lifecycle (r ∷ rs) s =
    let t = pass r.pass s in
    let rest = lifecycle rs (others r.between (record t { lamp_pending = false })) in
    if s.th_run then rest else s
