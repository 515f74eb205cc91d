-- ===== src/Cool/Airflow.antt =====
-- The airflow gates of a tick in src/cool.c.
use forgectrl.Prelude.{
  ℕ, Bool, true, false, not, ◌&&◌, ◌||◌, List, [], ◌∷◌, get_or, ltb, if◌then◌else◌,
}
use forgectrl.Airflow.Gate.{Air, off, grace, ok, under, tripped, Fan, airflow_tick, airflow_judged}
use forgectrl.Cool.State.{Engine, Sight}
use forgectrl.Cool.Fans.{air_assist_run, exhaust_run, intake_run, is_run, fans_verify}

-- A fan of the tick: whether it is judged, its reading and its floor.
pub record Row : Type 0 where
  pub judged : Bool
  pub rpm : ℕ
  pub least : ℕ

abbrev run_judged : Engine → ℕ → ℕ → Bool
run_judged e i here = airflow_judged (is_run e.phase) e.eff_armed (get_or e.cmd_duty i 0) here

-- The exhaust, the two intakes, the air assist and the purge fan.
abbrev pub rows : Sight → Engine → List Row
rows x e =
    let reads : ℕ → ℕ = λ i. get_or x.fan_reading i 0 in
    record {
      judged = run_judged e 1 exhaust_run;
      rpm = reads 0;
      least = e.coolant.eff_lim.exhaust_min;
    }
    ∷ record {
      judged = run_judged e 2 intake_run;
      rpm = reads 1;
      least = e.coolant.eff_lim.intake_min;
    }
    ∷ record {
      judged = not e.conf.one_intake && run_judged e 2 intake_run;
      rpm = reads 2;
      least = if e.conf.one_intake then 0 else e.coolant.eff_lim.intake_min;
    }
    ∷ record {
      judged = run_judged e 0 air_assist_run;
      rpm = reads 3;
      least = e.coolant.eff_lim.air_assist_min;
    }
    ∷ record {
      judged = airflow_judged (is_run e.phase) e.eff_armed 1 1;
      rpm = reads 4;
      least = e.conf.purge_min_current;
    }
    ∷ []

abbrev is_tripped : Air → Bool
is_tripped tripped = true
is_tripped off = false
is_tripped grace = false
is_tripped ok = false
is_tripped under = false

abbrev pub is_under : Row → Bool
is_under r = r.judged && (ltb 0 r.least && ltb r.rpm r.least)

unfoldable pub any_under : List Row → Bool
any_under [] = false
any_under (r ∷ rs) = is_under r || any_under rs

abbrev judge_one : Bool → Row → Fan → Fan
judge_one in_grace r f =
    if r.judged
    then airflow_tick (record { reading = r.rpm; floor = r.least; in_grace = in_grace }) f
    else f

unfoldable pub judge_fans : Bool → List Row → List Fan → List Fan
judge_fans in_grace [] fs = fs
judge_fans in_grace (r ∷ rs) [] = []
judge_fans in_grace (r ∷ rs) (f ∷ fs) = judge_one in_grace r f ∷ judge_fans in_grace rs fs

-- A fan that this tick judged and that is tripped.
unfoldable pub any_tripped : List Row → List Fan → Bool
any_tripped [] fs = false
any_tripped (r ∷ rs) [] = false
any_tripped (r ∷ rs) (f ∷ fs) = (r.judged && is_tripped f.state) || any_tripped rs fs

unfoldable pub judge_airflow : Sight → Engine → Engine
judge_airflow x e =
    let judged = judge_fans (ltb x.now e.air.grace_until) (rows x e) e.air.gates in
    record e {
      air = record e.air {
        gates = judged;
        air_alarm = e.air.air_alarm || any_tripped (rows x e) judged;
        fans_up = e.flood_on && not (any_under (rows x e));
      };
    }

unfoldable pub airflow_gates : Sight → Engine → Engine
airflow_gates x e = judge_airflow x (fans_verify x e)
