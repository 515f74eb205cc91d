-- ===== src/Camhealth/Escalation.antt =====
-- On the ladder of src/camhealth.c under errored frames.
use forgectrl.Prelude.{
  ℕ, zero, suc, ◌+◌, ◌-◌, ◌*◌, ◌≤◌, ◌<◌, ◌≡◌, ◌≢◌, inl, inr, refl, Bool, true, false, ltb, leb,
  arith, Bool-cases,
}
use forgectrl.Camhealth.Ladder.{Health, frame_abort, cam_health_frame, follow, errored}

pub record IsLadder (h : Health) : Type 0 where
  pub warm : h.warmup ≤ 2
  pub few_bad : h.bad < 4
  pub few_restarts : h.restarts ≤ 3

-- The errored frames in a row that are left, the last one of them included.
abbrev pub left : Health → ℕ
left h = (3 - h.restarts) * 4 + (4 - h.bad)

-- Behind every answer but the last the ladder is as it should be.
frame_keeps :
    (e : Bool) (h : Health)
    → IsLadder h
    → (cam_health_frame e h).1 ≢ frame_abort
    → IsLadder (follow (cam_health_frame e h))
unfolding cam_health_frame
frame_keeps true h v n = elim (Bool-cases (ltb (h.bad + 1) 4)) [
  | inl c ↦ rw c (record { warm = v.warm; few_bad = ground arith; few_restarts = v.few_restarts })
  | inr c ↦ elim (Bool-cases (leb 3 h.restarts)) [
    | inl d ↦ absurd (n (rw (c, d) refl))
    | inr d ↦
        rw (c, d)
          (record { warm = omega arith; few_bad = omega arith; few_restarts = ground arith })
  ]
]
frame_keeps false h v n = elim (Bool-cases (ltb 0 h.warmup)) [
  | inl c ↦ rw c (record {
    warm = let w = v.warm in omega arith;
    few_bad = omega arith;
    few_restarts = v.few_restarts;
  })
  | inr c ↦ rw c (record { warm = v.warm; few_bad = omega arith; few_restarts = omega arith })
]

abort_last : (h : Health) → IsLadder h → left h ≡ 1 → (cam_health_frame true h).1 ≡ frame_abort
unfolding cam_health_frame
abort_last h v e =
    let f = v.few_bad in
    let r = v.few_restarts in
    let c : ltb (h.bad + 1) 4 ≡ false = ground arith in
    let d : leb 3 h.restarts ≡ true = ground arith in rw (c, d) refl

one_fewer :
    (h : Health) (n : ℕ)
    → IsLadder h
    → left h ≡ suc (suc n)
    → ((cam_health_frame true h).1 ≢ frame_abort)
      × (left (follow (cam_health_frame true h)) ≡ suc n)
unfolding cam_health_frame
one_fewer h n v e =
    let f = v.few_bad in
    let r = v.few_restarts in
    elim (Bool-cases (ltb (h.bad + 1) 4)) [
      | inl c ↦ rw c (λ k. ground arith, ground arith)
      | inr c ↦
          let d : leb 3 h.restarts ≡ false = ground arith in
          rw (c, d) (λ k. ground arith, ground arith)
    ]

errored_from : (n : ℕ) (h : Health) → IsLadder h → left h ≡ suc n → (errored n h).1 ≡ frame_abort
unfolding errored
errored_from zero h v e = abort_last h v e
errored_from (suc n) h v e =
    let (a, b) = one_fewer h n v e in
    errored_from n (follow (cam_health_frame true h)) (frame_keeps true h v a) b

errored_before :
    (n m : ℕ) (h : Health) → IsLadder h → left h ≡ suc n → m < n → (errored m h).1 ≢ frame_abort
unfolding errored
errored_before zero m h v e k = absurd (omega arith)
errored_before (suc n) zero h v e k = (one_fewer h n v e).0
errored_before (suc n) (suc m) h v e k =
    let (a, b) = one_fewer h n v e in
    errored_before n m (follow (cam_health_frame true h)) (frame_keeps true h v a) b (omega arith)

-- From wherever the ladder stands, a queue that delivers nothing but errored frames is given up at
-- exactly the frame that the restarts and errors so far leave, at most the sixteenth, and at none
-- before it; and a frame of either kind that is not given up on leaves the ladder within its
-- bounds.
pub cam_health_gives_up :
    (h : Health) (m : ℕ) (e : Bool)
    → IsLadder h
    → ((errored (left h - 1) h).1 ≡ frame_abort)
      × (left h ≤ 16)
      × (m < left h - 1 → (errored m h).1 ≢ frame_abort)
      × ((cam_health_frame e h).1 ≢ frame_abort → IsLadder (follow (cam_health_frame e h)))
cam_health_gives_up h m e v =
    let f = v.few_bad in
    let k : left h ≡ suc (left h - 1) = omega arith in
    (
      errored_from (left h - 1) h v k,
      omega arith,
      (λ l. errored_before (left h - 1) m h v k l),
      frame_keeps e h v,
    )
