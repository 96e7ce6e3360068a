-- ===== src/T1/Refresh/Cadence.antt =====
-- How often a quality update comes, over any history of submissions.
use sony_prs.Base.{
  ℕ, ◌+◌, ◌≤◌, ◌%◌, ◌≡◌, refl, Bool, List, [], ◌∷◌, arith, ◌==◌, if◌then◌else◌, ◌∙◌, ap,
}
use sony_prs.T1.Refresh.{
  du, gc16, monochrome, grayscale, RefreshReason, full_redraw, status_bar, transient, page_turn,
  RefreshPolicy, default_policy, plan, record_success,
}

-- A frame: what the caller plans, and whether the submission succeeds. Only then is it recorded.
pub record Frame : Type 0 where
  pub reason : RefreshReason
  pub submitted : Bool

unfoldable pub submit : RefreshPolicy → Frame → RefreshPolicy
submit policy f =
    if f.submitted then record_success policy f.reason (plan policy f.reason) else policy

unfoldable pub run : RefreshPolicy → List Frame → RefreshPolicy
run policy [] = policy
run policy (f ∷ fs) = run (submit policy f) fs

-- The cadence by itself, in plain counting: the monochrome page turns that were submitted since
-- the last update with the quality waveform, which every fifth of them is. It knows no plans.
unfoldable pub turn_count : RefreshReason → ℕ → ℕ
turn_count full_redraw n = 0
turn_count (page_turn grayscale) n = 0
turn_count (page_turn monochrome) n = (n + 1) % 5
turn_count status_bar n = n
turn_count transient n = n

unfoldable pub turns_since : ℕ → List Frame → ℕ
turns_since n [] = n
turns_since n (f ∷ fs) = turns_since (if f.submitted then turn_count f.reason n else n) fs

submit_count :
    (policy : RefreshPolicy) (reason : RefreshReason) (submitted : Bool)
    → policy.fast_page_turns ≤ 4
    → ((submit policy (record { reason = reason; submitted = submitted })).fast_page_turns
        ≡ (if submitted then turn_count reason policy.fast_page_turns else policy.fast_page_turns))
      × ((submit policy (record { reason = reason; submitted = submitted })).fast_page_turns ≤ 4)
unfolding submit plan record_success turn_count
submit_count policy full_redraw submitted h = ground arith
submit_count policy (page_turn grayscale) submitted h = ground arith
submit_count policy (page_turn monochrome) submitted h = ground arith
submit_count policy _ submitted h = ground arith

-- From a counter of at most four, over any history of frames, the counter is the number of fast
-- page turns since the last quality update, and never passes four.
pub run-turns_since :
    (policy : RefreshPolicy) (fs : List Frame)
    → policy.fast_page_turns ≤ 4
    → ((run policy fs).fast_page_turns ≡ turns_since policy.fast_page_turns fs)
      × ((run policy fs).fast_page_turns ≤ 4)
unfolding run turns_since
run-turns_since policy [] h = (refl, h)
run-turns_since policy (f ∷ fs) h =
    let (count, small) = submit_count policy f.reason f.submitted h in
    let (rest, le) = run-turns_since (submit policy f) fs small in
    (rest ∙ ap (λ n. turns_since n fs) count, le)

-- From the start, after any history, a monochrome page turn is planned as a cleanup with the
-- quality waveform exactly if four fast ones went before it, and is fast otherwise.
pub plan-run :
    (fs : List Frame)
    → let p = plan (run default_policy fs) (page_turn monochrome) in
      (p.cleanup ≡ (turns_since 0 fs == 4))
      × (p.waveform ≡ (if turns_since 0 fs == 4 then gc16 else du))
      × (p.force_refresh ≡ p.cleanup)
      × (p.wait_for_completion ≡ p.cleanup)
unfolding plan
plan-run fs = ground (arith, run-turns_since default_policy fs (omega arith))
