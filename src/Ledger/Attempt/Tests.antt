-- ===== src/Ledger/Attempt/Tests.antt =====
-- A concrete attempt with two claims, published.
use helianthus_modbusreg.Base.{
  ℕ, ◌≤◌, ◌⊎◌, ◌≡◌, refl, arith, ap, true, List, [], ◌∷◌, some, none, get_elem?,
}
use helianthus_modbusreg.Ledger.{claim_succeeded, published, publishing}
use helianthus_modbusreg.Ledger.Attempt.{
  RuntimeClaimEntry, RuntimeAttemptState, in_progress, terminal, new_attempt, admit, begin_claim,
  end_claim, seal, start_publish, open_entries, begin_at, begin_entry, all_succeeded,
}
use helianthus_modbusreg.Ledger.Attempt.Lifecycle.{
  claim_begins, claim_ends, seals, admits, publish_starts, Reach, started, followed, Sound,
  Reach-Sound, is_frozen,
}
use helianthus_modbusreg.Ledger.Attempt.Progress.{Forward, Kept, Reach-Forward}
use helianthus_modbusreg.Ledger.Attempt.Calls.{
  Calls, after_begin, after_end, call_begins, call_ends, call_seals, call_admits, call_publishes,
  Run, idle, moved, no_calls,
}
use helianthus_modbusreg.Ledger.Attempt.Calls.Once.{InProgress, Run-Kept, Run-once}
use helianthus_modbusreg.Ledger.Attempt.Tombstones.{
  terminal_tombstones, attempt_tombstone, success_tombstones, terminal_tombstones-success,
}

abbrev two : List ℕ
two = 42 ∷ 43 ∷ []

abbrev taken : ℕ → RuntimeClaimEntry
taken n = record { phase = in_progress; outcome = none; terminal_sequence = n }

abbrev fresh : RuntimeAttemptState
fresh = new_attempt 41 two

abbrev admitted : RuntimeAttemptState
admitted = (admit fresh true true true).0

-- Both claims are in progress before the first ends.
abbrev both : RuntimeAttemptState
both = (begin_claim (begin_claim admitted 1).0 0).0

abbrev claimed : RuntimeAttemptState
claimed = end_claim (end_claim both 1 (taken 43) claim_succeeded) 0 (taken 42) claim_succeeded

abbrev on_the_way : RuntimeAttemptState
on_the_way = (start_publish (seal claimed).0).0

first_taken : get_elem? both.entries 1 ≡ some (taken 43)
unfolding new_attempt open_entries admit begin_claim begin_at begin_entry
first_taken = refl

second_taken : get_elem? (end_claim both 1 (taken 43) claim_succeeded).entries 0 ≡ some (taken 42)
unfolding new_attempt open_entries admit begin_claim begin_at begin_entry end_claim
second_taken = refl

Reach-claimed : Reach fresh claimed
Reach-claimed =
    followed
      (followed
        (followed (followed (followed started (admits true true true)) (claim_begins 1))
          (claim_begins 0))
        (claim_ends 1 (taken 43) claim_succeeded first_taken refl))
      (claim_ends 0 (taken 42) claim_succeeded second_taken refl)

Reach-publishing : Reach fresh on_the_way
Reach-publishing = followed (followed Reach-claimed seals) publish_starts

publishing_now : on_the_way.phase ≡ publishing
unfolding new_attempt open_entries admit begin_claim begin_at begin_entry end_claim seal
    start_publish all_succeeded
publishing_now = refl

Reach-Sound_example : Sound on_the_way
Reach-Sound_example = Reach-Sound 41 two on_the_way Reach-publishing

Reach-Forward_example : Forward fresh on_the_way
Reach-Forward_example = Reach-Forward fresh on_the_way Reach-publishing

frozen_now : is_frozen on_the_way.phase ≡ true
frozen_now = ap is_frozen publishing_now

terminal_tombstones-success_example :
    terminal_tombstones on_the_way published
    ≡ attempt_tombstone 41 2 published ∷ success_tombstones 41 0 (42 ∷ 43 ∷ [])
terminal_tombstones-success_example =
    terminal_tombstones-success 41 two on_the_way published Reach-publishing frozen_now

abbrev done : RuntimeClaimEntry
done = record { phase = terminal; outcome = some claim_succeeded; terminal_sequence = 42 }

first_done : get_elem? claimed.entries 0 ≡ some done
unfolding new_attempt open_entries admit begin_claim begin_at begin_entry end_claim
first_done = refl

-- The same run by its callers: both are inside `Claim` before the first ends.
abbrev both_inside : Calls
both_inside =
    let c = record (no_calls 41 two) { attempt = admitted } in
    let d = after_begin c 1 (begin_claim c.attempt 1) in after_begin d 0 (begin_claim d.attempt 0)

abbrev both_ended : Calls
both_ended =
    after_end (after_end both_inside 1 (taken 43) claim_succeeded) 0 (taken 42) claim_succeeded

first_inside : 1 ≤ both_inside.claiming 1
unfolding new_attempt open_entries admit begin_claim begin_at begin_entry
first_inside = omega arith

second_inside : 1 ≤ (after_end both_inside 1 (taken 43) claim_succeeded).claiming 0
unfolding new_attempt open_entries admit begin_claim begin_at begin_entry
second_inside = omega arith

Run-both_ended : Run (no_calls 41 two) both_ended
Run-both_ended =
    moved
      (moved
        (moved (moved (moved idle (call_admits true true true)) (call_begins 1)) (call_begins 0))
        (call_ends 1 (taken 43) claim_succeeded first_inside first_taken))
      (call_ends 0 (taken 42) claim_succeeded second_inside second_taken)

Run-to_publish : Run both_ended (record both_ended { attempt = on_the_way })
Run-to_publish = moved (moved idle call_seals) call_publishes

Run-Kept_example : Kept on_the_way 0 done
Run-Kept_example =
    Run-Kept 41 two both_ended (record both_ended { attempt = on_the_way }) 0 done Run-both_ended
      Run-to_publish first_done refl

Run-once_example :
    (both_ended.invoked 1 ≤ 1)
    × (both_ended.claiming 1 ≤ both_ended.invoked 1)
    × ((both_ended.claiming 1 ≡ 0) ⊎ InProgress both_ended.attempt.entries 1)
Run-once_example = Run-once 41 two both_ended 1 Run-both_ended
