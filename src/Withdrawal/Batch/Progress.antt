-- ===== src/Withdrawal/Batch/Progress.antt =====
-- The choices never repeat or lose a request.
use psy_doge_solana_cli.Common.{
  ℕ, ◌+◌, ◌^◌, ◌<◌, ◌≤◌, ◌≡◌, ◌⊎◌, ◌↔◌, inl, inr, refl, Bool, true, false, Option, none, some,
  arith,
}
use psy_doge_solana_cli.Withdrawal.Batch.{
  capped_batch_end, fail, is_some, select_observed_batch_action, start, select_poll_action,
}

-- What `Start` begins at and the end that it is capped at make a batch that is not empty, ends by
-- the requested tip and has at most `max_batch` requests.
pub start-capped_batch_end :
    (max_batch snapshot_cursor requested_tip from : ℕ)
    → 1 ≤ max_batch
    → requested_tip < 2 ^ 64
    → select_poll_action false snapshot_cursor requested_tip ≡ start from
    → (from ≡ snapshot_cursor)
      × (from < capped_batch_end max_batch from requested_tip)
      × (capped_batch_end max_batch from requested_tip ≤ requested_tip)
      × (capped_batch_end max_batch from requested_tip ≤ from + max_batch)
unfolding select_poll_action capped_batch_end
start-capped_batch_end max_batch snapshot_cursor requested_tip from some_batch fits e =
    let (same, below) = started in (same, omega arith, omega arith, omega arith)
  where
    started : (from ≡ snapshot_cursor) × (snapshot_cursor < requested_tip)
    started = ground arith

-- A batch is given up only while the cursor still stands at its start, so that none of its requests
-- was taken, and only when its transaction failed, or is unknown and can no longer land.
fail-select_observed_batch_action :
    (status : Option Bool) (metadata_found blockhash_valid : Bool)
    (snapshot_cursor request_start : ℕ)
    → (select_observed_batch_action status metadata_found blockhash_valid snapshot_cursor
          request_start
        ≡ fail)
      ↔ ((snapshot_cursor ≡ request_start)
          × ((status ≡ some false)
              ⊎ ((status ≡ none) × (metadata_found ≡ false) × (blockhash_valid ≡ false))))
unfolding select_observed_batch_action is_some
fail-select_observed_batch_action (some false) metadata_found blockhash_valid snapshot_cursor
      request_start =
    ((λ e. (ground arith, inl refl)), (λ h. ground (arith, h.0)))
fail-select_observed_batch_action (some true) true blockhash_valid snapshot_cursor request_start = (
  (λ e. absurd (ground arith)),
  (λ h. elim h.1 [ inl f ↦ absurd (ground arith) | inr u ↦ absurd (ground (arith, u.0)) ]),
)
fail-select_observed_batch_action (some true) false blockhash_valid snapshot_cursor request_start =
    (
      (λ e. absurd (ground arith)),
      (λ h. elim h.1 [ inl f ↦ absurd (ground arith) | inr u ↦ absurd (ground (arith, u.0)) ]),
    )
fail-select_observed_batch_action none true blockhash_valid snapshot_cursor request_start = (
  (λ e. absurd (ground arith)),
  (λ h. elim h.1 [ inl f ↦ absurd (ground arith) | inr u ↦ absurd (ground (arith, u.1)) ]),
)
fail-select_observed_batch_action none false true snapshot_cursor request_start = (
  (λ e. absurd (ground arith)),
  (λ h. elim h.1 [ inl f ↦ absurd (ground arith) | inr u ↦ absurd (ground (arith, u.2)) ]),
)
fail-select_observed_batch_action none false false snapshot_cursor request_start =
    ((λ e. (ground arith, inr (refl, refl, refl))), (λ h. ground (arith, h.0)))
