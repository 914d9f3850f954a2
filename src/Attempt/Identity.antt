-- ===== src/Attempt/Identity.antt =====
-- The identities of src/reconciliation_attempt.rs, over a hash whose digest is the number of its bytes.
use rhi.Base.{ℕ, ◌∷◌, Bool, List, be_bytes, codes, domain, length, ◌++◌, bit}

-- `hash_framed`.
abbrev framed : List ℕ → List ℕ
framed bytes = be_bytes 8 (length bytes) ++ bytes

abbrev event_kinds : List ℕ
event_kinds =
    be_bytes 4 5
    ++ (be_bytes 4 3470
        ++ (be_bytes 4 3471 ++ (be_bytes 4 3472 ++ (be_bytes 4 3473 ++ be_bytes 4 3474))))

abbrev pub source_selector : List ℕ
source_selector = codes "trade_mutation_lineage_v1"

abbrev pub source_kind : List ℕ
source_kind = codes "nostr_relay"

module _ (sha256 : List ℕ → ℕ) where
  unfoldable pub attempt_id : ℕ → ℕ → ℕ
  attempt_id job_id attempt_count = sha256 (
      domain "radroots.rhi.reconciliation_attempt.v1"
      ++ (be_bytes 32 job_id ++ be_bytes 2 attempt_count))

  unfoldable pub selector_digest : ℕ → ℕ
  selector_digest trade_id = sha256 (
      domain "radroots.rhi.reconciliation_selector.v1"
      ++ (framed source_selector ++ (event_kinds ++ (codes "d" ++ be_bytes 16 trade_id))))

  unfoldable pub request_id : ℕ → List ℕ → Bool → ℕ → ℕ → ℕ → ℕ → ℕ → ℕ → ℕ
  request_id attempt source_id required selector started_at deadline lookback events bytes =
      sha256 (
        domain "radroots.rhi.reconciliation_source_request.v1"
        ++ (be_bytes 32 attempt
            ++ (framed source_id
                ++ (bit required
                    ∷ (be_bytes 32 selector
                        ++ (be_bytes 8 started_at
                            ++ (be_bytes 8 deadline
                                ++ (be_bytes 8 lookback
                                    ++ (be_bytes 4 events ++ be_bytes 8 bytes)))))))))
