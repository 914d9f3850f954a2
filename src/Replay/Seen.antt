-- ===== src/Replay/Seen.antt =====
-- The candidates that the loop of `canonicalize` in src/reconciliation_replay.rs has seen at its end.
use rhi.Replay.Sorting.{total_bytes}
use rhi.Replay.Types.{ReplayFact}
use rhi.Base.{[], inl, inr, ◌∷◌, List, Contains, length, ◌↔◌, ◌≡◌, ◌+◌, ◌⊎◌, arith}

-- The candidates in the order in which they have been seen, the latest first.
abbrev pub seen_after : List ReplayFact → List ReplayFact → List ReplayFact
seen_after [] seen = seen
seen_after (x ∷ candidates) seen = seen_after candidates (x ∷ seen)

pub seen_after-Contains :
    (candidates seen : List ReplayFact) (y : ReplayFact)
    → Contains (seen_after candidates seen) y ↔ (Contains candidates y ⊎ Contains seen y)
seen_after-Contains [] seen y =
    (λ h. inr h, λ h. elim h [ inl none_there ↦ absurd none_there | inr there ↦ there ])
seen_after-Contains (x ∷ candidates) seen y =
    let (down, up) = seen_after-Contains candidates (x ∷ seen) y in
    (
      λ h. elim (down h) [
        | inl later ↦ inl (inr later)
        | inr (inl now) ↦ inl (inl now)
        | inr (inr before) ↦ inr before
      ],
      λ h. elim h [
        | inl (inl now) ↦ up (inr (inl now))
        | inl (inr later) ↦ up (inl later)
        | inr before ↦ up (inr (inr before))
      ],
    )

pub seen_after-length :
    (candidates seen : List ReplayFact)
    → length (seen_after candidates seen) ≡ length candidates + length seen
seen_after-length [] seen = omega arith
seen_after-length (x ∷ candidates) seen = omega (arith, seen_after-length candidates (x ∷ seen))

pub seen_after-total_bytes :
    (candidates seen : List ReplayFact)
    → total_bytes (seen_after candidates seen) ≡ total_bytes candidates + total_bytes seen
seen_after-total_bytes [] seen = omega arith
seen_after-total_bytes (x ∷ candidates) seen =
    omega (arith, seen_after-total_bytes candidates (x ∷ seen))
