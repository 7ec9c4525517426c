-- ===== src/Controlplane/Cache/Peers.antt =====
-- `ResponsiveRecord` of crates/controlplane/src/env/cache.rs: how well an external peer answers. A
-- time is an integer number of nanoseconds.
use snarkops.Checkpoint.Retention.{second}
use snarkops.Common.{
  inr, inl, Option-cases, All, ◌≡◌, ◌==◌, ◌+◌, List, [], ◌∷◌, Bool, if◌then◌else◌, Option, ◌*◌, ℕ,
  none, some, false, refl, arith,
}
use snarkops.Common.Int.{◌≤ℤ◌, ℤ, pos, ltb_ℤ, ◌+ℤ◌, ◌-ℤ◌}

-- The counters are u32.
pub record ResponsiveRecord : Type 0 where
  pub failed_attempts : ℕ
  pub total_successes : ℕ
  pub last_attempt : ℤ
  pub last_success : ℤ

abbrev pub max_penalty : ℤ
max_penalty = pos (60 * 60 * second)

abbrev min_ℤ : ℤ → ℤ → ℤ
min_ℤ a b = if ltb_ℤ b a then b else a

unfoldable pub penalty : ResponsiveRecord → Option ℤ
penalty r =
    if r.failed_attempts == 0
    then none
    else some (min_ℤ (r.last_success -ℤ r.last_attempt) max_penalty)

unfoldable pub has_penalty : ℤ → ResponsiveRecord → Bool
unfolding penalty
has_penalty now r = elim (penalty r) [
  | none ↦ false
  | some penalty ↦ ltb_ℤ now (r.last_attempt +ℤ penalty)
]

unfoldable pub punish : ℤ → ResponsiveRecord → ResponsiveRecord
punish now r = record r { failed_attempts = r.failed_attempts + 1; last_attempt = now }

unfoldable pub reward : ℤ → ResponsiveRecord → ResponsiveRecord
reward now r = record r {
  total_successes = r.total_successes + 1;
  failed_attempts = 0;
  last_success = now;
  last_attempt = now;
}

-- `entry(key).or_insert(..)`
unfoldable pub record_of : ℤ → Option ResponsiveRecord → ResponsiveRecord
record_of now none = record {
  failed_attempts = 0;
  total_successes = 0;
  last_attempt = now;
  last_success = now;
}
record_of now (some r) = r

-- `update_peer_req`, on the record of the peer.
unfoldable pub update_record : ℤ → Option ResponsiveRecord → Bool → ResponsiveRecord
unfolding record_of punish reward
update_record now r success =
    if success then reward now (record_of now r) else punish now (record_of now r)

-- The requests to a peer, each with its time and whether it succeeded.
unfoldable pub after_requests : Option ResponsiveRecord → List (ℤ × Bool) → Option ResponsiveRecord
unfolding update_record
after_requests r [] = r
after_requests r ((now, success) ∷ requests) =
    after_requests (some (update_record now r success)) requests

unfoldable pub is_peer_penalized : ℤ → Option ResponsiveRecord → Bool
unfolding has_penalty
is_peer_penalized now none = false
is_peer_penalized now (some r) = has_penalty now r

-- The last success of a peer is not after a time.
abbrev SucceededBy : ℤ → Option ResponsiveRecord → Type 0
SucceededBy now none = Unit
SucceededBy now (some r) = r.last_success ≤ℤ now

update_record-SucceededBy :
    (now time : ℤ) (r : Option ResponsiveRecord) (success : Bool)
    → time ≤ℤ now
    → SucceededBy now r
    → SucceededBy now (some (update_record time r success))
unfolding update_record
update_record-SucceededBy now time none success h k = ground arith
update_record-SucceededBy now time (some r) success h k = ground arith

after_requests-SucceededBy :
    (now : ℤ) (r : Option ResponsiveRecord) (requests : List (ℤ × Bool))
    → All (λ q. q.0 ≤ℤ now) requests
    → SucceededBy now r
    → SucceededBy now (after_requests r requests)
unfolding after_requests
after_requests-SucceededBy now r [] h k = k
after_requests-SucceededBy now r ((time, success) ∷ requests) h k =
    after_requests-SucceededBy now (some (update_record time r success)) requests h.1
      (update_record-SucceededBy now time r success h.0 k)

no_penalty : (now : ℤ) (r : ResponsiveRecord) → r.last_success ≤ℤ now → has_penalty now r ≡ false
unfolding has_penalty ◌+ℤ◌ ◌-ℤ◌
no_penalty now r h = ground arith

-- However often the requests to a peer have failed, none of them later than now, the peer is not
-- penalized.
pub never_penalized :
    (now : ℤ) (requests : List (ℤ × Bool))
    → All (λ q. q.0 ≤ℤ now) requests
    → is_peer_penalized now (after_requests none requests) ≡ false
unfolding is_peer_penalized
never_penalized now requests h =
    let early = after_requests-SucceededBy now none requests h tt in
    elim (Option-cases (after_requests none requests)) [
      | inl e ↦ rw e refl
      | inr (r, e) ↦ rw e (no_penalty now r (rw e at early))
    ]
