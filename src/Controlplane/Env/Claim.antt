-- ===== src/Controlplane/Env/Claim.antt =====
-- `AgentMapping::claim` of crates/controlplane/src/env/set.rs, run by several threads on one agent.
-- The agent stays in the pool, so its own `Arc` is one of the strong references all the time, and
-- the reads and writes of the count are in one order.
use Prim.Native.Nat.{zero}
use mathlib.Core.Option.{some-injective}
use snarkops.Common.{
  ==_iff, Option-cases, inr, inl, Bool-cases, ◌≤◌, ◌==◌, suc, set, ltb, ◌≡◌, replicate, ◌+◌, ◌-◌,
  get_elem?, if◌then◌else◌, ℕ, List, [], ◌∷◌, refl, arith, none, some,
}

-- Where a thread stands: it has not looked at the count, saw it at most 1, holds the upgraded `Arc`,
-- returned it, has seen another count than 2 and is to drop it, or returned `None`.
pub data Claimant : Type 0 where
  idle checked upgraded claimed leaving refused : Claimant

-- `strong` is the strong count of the agent's claim.
pub record Claims : Type 0 where
  pub strong : ℕ
  pub claimants : List Claimant

-- What a thread does next; a thread that has returned keeps the `Arc`, if it got one.
unfoldable pub advance_claimant : ℕ → Claims → Claimant → Claims
advance_claimant i s idle =
    if ltb 1 s.strong
    then record s { claimants = set s.claimants i refused }
    else record s { claimants = set s.claimants i checked }
advance_claimant i s checked =
    if s.strong == 0
    then record s { claimants = set s.claimants i refused }
    else record s { strong = suc s.strong; claimants = set s.claimants i upgraded }
advance_claimant i s upgraded =
    if s.strong == 2
    then record s { claimants = set s.claimants i claimed }
    else record s { claimants = set s.claimants i leaving }
advance_claimant i s leaving = record s {
  strong = s.strong - 1;
  claimants = set s.claimants i refused;
}
advance_claimant i s claimed = s
advance_claimant i s refused = s

-- An `Arc` that was returned is dropped, and the agent is free for another claim.
unfoldable pub release_claimant : ℕ → Claims → Claimant → Claims
release_claimant i s claimed = record s {
  strong = s.strong - 1;
  claimants = set s.claimants i idle;
}
release_claimant i s _ = s

pub data Action : Type 0 where
  advance release : ℕ → Action

unfoldable pub act : Claims → Action → Claims
unfolding advance_claimant release_claimant
act s (advance i) = elim (get_elem? s.claimants i) [ none ↦ s | some c ↦ advance_claimant i s c ]
act s (release i) = elim (get_elem? s.claimants i) [ none ↦ s | some c ↦ release_claimant i s c ]

unfoldable pub run : List Action → Claims → Claims
unfolding act
run [] s = s
run (a ∷ actions) s = run actions (act s a)

-- An agent that nothing has claimed, and `n` threads.
abbrev pub unclaimed : ℕ → Claims
unclaimed n = record { strong = 1; claimants = replicate n idle }

abbrev pub holds : Claimant → ℕ
holds upgraded = 1
holds claimed = 1
holds leaving = 1
holds _ = 0

abbrev pub owns : Claimant → ℕ
owns claimed = 1
owns _ = 0

abbrev pub total : (Claimant → ℕ) → List Claimant → ℕ
total f [] = 0
total f (c ∷ cs) = f c + total f cs

total-set :
    (f : Claimant → ℕ) (cs : List Claimant) (i : ℕ) (c d : Claimant)
    → get_elem? cs i ≡ some c
    → total f (set cs i d) + f c ≡ total f cs + f d
total-set f [] i c d h = absurd (cc h)
total-set f (x ∷ cs) zero c d h = let e = some-injective _ _ h in rw e (omega arith)
total-set f (x ∷ cs) (suc i) c d h = omega (arith, total-set f cs i c d h)

-- The count is that of the agent and of the threads that hold the `Arc`; one of them has returned
-- it at most.
pub record IsCounted (s : Claims) : Type 0 where
  pub counted : s.strong ≡ suc (total holds s.claimants)
  pub one_owner : total owns s.claimants ≤ 1

owns-le-holds : (cs : List Claimant) → total owns cs ≤ total holds cs
owns-le-holds [] = omega arith
owns-le-holds (claimed ∷ cs) = omega (arith, owns-le-holds cs)
owns-le-holds (idle ∷ cs) = omega (arith, owns-le-holds cs)
owns-le-holds (checked ∷ cs) = omega (arith, owns-le-holds cs)
owns-le-holds (upgraded ∷ cs) = omega (arith, owns-le-holds cs)
owns-le-holds (leaving ∷ cs) = omega (arith, owns-le-holds cs)
owns-le-holds (refused ∷ cs) = omega (arith, owns-le-holds cs)

module _ (i : ℕ) (s : Claims) (v : IsCounted s) where
  set-IsCounted :
      (c d : Claimant) (strong : ℕ)
      → get_elem? s.claimants i ≡ some c
      → strong + holds c ≡ s.strong + holds d
      → total owns s.claimants + owns d ≤ 1 + owns c
      → IsCounted (record { strong = strong; claimants = set s.claimants i d })
  set-IsCounted c d strong e h one = record {
    counted = omega (arith, v.counted, h, total-set holds s.claimants i c d e);
    one_owner = omega (arith, one, total-set owns s.claimants i c d e);
  }

  -- A thread that holds one of two references holds the only one beside the agent's.
  no_owner : get_elem? s.claimants i ≡ some upgraded → s.strong ≡ 2 → total owns s.claimants ≡ 0
  no_owner e two = omega (
    arith,
    v.counted,
    two,
    owns-le-holds (set s.claimants i claimed),
    total-set holds s.claimants i upgraded claimed e,
    total-set owns s.claimants i upgraded claimed e,
  )

  advance_claimant-IsCounted :
      (c : Claimant) → get_elem? s.claimants i ≡ some c → IsCounted (advance_claimant i s c)
  unfolding advance_claimant
  advance_claimant-IsCounted idle e = elim (Bool-cases (ltb 1 s.strong)) [
    | inl h ↦ rw h (set-IsCounted idle refused s.strong e refl (omega (arith, v.one_owner)))
    | inr h ↦ rw h (set-IsCounted idle checked s.strong e refl (omega (arith, v.one_owner)))
  ]
  advance_claimant-IsCounted checked e = elim (Bool-cases (s.strong == 0)) [
    | inl h ↦ rw h (set-IsCounted checked refused s.strong e refl (omega (arith, v.one_owner)))
    | inr h ↦
        rw h (
          set-IsCounted checked upgraded (suc s.strong) e (omega arith)
            (omega (arith, v.one_owner)))
  ]
  advance_claimant-IsCounted upgraded e = elim (Bool-cases (s.strong == 2)) [
    | inl h ↦ rw h (
        set-IsCounted upgraded claimed s.strong e refl
          (omega (arith, no_owner e ((==_iff s.strong 2).0 h))))
    | inr h ↦ rw h (set-IsCounted upgraded leaving s.strong e refl (omega (arith, v.one_owner)))
  ]
  advance_claimant-IsCounted leaving e =
      set-IsCounted leaving refused (s.strong - 1) e
        (omega (arith, v.counted, total-set holds s.claimants i leaving refused e))
        (omega (arith, v.one_owner))
  advance_claimant-IsCounted claimed e = v
  advance_claimant-IsCounted refused e = v

  release_claimant-IsCounted :
      (c : Claimant) → get_elem? s.claimants i ≡ some c → IsCounted (release_claimant i s c)
  unfolding release_claimant
  release_claimant-IsCounted claimed e =
      set-IsCounted claimed idle (s.strong - 1) e (omega (arith, v.counted))
        (omega (arith, v.one_owner))
  release_claimant-IsCounted idle e = v
  release_claimant-IsCounted checked e = v
  release_claimant-IsCounted upgraded e = v
  release_claimant-IsCounted leaving e = v
  release_claimant-IsCounted refused e = v

act-IsCounted : (s : Claims) (a : Action) → IsCounted s → IsCounted (act s a)
unfolding act
act-IsCounted s (advance i) v = elim (Option-cases (get_elem? s.claimants i)) [
  | inl e ↦ rw (e, act) v
  | inr (c, e) ↦ rw (e, act) (advance_claimant-IsCounted i s v c e)
]
act-IsCounted s (release i) v = elim (Option-cases (get_elem? s.claimants i)) [
  | inl e ↦ rw (e, act) v
  | inr (c, e) ↦ rw (e, act) (release_claimant-IsCounted i s v c e)
]

run-IsCounted : (actions : List Action) (s : Claims) → IsCounted s → IsCounted (run actions s)
unfolding run
run-IsCounted [] s v = v
run-IsCounted (a ∷ actions) s v = run-IsCounted actions (act s a) (act-IsCounted s a v)

total-replicate : (f : Claimant → ℕ) (n : ℕ) → f idle ≡ 0 → total f (replicate n idle) ≡ 0
total-replicate f zero h = refl
total-replicate f (suc n) h = omega (arith, h, total-replicate f n h)

-- In every order of the steps of any number of threads that claim an agent which nothing has
-- claimed, and drop the claims they got, at most one thread has the claim at the end.
pub one_claim :
    (n : ℕ) (actions : List Action) → total owns (run actions (unclaimed n)).claimants ≤ 1
one_claim n actions =
    (run-IsCounted actions (unclaimed n) (record {
      counted = omega (arith, total-replicate holds n refl);
      one_owner = omega (arith, total-replicate owns n refl);
    })).one_owner

get_elem?-set-some :
    (cs : List Claimant) (i : ℕ) (c d : Claimant)
    → get_elem? cs i ≡ some c
    → get_elem? (set cs i d) i ≡ some d
get_elem?-set-some [] i c d h = absurd (cc h)
get_elem?-set-some (x ∷ cs) zero c d h = refl
get_elem?-set-some (x ∷ cs) (suc i) c d h = get_elem?-set-some cs i c d h

advance_next :
    (s : Claims) (i : ℕ) (c : Claimant)
    → get_elem? s.claimants i ≡ some c
    → act s (advance i) ≡ advance_claimant i s c
unfolding act
advance_next s i c e = rw (e, act)

-- A thread that runs alone gets the claim of an agent that only the agent holds.
pub lone_claim :
    (s : Claims) (i : ℕ)
    → s.strong ≡ 1
    → get_elem? s.claimants i ≡ some idle
    → get_elem? (run (advance i ∷ advance i ∷ advance i ∷ []) s).claimants i ≡ some claimed
unfolding run advance_claimant
lone_claim s i one e =
    let looked : Claims = record s { claimants = set s.claimants i checked } in
    let taken : Claims = record { strong = 2; claimants = set looked.claimants i upgraded } in
    let looks = get_elem?-set-some s.claimants i idle checked e in
    let takes = get_elem?-set-some looked.claimants i checked upgraded looks in
    rw
      (
        advance_next s i idle e,
        one,
        advance_next (record looked { strong = 1 }) i checked looks,
        advance_next taken i upgraded takes,
      )
      (get_elem?-set-some taken.claimants i upgraded claimed takes)
