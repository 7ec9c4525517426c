-- ===== src/Events/Filter/Meaning.antt =====
-- What the operators of crates/common/src/events/filter_ops.rs mean for an event.
use snarkops.Common.{◌==◌, if◌then◌else◌, ℕ, ◌≢◌, ◌+◌, ◌≡◌, refl, Bool, ◌&&◌, ◌||◌, arith}
use snarkops.State.NodeTarget.{WildMatch}
use snarkops.Events.Models.{Event}
use snarkops.Events.Filter.{
  any_of, one_of, bitor, bitxor, EventFilter, Filters, unfiltered, all_of, no_filters, filter_then,
  matches, all_match, any_match, count_matches, extend, bitand,
}

and_comm : (a b : Bool) → a && b ≡ b && a
and_comm a b = ground arith

or_comm : (a b : Bool) → a || b ≡ b || a
or_comm a b = ground arith

module _ {P D : Type 0} (W : WildMatch P) (e : Event D) where
  all_match-extend :
      (fs gs : Filters P) → all_match W e (extend fs gs) ≡ all_match W e fs && all_match W e gs
  unfolding extend matches
  all_match-extend no_filters gs = refl
  all_match-extend (filter_then f fs) gs = ground (arith, all_match-extend fs gs)

  any_match-extend :
      (fs gs : Filters P) → any_match W e (extend fs gs) ≡ any_match W e fs || any_match W e gs
  unfolding extend matches
  any_match-extend no_filters gs = refl
  any_match-extend (filter_then f fs) gs = ground (arith, any_match-extend fs gs)

  count_matches-extend :
      (fs gs : Filters P)
      → count_matches W e (extend fs gs) ≡ count_matches W e fs + count_matches W e gs
  unfolding extend matches
  count_matches-extend no_filters gs = omega arith
  count_matches-extend (filter_then f fs) gs = ground (arith, count_matches-extend fs gs)

  -- An event matches `a & b` exactly if it matches both.
  pub matches-bitand :
      (a b : EventFilter P) → matches W e (bitand a b) ≡ matches W e a && matches W e b
  unfolding bitand matches
  matches-bitand unfiltered b = refl
  matches-bitand (all_of fs) unfiltered = ground arith
  matches-bitand (all_of fs) (all_of gs) = all_match-extend fs gs
  matches-bitand (all_of fs) b = ground (arith, all_match-extend fs (filter_then b no_filters))
  matches-bitand a unfiltered = ground arith
  matches-bitand a (all_of gs) = ground (arith, all_match-extend gs (filter_then a no_filters))
  matches-bitand a b = ground arith

  -- An event matches `a | b` exactly if it matches one of them.
  pub matches-bitor :
      (a b : EventFilter P) → matches W e (bitor a b) ≡ matches W e a || matches W e b
  unfolding bitor matches
  matches-bitor unfiltered b = refl
  matches-bitor (any_of fs) unfiltered = ground arith
  matches-bitor (any_of fs) (any_of gs) = any_match-extend fs gs
  matches-bitor (any_of fs) b = ground (arith, any_match-extend fs (filter_then b no_filters))
  matches-bitor a unfiltered = ground arith
  matches-bitor a (any_of gs) = ground (arith, any_match-extend gs (filter_then a no_filters))
  matches-bitor a b = ground arith

  -- How many alternatives of an operand of `^` an event matches.
  abbrev pub alternatives : EventFilter P → ℕ
  alternatives (one_of fs) = count_matches W e fs
  alternatives f = if matches W e f then 1 else 0

  -- If neither filter is the one that lets everything through, an event matches `a ^ b` exactly if it
  -- matches one alternative among those of both.
  pub matches-bitxor :
      (a b : EventFilter P)
      → a ≢ unfiltered
      → b ≢ unfiltered
      → matches W e (bitxor a b) ≡ (alternatives a + alternatives b == 1)
  unfolding bitxor matches
  matches-bitxor unfiltered b h k = absurd (h refl)
  matches-bitxor (one_of fs) unfiltered h k = absurd (k refl)
  matches-bitxor (one_of fs) (one_of gs) h k = rw (count_matches-extend fs gs)
  matches-bitxor (one_of fs) b h k =
      ground (arith, count_matches-extend fs (filter_then b no_filters))
  matches-bitxor a unfiltered h k = absurd (k refl)
  matches-bitxor a (one_of gs) h k =
      ground (arith, count_matches-extend gs (filter_then a no_filters))
  matches-bitxor a b h k = ground arith

  -- Combining with the filter that lets everything through changes nothing on either side.
  pub bitxor_unfiltered :
      (a : EventFilter P) → (bitxor unfiltered a ≡ a) × (bitxor a unfiltered ≡ a)
  unfolding bitxor
  bitxor_unfiltered unfiltered = (refl, refl)
  bitxor_unfiltered (one_of fs) = (refl, refl)
  bitxor_unfiltered _ = (refl, refl)
