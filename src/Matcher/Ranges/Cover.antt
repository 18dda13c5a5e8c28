-- ===== src/Matcher/Ranges/Cover.antt =====
-- The ranges of `needed_block_ranges` of src/matcher.rs against the flags of the blocks.
use mathlib.Core.Path.{subst}
use mathlib.Core.List.{append-nil, append_assoc}
use zsync_rs.Prelude.{
  ℕ, suc, ◌+◌, ◌-◌, ◌≤◌, ◌<◌, ◌≡◌, sym, ap, ◌∙◌, arith, Bool, true, false, not, List, [], ◌∷◌, ◌++◌,
}
use zsync_rs.Prelude.{length, get_or, ltb, leb, ◌==◌, ◌&&◌, ◌||◌, Option, none, some}
use zsync_rs.Matcher.{BlockMatcher, is_known_at}
use zsync_rs.Matcher.Ranges.{BlockRanges, ranges_loop, close_range, needed_block_ranges}

-- Whether one of the half-open ranges holds `k`.
unfoldable pub covers : BlockRanges → ℕ → Bool
covers [] k = false
covers ((s, e) ∷ ranges) k = (leb s k && ltb k e) || covers ranges k

-- The ranges are not empty, ascend from `lo` on, and a known block lies between two of them.
abbrev pub IsSeparated : ℕ → BlockRanges → Type 0
IsSeparated lo [] = Unit
IsSeparated lo ((s, e) ∷ ranges) = (lo ≤ s) × (s < e) × IsSeparated (suc e) ranges

-- The ranges in one pass, with no vector of those before.
direct : List Bool → ℕ → Option ℕ → BlockRanges
direct [] i none = []
direct [] i (some s) = (s, i) ∷ []
direct (false ∷ known) i none = direct known (i + 1) (some i)
direct (false ∷ known) i (some s) = direct known (i + 1) (some s)
direct (true ∷ known) i none = direct known (i + 1) none
direct (true ∷ known) i (some s) = (s, i) ∷ direct known (i + 1) none

loop-direct :
    (known : List Bool) (i n : ℕ) (start : Option ℕ) (ranges : BlockRanges)
    → i + length known ≡ n
    → close_range (ranges_loop known i start ranges) n ≡ ranges ++ direct known i start
unfolding ranges_loop close_range direct
loop-direct [] i n none ranges h = sym (append-nil ranges)
loop-direct [] i n (some s) ranges h =
    let e : n ≡ i = omega arith in ap (λ t. ranges ++ ((s, t) ∷ [])) e
loop-direct (false ∷ known) i n none ranges h =
    loop-direct known (i + 1) n (some i) ranges (omega arith)
loop-direct (false ∷ known) i n (some s) ranges h =
    loop-direct known (i + 1) n (some s) ranges (omega arith)
loop-direct (true ∷ known) i n none ranges h = loop-direct known (i + 1) n none ranges (omega arith)
loop-direct (true ∷ known) i n (some s) ranges h =
    loop-direct known (i + 1) n none (ranges ++ ((s, i) ∷ [])) (omega arith)
    ∙ append_assoc ranges ((s, i) ∷ []) (direct known (i + 1) none)

-- From `i` on a block is covered if its flag is not set; before `i`, if the open run holds it.
abbrev open_covers : Option ℕ → ℕ → ℕ → Bool
open_covers none i k = false
open_covers (some s) i k = leb s k && ltb k i

abbrev needs : List Bool → ℕ → ℕ → Bool
needs known i k = leb i k && not (get_or known (k - i) true)

get_or-later :
    (b : Bool) (known : List Bool) (i k : ℕ)
    → i < k
    → get_or (b ∷ known) (k - i) true ≡ get_or known (k - (i + 1)) true
get_or-later b known i k h = let e : k - i ≡ suc (k - (i + 1)) = omega arith in rw e

get_or-here : (b : Bool) (known : List Bool) (i k : ℕ) → k ≡ i → get_or (b ∷ known) (k - i) true ≡ b
get_or-here b known i k h = let e : k - i ≡ 0 = omega arith in rw e

needs-cons :
    (b : Bool) (known : List Bool) (i k : ℕ)
    → needs (b ∷ known) i k ≡ (((k == i) && not b) || needs known (i + 1) k)
needs-cons b known i k = ground (arith, get_or-later b known i k, get_or-here b known i k)

-- A run that is open at `i` began before.
abbrev BeganBy : Option ℕ → ℕ → Type 0
BeganBy none i = Unit
BeganBy (some s) i = s ≤ i

direct-covers :
    (known : List Bool) (i : ℕ) (start : Option ℕ) (k : ℕ)
    → BeganBy start i
    → covers (direct known i start) k ≡ (open_covers start i k || needs known i k)
unfolding direct covers
direct-covers [] i none k h = ground arith
direct-covers [] i (some s) k h = ground arith
direct-covers (false ∷ known) i none k h =
    ground (arith, direct-covers known (i + 1) (some i) k, needs-cons false known i k)
direct-covers (false ∷ known) i (some s) k h =
    ground (arith, direct-covers known (i + 1) (some s) k, needs-cons false known i k)
direct-covers (true ∷ known) i none k h =
    ground (arith, direct-covers known (i + 1) none k tt, needs-cons true known i k)
direct-covers (true ∷ known) i (some s) k h =
    ground (arith, direct-covers known (i + 1) none k tt, needs-cons true known i k)

IsSeparated-weaken :
    (lo lo' : ℕ) (ranges : BlockRanges) → lo' ≤ lo → IsSeparated lo ranges → IsSeparated lo' ranges
IsSeparated-weaken lo lo' [] h k = tt
IsSeparated-weaken lo lo' ((s, e) ∷ ranges) h k = (omega arith, k.1, k.2)

direct-IsSeparated :
    (known : List Bool) (i : ℕ)
    → IsSeparated i (direct known i none)
      × ((s : ℕ) → s < i → IsSeparated s (direct known i (some s)))
unfolding direct
direct-IsSeparated [] i = (tt, λ s h. (omega arith, h, tt))
direct-IsSeparated (false ∷ known) i =
    let rest = direct-IsSeparated known (i + 1) in
    (rest.1 i (omega arith), λ s h. rest.1 s (omega arith))
direct-IsSeparated (true ∷ known) i =
    let rest = direct-IsSeparated known (i + 1) in
    let e : i + 1 ≡ suc i = omega arith in
    (
      IsSeparated-weaken (i + 1) i _ (omega arith) rest.0,
      λ s h. (omega arith, h, subst (λ lo. IsSeparated lo (direct known (i + 1) none)) e rest.0),
    )

needed_block_ranges-direct :
    (m : BlockMatcher) → needed_block_ranges m ≡ direct m.known_blocks 0 none
unfolding needed_block_ranges
needed_block_ranges-direct m =
    loop-direct m.known_blocks 0 (length m.known_blocks) none [] (omega arith)

-- The ranges hold exactly the blocks that are not known.
pub needed_block_ranges-covers :
    (m : BlockMatcher) (k : ℕ) → covers (needed_block_ranges m) k ≡ not (is_known_at m k)
needed_block_ranges-covers m k = rw (needed_block_ranges-direct m) (
    direct-covers m.known_blocks 0 none k tt
    ∙ (let e : k - 0 ≡ k = omega arith in rw e (ground arith)))

-- The ranges are not empty, they ascend, and no two of them touch.
pub needed_block_ranges-IsSeparated : (m : BlockMatcher) → IsSeparated 0 (needed_block_ranges m)
needed_block_ranges-IsSeparated m =
    rw (needed_block_ranges-direct m) ((direct-IsSeparated m.known_blocks 0).0)
