-- ===== src/Matcher/Scan/Naive.antt =====
-- A scan that computes the checksums of its window afresh at every offset. `scan_chunk` of
-- src/matcher.rs updates them in place.
pub mod Window
pub mod Agree
use native.Mathlib.Nat.{one-le-pow}
use mathlib.Core.Path.{subst}
use zsync_rs.Prelude.{
  ℕ, zero, suc, ◌+◌, ◌-◌, ◌*◌, ◌^◌, ◌≤◌, ◌<◌, ◌≡◌, refl, sym, ap, ap₂, ◌∙◌, inl, inr, arith, Bool,
  true, false, List, [], ◌∷◌, ◌++◌,
}
use zsync_rs.Prelude.{
  length, get_or, take, drop, slice, ltb, ltb→lt, ◌==◌, ==_iff, if◌then◌else◌, ◌&&◌, Option, none,
  some, All, Bool-cases, Option-cases,
}
use zsync_rs.Prelude.{length-take, length-drop, slice-front, slice-back, All-get_or}
use zsync_rs.Rsum.{Rsum, calc_rsum_block, roll}
use zsync_rs.Rsum.Roll.{roll-calc_rsum_block}
use zsync_rs.Control.{Bytes}
use zsync_rs.Matcher.{BlockMatcher}
use zsync_rs.Matcher.Chain.{Matches, match_chain}
use zsync_rs.Matcher.Scan.{
  Scan, context, is_pairs, block_rsum, hint_holds, use_hint, try_hint, try_chain, slide, seek, skip,
  round, scan_loop, scan_start, scan_chunk,
}
use zsync_rs.Matcher.Scan.Sound.{window_fits}

module _ (md4 : Bytes → Bytes) (m : BlockMatcher) (input : Bytes) (base_offset : ℕ) where
  -- The checksums of the two blocks at `x`, from scratch.
  pub second_rsum : ℕ → Rsum
  second_rsum x =
      if is_pairs md4 m input base_offset
      then block_rsum md4 m input base_offset (x + m.blocksize)
      else record { a = 0; b = 0 }

  pub refresh : Scan → Scan
  unfolding second_rsum
  refresh s = record s { r0 = block_rsum md4 m input base_offset s.x; r1 = second_rsum s.x }

  pub naive_seek : ℕ → ℕ → Scan → Scan × ℕ
  naive_seek zero x_limit s = (s, 0)
  naive_seek (suc rounds) x_limit s =
      let found = try_chain md4 m input base_offset s in
      let s' = found.0 in
      let rest = naive_seek rounds x_limit (refresh (record s' { x = s'.x + 1 })) in
      if ltb s.x x_limit then (if found.1 == 0 then rest else found) else (s, 0)

  pub naive_skip : ℕ → ℕ → Scan → Scan
  naive_skip x_limit n s =
      let x = s.x + m.blocksize * n in
      if ltb x x_limit then refresh (record s { x = x }) else record s { x = x }

  pub naive_round : ℕ → ℕ → Scan → Scan
  naive_round rounds x_limit s =
      let hinted = try_hint md4 m input base_offset s in
      let found = if hinted.1 == 0 then naive_seek rounds x_limit hinted.0 else hinted in
      if found.1 == 0 then found.0 else naive_skip x_limit found.1 found.0

  pub naive_loop : ℕ → ℕ → Scan → Scan
  naive_loop zero x_limit s = s
  naive_loop (suc rounds) x_limit s =
      let rest = naive_loop rounds x_limit (naive_round (suc rounds) x_limit s) in
      if ltb s.x x_limit then rest else s

  pub naive_scan : Matches
  unfolding refresh naive_seek naive_skip naive_round naive_loop scan_start
  naive_scan =
      let x_limit = length input - context m in
      if ltb (length input) (context m)
      then []
      else (naive_loop x_limit x_limit (scan_start md4 m input base_offset)).matched_blocks
