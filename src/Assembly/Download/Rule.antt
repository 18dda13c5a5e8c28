-- ===== src/Assembly/Download/Rule.antt =====
-- The loops of `download_missing_blocks` in src/assembly.rs: what every attempt to store a block keeps,
-- the whole download keeps.
pub mod Ranges
use zsync_rs.Prelude.{
  ℕ, zero, suc, ◌+◌, ◌-◌, ◌*◌, ◌/◌, ◌%◌, ◌≤◌, ◌<◌, ◌≡◌, ◌⊎◌, refl, ◌∙◌, arith, inl, inr, Bool, true,
  false, not, List, [], ◌∷◌, ◌++◌,
}
use zsync_rs.Prelude.{
  length, take, get_or, replicate, ltb, lt→ltb, ltb→lt, ltb→ge, leb→le, leb, ◌&&◌, if◌then◌else◌,
  Bool-cases, length-append, length-take, length-drop, length-replicate,
}
use zsync_rs.Control.{Bytes}
use zsync_rs.Matcher.{BlockMatcher, is_known_at, is_block_known, total_blocks}
use zsync_rs.Http.Client.{HttpClient}
use zsync_rs.Assembly.{ZsyncAssembly, write_block}
use zsync_rs.Assembly.Download.{Fill, block_data_end, store_block, fill_step, fill_loop, fill_tail}

-- What is said of an assembly and the number of blocks stored so far, and what keeps it.
pub record IsKept (md4 : Bytes → Bytes) (on_disk : Bytes) (P : ZsyncAssembly → ℕ → Type 0)
    : Type 0 where
  pub sized : (s : ZsyncAssembly) (n : ℕ) → P s n → 1 ≤ s.control.blocksize
  pub client :
      (s : ZsyncAssembly) (n : ℕ) (http : HttpClient) → P s n → P (record s { http = http }) n
  pub stored :
      (len : ℕ) (f : Fill)
      → P f.assembly f.downloaded
      → len ≤ f.assembly.control.blocksize
      → len ≤ length f.buf
      → f.current_block_id < total_blocks f.assembly.matcher
      → is_block_known f.assembly.matcher f.current_block_id ≡ false
      → P (store_block md4 on_disk len f).assembly (store_block md4 on_disk len f).downloaded

module _ (md4 : Bytes → Bytes) (on_disk : Bytes) {P : ZsyncAssembly → ℕ → Type 0}
    (kept : IsKept md4 on_disk P) where
  open kept use {sized, stored}

  abbrev pub Holds : Fill → Type 0
  Holds f = P f.assembly f.downloaded

  block_data_end-le :
      (s : ZsyncAssembly) (id : ℕ)
      → 1 ≤ s.control.blocksize
      → block_data_end s id ≤ s.control.blocksize
  unfolding block_data_end
  block_data_end-le s id h = ground arith

  fill_step_rule :
      (f : Fill)
      → Holds f
      → f.assembly.control.blocksize ≤ length f.buf
      → f.current_block_id < total_blocks f.assembly.matcher
      → Holds (fill_step md4 on_disk f)
  unfolding fill_step
  fill_step_rule f k full inside =
      elim (Bool-cases (is_block_known f.assembly.matcher f.current_block_id)) [
        | inl known ↦ rw known k
        | inr missing ↦
            let end = block_data_end f.assembly f.current_block_id in
            let fits : end ≤ f.assembly.control.blocksize =
              block_data_end-le f.assembly f.current_block_id (sized _ _ k) in
            rw missing (stored end f k fits (omega (arith, fits, full)) inside missing)
      ]

  -- Nothing is left in the buffer that the loop would take.
  abbrev pub IsDrained : Fill → Type 0
  IsDrained f =
      (length f.buf < f.assembly.control.blocksize)
      ⊎ (total_blocks f.assembly.matcher ≤ f.current_block_id)

  pub fill_loop_rule :
      (rounds : ℕ) (f : Fill)
      → Holds f
      → length f.buf ≤ rounds
      → Holds (fill_loop md4 on_disk rounds f) × IsDrained (fill_loop md4 on_disk rounds f)
  unfolding fill_loop
  fill_loop_rule zero f k short = (k, inl (omega (arith, sized _ _ k)))
  fill_loop_rule (suc rounds) f k short =
      elim (Bool-cases (ltb (length f.buf) f.assembly.control.blocksize)) [
        | inl little ↦ rw little (k, inl (ltb→lt _ _ little))
        | inr enough ↦
            elim (Bool-cases (leb (total_blocks f.assembly.matcher) f.current_block_id)) [
              | inl past ↦ rw (enough, past) (k, inr (leb→le _ _ past))
              | inr inside ↦
                  rw (enough, inside)
                    (fill_loop_rule rounds (fill_step md4 on_disk f)
                      (fill_step_rule f k (ltb→ge _ _ enough) (ground arith))
                      (omega (
                        arith,
                        length-drop f.assembly.control.blocksize f.buf,
                        ltb→ge (length f.buf) f.assembly.control.blocksize enough,
                        sized _ _ k,
                        short,
                      )))
            ]
      ]

  pub fill_tail_rule : (f : Fill) → Holds f → IsDrained f → Holds (fill_tail md4 on_disk f)
  unfolding fill_tail
  fill_tail_rule f k drained =
      let known = is_block_known f.assembly.matcher f.current_block_id in
      elim (Bool-cases (
        ltb 0 (length f.buf)
        && ltb f.current_block_id (total_blocks f.assembly.matcher)
        && not known)) [
          | inl left ↦
              let inside : f.current_block_id < total_blocks f.assembly.matcher = ground arith in
              let missing : known ≡ false = ground arith in
              let short : length f.buf ≤ f.assembly.control.blocksize = elim drained [
                | inl little ↦ omega arith
                | inr past ↦ absurd (omega arith)
              ] in
              rw left (stored (length f.buf) f k short (omega arith) inside missing)
          | inr nothing ↦ rw nothing k
        ]
