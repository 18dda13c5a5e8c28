-- ===== src/Checksum.antt =====
-- src/checksum.rs: MD4 and SHA-1 over a slice, and SHA-1 over a reader. The hashers are those of the
-- crates md4 and sha1: an interface, with what the trait `Digest` documents of `update`.
pub mod Stream
mod Tests
use zsync_rs.Prelude.{ℕ, zero, suc, ◌*◌, ◌≡◌, [], ◌∷◌, ◌++◌, Option, none, some}
use zsync_rs.Control.{Bytes}

pub record Hasher : Type 1 where
  pub State : Type 0
  pub new : State
  pub update : State → Bytes → State
  pub finalize : State → Bytes
  pub update-nil : (h : State) → update h [] ≡ h
  pub update-append : (h : State) (a b : Bytes) → update (update h a) b ≡ update h (a ++ b)

-- `SHA1_BUFFER_SIZE`
abbrev pub sha1_buffer_size : ℕ
sha1_buffer_size = 64 * 1024

unfoldable pub calc_md4 : Hasher → Bytes → Bytes
calc_md4 md4 bytes = md4.finalize (md4.update md4.new bytes)

unfoldable pub calc_sha1 : Hasher → Bytes → Bytes
calc_sha1 sha1 bytes = sha1.finalize (sha1.update sha1.new bytes)

-- One read from a reader into a buffer of the given length; `none` is an error.
module _ (sha1 : Hasher) {R : Type 0} (read : R → ℕ → R × Option Bytes) where
  -- The loop. With no rounds left it stops as if by an error.
  unfoldable pub hash_loop : ℕ → R → sha1.State → R × Option sha1.State
  hash_loop zero reader hasher = (reader, none)
  hash_loop (suc rounds) reader hasher =
      let got = read reader sha1_buffer_size in
      let more = λ (bytes : Bytes). hash_loop rounds got.0 (sha1.update hasher bytes) in
      elim got.1 [
        | none ↦ (got.0, none)
        | some [] ↦ (got.0, some hasher)
        | some (byte ∷ bytes) ↦ more (byte ∷ bytes)
      ]

  unfoldable pub calc_sha1_stream : ℕ → R → R × Option Bytes
  unfolding hash_loop
  calc_sha1_stream rounds reader =
      let (reader', hashed) = hash_loop rounds reader sha1.new in
      (reader', elim hashed [ none ↦ none | some hasher ↦ some (sha1.finalize hasher) ])
