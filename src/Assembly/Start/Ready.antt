-- ===== src/Assembly/Start/Ready.antt =====
-- What an assembly that `from_url` of src/assembly.rs returns satisfies.
use mathlib.Core.Path.{subst}
use zsync_rs.Prelude.{
  ℕ, ◌+◌, ◌-◌, ◌/◌, ◌≤◌, ◌≡◌, refl, sym, ap, ◌∙◌, arith, false, length, get_or-replicate, Option,
  none, some,
}
use zsync_rs.Control.{Bytes, ControlFile}
use zsync_rs.Control.Header
use zsync_rs.Control.Header.{parse, max_blocks}
use zsync_rs.Control.Header.Parsed.{IsParsed, parse-IsParsed}
use zsync_rs.Control.Generate.Blocks.{is_power_of_two_positive}
use zsync_rs.Matcher.{is_block_known, total_blocks}
use zsync_rs.Matcher.New
use zsync_rs.Matcher.New.Valid.{new-IsValid, length-map}
use zsync_rs.Matcher.New.Target.{new-targets}
use zsync_rs.Matcher.Known.{IsValid}
use zsync_rs.Http.Client
use zsync_rs.Http.Client.{HttpClient}
use zsync_rs.Http.Fetch.{Reply, fetch_control_file}
use zsync_rs.Http.Fetch.Parsed.{fetch_control_file-IsBody, IsBody-parse}
use zsync_rs.Assembly.{ZsyncAssembly, with_client}
use zsync_rs.Assembly.Urls.{extract_base_url}
use zsync_rs.Assembly.Start.{Result, begin, from_url_with_client}

-- A new assembly of the target that a control file describes.
pub record IsFresh (control : ControlFile) (s : ZsyncAssembly) : Type 0 where
  pub described : s.control ≡ control
  pub parsed : IsParsed control
  pub valid : IsValid s.matcher
  pub fits : s.matcher.blocksize ≡ s.control.blocksize
  pub positive : 1 ≤ s.control.blocksize
  pub pairs : 1 ≤ s.matcher.hash_lengths.seq_matches
  pub blocks :
      total_blocks s.matcher ≡ (control.file_length + (control.blocksize - 1)) / control.blocksize
  pub few_blocks : total_blocks s.matcher ≤ max_blocks
  pub nothing_known : (id : ℕ) → is_block_known s.matcher id ≡ false
  pub unopened : s.file ≡ none

with_client-IsFresh :
    (control : ControlFile) (output_path : Bytes) (base : Option Bytes) (http : HttpClient)
    → IsParsed control
    → IsFresh control (with_client control output_path base http)
unfolding with_client total_blocks is_block_known
with_client-IsFresh control output_path base http p = record {
  described = refl;
  parsed = p;
  valid = new-IsValid control (omega (arith, p.blocks_fit));
  fits = (new-targets control).1;
  positive = is_power_of_two_positive 64 control.blocksize p.power;
  pairs = rw (new-targets control).2 (p.accepted.seq_range.0);
  blocks = length_targets ∙ p.counted;
  few_blocks = omega (arith, length_targets, p.blocks_fit);
  nothing_known = λ id.
      rw (new-targets control).3
        (grind (arith, get_or-replicate (length control.block_checksums) false id));
  unopened = refl;
}
  where
    length_targets : length (New.new control).targets ≡ length control.block_checksums
    length_targets = ap length (new-targets control).0 ∙ length-map _ control.block_checksums

begin-IsFresh :
    (control_url output_path : Bytes) (http : HttpClient) (fetched : Client.Result ControlFile)
    (s : ZsyncAssembly)
    → ((control : ControlFile) → fetched ≡ Client.Result.ok control → IsParsed control)
    → begin control_url output_path http fetched ≡ Result.ok s
    → (control : ControlFile) × (fetched ≡ Client.Result.ok control)
      × (s ≡ with_client control output_path (some (extract_base_url control_url)) http)
      × IsFresh control s
unfolding begin
begin-IsFresh control_url output_path http (Client.Result.err e) s sound h = cc h
begin-IsFresh control_url output_path http (Client.Result.ok control) s sound h =
    let same : with_client control output_path (some (extract_base_url control_url)) http ≡ s =
      cc h in
    (
      control,
      refl,
      sym same,
      subst (IsFresh control) same (
          with_client-IsFresh control output_path (some (extract_base_url control_url)) http
            (sound control refl)),
    )

-- When `from_url` or `from_url_with_client` succeeds, the server sent a body that parses, and the
-- assembly is new: it takes the control file that was parsed and checked, its base is the URL up to
-- the last slash of its path, its matcher is valid, of the block size of the control file and with
-- one block for each block of the target, at most 2^26 of them, none of which is known, and no
-- temporary file is open.
pub from_url_with_client-IsFresh :
    {W : Type 0} (get : W → Bytes → W × Reply) (control_url output_path : Bytes) (http : HttpClient)
    (w : W) (s : ZsyncAssembly)
    → (from_url_with_client get control_url output_path http w).1 ≡ Result.ok s
    → (bytes : Bytes) × (control : ControlFile) × ((get w control_url).1 ≡ Reply.body bytes)
      × (parse bytes ≡ Header.Result.ok control)
      × (s ≡ with_client control output_path (some (extract_base_url control_url)) http)
      × IsFresh control s
unfolding from_url_with_client
from_url_with_client-IsFresh get control_url output_path http w s h =
    let (control, fetched, same, fresh) =
      begin-IsFresh control_url output_path http (fetch_control_file get control_url w).1 s
        (λ c e. let (bytes, _, parses) = arrived c e in (parse-IsParsed bytes c parses).0) h in
    let (bytes, sent, parses) = arrived control fetched in
    (bytes, control, sent, parses, same, fresh)
  where
    arrived :
        (c : ControlFile)
        → (fetch_control_file get control_url w).1 ≡ Client.Result.ok c
        → (bytes : Bytes) × ((get w control_url).1 ≡ Reply.body bytes)
          × (parse bytes ≡ Header.Result.ok c)
    arrived c e =
        IsBody-parse (get w control_url).1 c (fetch_control_file-IsBody get control_url w c e)
